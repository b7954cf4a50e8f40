-- ===== src/Net/Nft/Sent.antt =====
-- src/netmux/nftables.rs: what the operations send, where the kernel takes every batch.
use z8s.Base.{ℕ, ◌≡◌, ap, true, List, [], ◌∷◌, ◌++◌, any, if◌then◌else◌, Bool-cases, inl, inr}
use mathlib.Core.List.{append_assoc, append-nil}
use z8s.Base.Text.{Text}
use z8s.Net.Nft.{
  Kernel, Batch, Matches, NftEngine, add_chain, nat_table, dnat_rule, jump_rule, hooks,
  service_matches, is_pair, is_ok, send, add_backends, update_dnat_chain, add_jump_rules,
  track_service, add_dnat, chain_name,
}

-- The kernel takes every batch, or refuses it with a code that is ignored.
abbrev pub Accepts : Kernel → Type 0
Accepts k = (h : List Batch) (b : Batch) → is_ok (k.answer h b) ≡ true

-- A state after more batches.
abbrev pub after : NftEngine → List Batch → NftEngine
after e bs = record e { sent = e.sent ++ bs }

pub after-after : (e : NftEngine) (bs cs : List Batch) → after (after e bs) cs ≡ after e (bs ++ cs)
after-after e bs cs = ap (λ s. record e { sent = s }) (append_assoc e.sent bs cs)

abbrev pub rule_batches : Text → Matches → List (ℕ × ℕ) → List Batch
rule_batches svc ms [] = []
rule_batches svc ms ((ip, port) ∷ backends) =
    (dnat_rule svc ms ip port ∷ []) ∷ rule_batches svc ms backends

abbrev pub jump_batches : Text → List Text → List Batch
jump_batches svc [] = []
jump_batches svc (h ∷ hs) = (jump_rule svc h ∷ []) ∷ jump_batches svc hs

-- What `add_dnat` has sent by its end.
abbrev pub synced : ℕ → ℕ → List (ℕ × ℕ) → NftEngine → NftEngine
synced ip port backends e = after e (
    (add_chain nat_table (chain_name ip port) ∷ [])
    ∷ rule_batches (chain_name ip port) (service_matches ip port) backends)

module _ (k : Kernel) (accepts : Accepts k) where
  pub send_accepted : (b : Batch) (e : NftEngine) → send k b e ≡ (after e (b ∷ []), true)
  unfolding send
  send_accepted b e = rw (accepts e.sent b)

  pub add_backends_accepted :
      (svc : Text) (ms : Matches) (backends : List (ℕ × ℕ)) (e : NftEngine)
      → add_backends k svc ms backends e ≡ (after e (rule_batches svc ms backends), true)
  unfolding add_backends
  add_backends_accepted svc ms [] e = rw (append-nil e.sent)
  add_backends_accepted svc ms ((ip, port) ∷ backends) e = rw (
    send_accepted (dnat_rule svc ms ip port ∷ []) e,
    add_backends_accepted svc ms backends (after e ((dnat_rule svc ms ip port ∷ []) ∷ [])),
    after-after e ((dnat_rule svc ms ip port ∷ []) ∷ []) (rule_batches svc ms backends),
  )

  pub add_jump_rules_accepted :
      (svc : Text) (hs : List Text) (e : NftEngine)
      → add_jump_rules k svc hs e ≡ (after e (jump_batches svc hs), true)
  unfolding add_jump_rules
  add_jump_rules_accepted svc [] e = rw (append-nil e.sent)
  add_jump_rules_accepted svc (h ∷ hs) e = rw (
    send_accepted (jump_rule svc h ∷ []) e,
    add_jump_rules_accepted svc hs (after e ((jump_rule svc h ∷ []) ∷ [])),
    after-after e ((jump_rule svc h ∷ []) ∷ []) (jump_batches svc hs),
  )

  pub update_dnat_chain_accepted :
      (svc : Text) (ms : Matches) (backends : List (ℕ × ℕ)) (e : NftEngine)
      → update_dnat_chain k svc backends ms e
        ≡ (after e ((add_chain nat_table svc ∷ []) ∷ rule_batches svc ms backends), true)
  unfolding update_dnat_chain
  update_dnat_chain_accepted svc ms backends e = rw (
    send_accepted (add_chain nat_table svc ∷ []) e,
    add_backends_accepted svc ms backends (after e ((add_chain nat_table svc ∷ []) ∷ [])),
    after-after e ((add_chain nat_table svc ∷ []) ∷ []) (rule_batches svc ms backends),
  )

  -- Where the kernel takes every batch, `add_dnat` succeeds and sends the service's chain, then one
  -- rule for each backend in their order, and, only if the service is not tracked yet, one jump for
  -- each of the two hooks; from then on the service is tracked.
  pub add_dnat_accepted :
      (ip port : ℕ) (backends : List (ℕ × ℕ)) (e : NftEngine)
      → add_dnat k ip port backends e ≡ (
        (if any (is_pair ip port) e.jump_track
            then synced ip port backends e
            else record (after
                (synced ip port backends e)
                (jump_batches (chain_name ip port) hooks)) {
                  jump_track = e.jump_track ++ ((ip, port) ∷ []);
                }),
        true,
      )
  unfolding add_dnat track_service
  add_dnat_accepted ip port backends e =
      rw (update_dnat_chain_accepted (chain_name ip port) (service_matches ip port) backends e)
        (elim (Bool-cases (any (is_pair ip port) e.jump_track)) [
          | inl old ↦ rw old
          | inr new ↦ rw (
            new,
            add_jump_rules_accepted (chain_name ip port) hooks (record (synced ip port backends e) {
              jump_track = e.jump_track ++ ((ip, port) ∷ []);
            }),
          )
        ])
