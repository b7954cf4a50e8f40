-- ===== src/Net/Nft/Resync.antt =====
-- src/netmux/nftables.rs: a service that is synced again.
use z8s.Base.{
  ℕ, ◌+◌, ◌≡◌, refl, ap, ◌∙◌, true, false, ◌&&◌, List, [], ◌∷◌, ◌++◌, arith, any, if◌then◌else◌,
  Bool-cases, inl, inr, ◌⊎◌,
}
use z8s.Base.Text.{Text, codes, text_eq, text_eq_refl}
use z8s.Net.Nft.{
  Kernel, Batch, Message, Matches, Expr, NftEngine, add_rule, del_chain, nat_table, dnat_rule,
  hooks, is_pair, chain_name, service_matches, add_dnat, remove_dnat, retain_pairs, del_table,
  add_table, add_chain, add_base_chain, add_set, add_elements,
}
use z8s.Net.Nft.Jumps.{jumps, jumps-append, is_jump}
use z8s.Net.Nft.Sent.{
  Accepts, after, synced, rule_batches, jump_batches, add_dnat_accepted, send_accepted,
}
use mathlib.Core.List.{append-nil}

abbrev pub consider : Text → Message → List (List Expr) → List (List Expr)
consider chain (add_rule table c exprs) rest =
    if text_eq table nat_table && text_eq c chain then exprs ∷ rest else rest
consider chain _ rest = rest

abbrev pub rules_in : Text → Batch → List (List Expr) → List (List Expr)
rules_in chain [] rest = rest
rules_in chain (m ∷ ms) rest = consider chain m (rules_in chain ms rest)

-- The rules that were sent for a chain of the NAT table, in their order.
unfoldable pub rules_of : Text → List Batch → List (List Expr)
rules_of chain [] = []
rules_of chain (b ∷ bs) = rules_in chain b (rules_of chain bs)

abbrev pub exprs_of : Message → List Expr
exprs_of (add_rule table c exprs) = exprs
exprs_of _ = []

-- The rules of a service's backends.
abbrev pub backend_rules : Text → Matches → List (ℕ × ℕ) → List (List Expr)
backend_rules svc ms [] = []
backend_rules svc ms ((ip, port) ∷ backends) =
    exprs_of (dnat_rule svc ms ip port) ∷ backend_rules svc ms backends

rules_in-append :
    (chain : Text) (b : Batch) (rs ss : List (List Expr))
    → rules_in chain b (rs ++ ss) ≡ rules_in chain b rs ++ ss
rules_in-append chain [] rs ss = refl
rules_in-append chain (m ∷ b) rs ss =
    ap (consider chain m) (rules_in-append chain b rs ss) ∙ front m (rules_in chain b rs)
  where
    front :
        (m : Message) (rs : List (List Expr))
        → consider chain m (rs ++ ss) ≡ consider chain m rs ++ ss
    front (add_rule table c exprs) rs = ground arith
    front (del_table t) rs = refl
    front (add_table t) rs = refl
    front (add_chain t c) rs = refl
    front (del_chain t c) rs = refl
    front (add_base_chain t c ty h p) rs = refl
    front (add_set t n) rs = refl
    front (add_elements t n ips) rs = refl

pub rules_of-append :
    (chain : Text) (bs cs : List Batch)
    → rules_of chain (bs ++ cs) ≡ rules_of chain bs ++ rules_of chain cs
unfolding rules_of
rules_of-append chain [] cs = refl
rules_of-append chain (b ∷ bs) cs =
    rw (rules_of-append chain bs cs)
      (rules_in-append chain b (rules_of chain bs) (rules_of chain cs))

rules_of-rule_batches :
    (svc : Text) (ms : Matches) (backends : List (ℕ × ℕ))
    → rules_of svc (rule_batches svc ms backends) ≡ backend_rules svc ms backends
unfolding rules_of
rules_of-rule_batches svc ms [] = refl
rules_of-rule_batches svc ms ((ip, port) ∷ backends) =
    rw (text_eq_refl nat_table, text_eq_refl svc, rules_of-rule_batches svc ms backends)

-- A service's jump rules stand in the hooks' chains.
hooks-ne :
    (ip port : ℕ) → rules_of (chain_name ip port) (jump_batches (chain_name ip port) hooks) ≡ []
unfolding rules_of chain_name text_eq
hooks-ne ip port = refl

jumps-rule_batches :
    (svc h chain : Text) (ms : Matches) (backends : List (ℕ × ℕ))
    → jumps svc h (rule_batches chain ms backends) ≡ 0
unfolding jumps
jumps-rule_batches svc h chain ms [] = refl
jumps-rule_batches svc h chain ms ((ip, port) ∷ backends) =
    omega (arith, jumps-rule_batches svc h chain ms backends)

jumps-jump_batches :
    (svc h : Text)
    → (h ≡ codes "prerouting") ⊎ (h ≡ codes "output")
    → jumps svc h (jump_batches svc hooks) ≡ 1
unfolding jumps text_eq
jumps-jump_batches svc h (inl e) = rw (e, text_eq_refl svc)
jumps-jump_batches svc h (inr e) = rw (e, text_eq_refl svc)

no_jump :
    (svc h : Text) (m : Message)
    → is_jump svc h m ≡ false
    → (bs : List Batch) → jumps svc h ((m ∷ []) ∷ bs) ≡ jumps svc h bs
unfolding jumps
no_jump svc h m e bs = rw e (omega arith)

none_left : (svc h : Text) → jumps svc h [] ≡ 0
unfolding jumps
none_left svc h = refl

untracked :
    (ip port : ℕ) (track : List (ℕ × ℕ))
    → any (is_pair ip port) (retain_pairs ip port track) ≡ false
unfolding retain_pairs
untracked ip port [] = refl
untracked ip port ((i, p) ∷ track) = ground (arith, untracked ip port track)

module _ (k : Kernel) (accepts : Accepts k) (ip port : ℕ) (e : NftEngine) where
  synced_rules :
      (backends : List (ℕ × ℕ))
      → rules_of (chain_name ip port) (synced ip port backends e).sent
        ≡ rules_of (chain_name ip port) e.sent
          ++ backend_rules (chain_name ip port) (service_matches ip port) backends
  synced_rules backends =
      rules_of-append (chain_name ip port) e.sent (
        (add_chain nat_table (chain_name ip port) ∷ [])
        ∷ rule_batches (chain_name ip port) (service_matches ip port) backends)
      ∙ ap (λ r. rules_of (chain_name ip port) e.sent ++ r)
          (unfold rules_of in
            rules_of-rule_batches (chain_name ip port) (service_matches ip port) backends)

  -- Where the kernel takes every batch, a sync appends the rules of its backends to those that
  -- earlier syncs have sent for the service's chain, and takes none of these away.
  pub add_dnat_appends :
      (backends : List (ℕ × ℕ))
      → rules_of (chain_name ip port) (add_dnat k ip port backends e).0.sent
        ≡ rules_of (chain_name ip port) e.sent
          ++ backend_rules (chain_name ip port) (service_matches ip port) backends
  add_dnat_appends backends =
      rw (add_dnat_accepted k accepts ip port backends e)
        (elim (Bool-cases (any (is_pair ip port) e.jump_track)) [
          | inl old ↦ rw old (synced_rules backends)
          | inr un ↦
              rw
                (
                  un,
                  rules_of-append (chain_name ip port) (synced ip port backends e).sent
                      (jump_batches (chain_name ip port) hooks),
                  hooks-ne ip port,
                  append-nil (rules_of (chain_name ip port) (synced ip port backends e).sent),
                )
                (synced_rules backends)
        ])

  abbrev svc : Text
  svc = chain_name ip port

  abbrev gone : NftEngine
  gone = record (after e ((del_chain nat_table svc ∷ []) ∷ [])) {
    jump_track = retain_pairs ip port e.jump_track;
  }

  removed : remove_dnat k ip port e ≡ (gone, true)
  unfolding remove_dnat
  removed = rw (send_accepted k accepts (del_chain nat_table svc ∷ []) e)

  -- Where the kernel takes or ignores every batch, removing a service's address and adding it again
  -- sends one jump rule more from each of the two hooks, on top of those sent before.
  pub remove-add_dnat :
      (backends : List (ℕ × ℕ)) (h : Text)
      → (h ≡ codes "prerouting") ⊎ (h ≡ codes "output")
      → jumps
          (chain_name ip port)
          h
          (add_dnat k ip port backends (remove_dnat k ip port e).0).0.sent
        ≡ jumps (chain_name ip port) h e.sent + 1
  remove-add_dnat backends h m =
      rw
        (removed, add_dnat_accepted k accepts ip port backends gone, untracked ip port e.jump_track)
        (omega (
          arith,
          jumps-append svc h (synced ip port backends gone).sent (jump_batches svc hooks),
          jumps-append svc h gone.sent (
              (add_chain nat_table svc ∷ []) ∷ rule_batches svc (service_matches ip port) backends),
          jumps-append svc h e.sent ((del_chain nat_table svc ∷ []) ∷ []),
          no_jump svc h (add_chain nat_table svc) refl
              (rule_batches svc (service_matches ip port) backends),
          no_jump svc h (del_chain nat_table svc) refl [],
          jumps-rule_batches svc h svc (service_matches ip port) backends,
          jumps-jump_batches svc h m,
          none_left svc h,
        ))
