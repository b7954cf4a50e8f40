-- ===== src/Net/Nft/Jumps.antt =====
-- src/netmux/nftables.rs: how many jump rules lead to a service's chain.
pub mod Once
use z8s.Base.{
  ℕ, zero, suc, ◌+◌, ◌<◌, ◌≤◌, ◌≡◌, ◌≢◌, refl, sym, ap, ◌∙◌, Bool, true, false, ◌&&◌, none, some,
  List, [], ◌∷◌, ◌++◌, arith, any, if◌then◌else◌, Bool-cases, inl, inr, ◌^◌,
}
use z8s.Base.Text.{Text, codes, text_eq, text_eq_iff, text_eq_refl}
use z8s.Net.Nft.{
  Kernel, Batch, Message, Matches, NftEngine, add_rule, jump, add_chain, nat_table, dnat_rule,
  jump_rule, hooks, is_ok, send, add_backends, update_dnat_chain, add_jump_rules, chain_name,
  match_exprs, is_pair, Nft, then_run, return_ok, ◌>>◌,
}

-- Whether a message adds the rule of the hook `h` that jumps to `svc`.
abbrev pub is_jump : Text → Text → Message → Bool
is_jump svc h (add_rule table chain (jump target ∷ [])) =
    text_eq table nat_table && (text_eq chain h && text_eq target svc)
is_jump svc h _ = false

abbrev pub jumps_in : Text → Text → Batch → ℕ
jumps_in svc h [] = 0
jumps_in svc h (m ∷ ms) = (if is_jump svc h m then 1 else 0) + jumps_in svc h ms

-- The jump rules from `h` to `svc` among the batches.
unfoldable pub jumps : Text → Text → List Batch → ℕ
jumps svc h [] = 0
jumps svc h (b ∷ bs) = jumps_in svc h b + jumps svc h bs

pub jumps-append :
    (svc h : Text) (bs cs : List Batch) → jumps svc h (bs ++ cs) ≡ jumps svc h bs + jumps svc h cs
unfolding jumps
jumps-append svc h [] cs = omega arith
jumps-append svc h (b ∷ bs) cs = omega (arith, jumps-append svc h bs cs)

-- An operation that sends no jump to `svc` and leaves the tracks alone.
pub record Quiet (svc h : Text) (e e' : NftEngine) : Type 0 where
  pub same_jumps : jumps svc h e'.sent ≡ jumps svc h e.sent
  pub same_track : e'.jump_track ≡ e.jump_track

pub Quiet-trans :
    {svc h : Text} {d e f : NftEngine} → Quiet svc h d e → Quiet svc h e f → Quiet svc h d f
Quiet-trans p q = record {
  same_jumps = q.same_jumps ∙ p.same_jumps;
  same_track = q.same_track ∙ p.same_track;
}

pub Quiet-refl : (svc h : Text) (e : NftEngine) → Quiet svc h e e
Quiet-refl svc h e = record { same_jumps = refl; same_track = refl }

module _ (k : Kernel) (svc h : Text) where
  pub send-jumps :
      (b : Batch) (e : NftEngine)
      → jumps svc h (send k b e).0.sent ≡ jumps svc h e.sent + jumps_in svc h b
  unfolding send jumps
  send-jumps b e = omega (arith, jumps-append svc h e.sent (b ∷ []))

  pub send-Quiet : (b : Batch) (e : NftEngine) → jumps_in svc h b ≡ 0 → Quiet svc h e (send k b e).0
  unfolding send
  send-Quiet b e z = record { same_jumps = omega (arith, send-jumps b e, z); same_track = refl }

  -- One after the other, whether or not the first succeeds.
  pub >>-Quiet :
      (m n : Nft) (e : NftEngine)
      → Quiet svc h e (m e).0
      → ((d : NftEngine) → Quiet svc h d (n d).0)
      → Quiet svc h e ((m >> n) e).0
  >>-Quiet m n e p q = onward (m e) p
    where
      onward : (r : NftEngine × Bool) → Quiet svc h e r.0 → Quiet svc h e (then_run n r).0
      onward (d, true) p = Quiet-trans p (q d)
      onward (d, false) p = p

  pub add_backends-Quiet :
      (chain : Text) (ms : Matches) (backends : List (ℕ × ℕ)) (e : NftEngine)
      → Quiet svc h e (add_backends k chain ms backends e).0
  unfolding add_backends
  add_backends-Quiet chain ms [] e = Quiet-refl svc h e
  add_backends-Quiet chain ms ((ip, port) ∷ backends) e =
      >>-Quiet (send k (dnat_rule chain ms ip port ∷ [])) (add_backends k chain ms backends) e
        (send-Quiet (dnat_rule chain ms ip port ∷ []) e refl) (add_backends-Quiet chain ms backends)

  pub update_dnat_chain-Quiet :
      (chain : Text) (ms : Matches) (backends : List (ℕ × ℕ)) (e : NftEngine)
      → Quiet svc h e (update_dnat_chain k chain backends ms e).0
  unfolding update_dnat_chain
  update_dnat_chain-Quiet chain ms backends e =
      >>-Quiet (send k (add_chain nat_table chain ∷ [])) (add_backends k chain ms backends) e
        (send-Quiet (add_chain nat_table chain ∷ []) e refl) (add_backends-Quiet chain ms backends)

  -- A hook is not both.
  one_hook : text_eq (codes "prerouting") h && text_eq (codes "output") h ≡ false
  one_hook = first h
    where
      first : (h : Text) → text_eq (codes "prerouting") h && text_eq (codes "output") h ≡ false
      first h = ground (arith, text_eq_iff (codes "prerouting") h, text_eq_iff (codes "output") h)

  last : (r : NftEngine × Bool) → (then_run return_ok r).0 ≡ r.0
  last (d, true) = refl
  last (d, false) = refl

  onward :
      (b : Batch) (r : NftEngine × Bool)
      → jumps svc h (then_run (send k b >> return_ok) r).0.sent
        ≤ jumps svc h r.0.sent + jumps_in svc h b
  onward b (d, true) = rw (last (send k b d)) (omega (arith, send-jumps b d))
  onward b (d, false) = omega arith

  jump_pair :
      (chain : Text)
      → jumps_in svc h (jump_rule chain (codes "prerouting") ∷ [])
          + jumps_in svc h (jump_rule chain (codes "output") ∷ [])
        ≤ (if text_eq chain svc then 1 else 0)
  jump_pair chain = ground (arith, one_hook)

  pub add_jump_rules-jumps :
      (chain : Text) (e : NftEngine)
      → jumps svc h (add_jump_rules k chain hooks e).0.sent
        ≤ jumps svc h e.sent + (if text_eq chain svc then 1 else 0)
  unfolding add_jump_rules
  add_jump_rules-jumps chain e = omega (
    arith,
    onward (jump_rule chain (codes "output") ∷ [])
        (send k (jump_rule chain (codes "prerouting") ∷ []) e),
    send-jumps (jump_rule chain (codes "prerouting") ∷ []) e,
    jump_pair chain,
  )

  pub add_jump_rules-track :
      (chain : Text) (e : NftEngine) → (add_jump_rules k chain hooks e).0.jump_track ≡ e.jump_track
  unfolding add_jump_rules send
  add_jump_rules-track chain e = ground arith
