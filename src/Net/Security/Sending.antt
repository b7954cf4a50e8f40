-- ===== src/Net/Security/Sending.antt =====
-- `apply_nsg` of src/netmux/mod.rs: what it sends where the networks can be read.
use z8s.Base.{ℕ, ◌≡◌, inl, inr, Bool, true, false, List, [], ◌∷◌, Bool-cases, All}
use mathlib.Core.List.{append-nil}
use z8s.Base.Text.{Text, codes, text_eq}
use z8s.Net.Nft.{
  Kernel, Nft, NftEngine, Batch, Expr, add_chain, del_chain, accept, filter_table, nsg_rules,
  forward_rule, add_forward_allow, add_forward_deny, reset_nsg_rules,
}
use z8s.Net.Nft.Sent.{Accepts, after, after-after, send_accepted}
use z8s.Resource.{NsgRule}
use z8s.Net.Security.{each_dst, each_pair, add_nsg_rule, add_nsg_rules}
use z8s.Net.Security.Verdicts.{
  Parses, IsReadable, pair_batch, dst_batches, pair_batches, nsg_batches, all_batches,
}

abbrev pub expr_of : Bool → Expr
expr_of true = accept
expr_of false = Expr.drop

module _ (k : Kernel) (covers : ℕ × ℕ → ℕ → Bool) (accepts : Accepts k) where
  abbrev pub add_of : Bool → Text → Text → Nft
  add_of b src dst = forward_rule k src dst (expr_of b)

  pub forward_accepted :
      (b : Bool) (src dst : Text) (e : NftEngine)
      → Parses k covers src
      → Parses k covers dst
      → add_of b src dst e ≡ (after e (pair_batch k covers (expr_of b) src dst ∷ []), true)
  forward_accepted b src dst e ps pd =
      rw (ps, pd) (send_accepted k accepts (pair_batch k covers (expr_of b) src dst) e)

  dst_accepted :
      (b : Bool) (src : Text) (dsts : List Text) (e : NftEngine)
      → Parses k covers src
      → All (Parses k covers) dsts
      → each_dst (add_of b) src dsts e ≡ (after e (dst_batches k covers (expr_of b) src dsts), true)
  dst_accepted b src [] e ps h = rw (append-nil e.sent)
  dst_accepted b src (dst ∷ dsts) e ps (pd, h) =
      let one = pair_batch k covers (expr_of b) src dst in
      rw (
        forward_accepted b src dst e ps pd,
        dst_accepted b src dsts (after e (one ∷ [])) ps h,
        after-after e (one ∷ []) (dst_batches k covers (expr_of b) src dsts),
      )

  pair_accepted :
      (b : Bool) (srcs dsts : List Text) (e : NftEngine)
      → All (Parses k covers) srcs
      → All (Parses k covers) dsts
      → each_pair (add_of b) srcs dsts e
        ≡ (after e (pair_batches k covers (expr_of b) srcs dsts), true)
  pair_accepted b [] dsts e h h' = rw (append-nil e.sent)
  pair_accepted b (src ∷ srcs) dsts e (ps, h) h' =
      let bs = dst_batches k covers (expr_of b) src dsts in
      rw (
        dst_accepted b src dsts e ps h',
        pair_accepted b srcs dsts (after e bs) h h',
        after-after e bs (pair_batches k covers (expr_of b) srcs dsts),
      )

  pub rule_accepted :
      (r : NsgRule) (e : NftEngine)
      → IsReadable k covers r
      → add_nsg_rule k r e ≡ (after e (nsg_batches k covers r), true)
  unfolding add_nsg_rule add_forward_deny add_forward_allow
  rule_accepted r e h = elim (Bool-cases (text_eq r.action (codes "deny"))) [
    | inl deny ↦ rw deny (pair_accepted false r.src_cidrs r.dst_cidrs e h.0 h.1)
    | inr other ↦ elim (Bool-cases (text_eq r.action (codes "allow"))) [
      | inl allow ↦ rw (other, allow) (pair_accepted true r.src_cidrs r.dst_cidrs e h.0 h.1)
      | inr unknown ↦ rw (other, unknown, append-nil e.sent)
    ]
  ]

  pub rules_accepted :
      (rules : List NsgRule) (e : NftEngine)
      → All (IsReadable k covers) rules
      → add_nsg_rules k rules e ≡ (after e (all_batches k covers rules), true)
  unfolding add_nsg_rules
  rules_accepted [] e h = rw (append-nil e.sent)
  rules_accepted (r ∷ rules) e (hr, h) =
      let bs = nsg_batches k covers r in
      rw (
        rule_accepted r e hr,
        rules_accepted rules (after e bs) h,
        after-after e bs (all_batches k covers rules),
      )

  abbrev pub reset_batches : List Batch
  reset_batches =
      (del_chain filter_table nsg_rules ∷ []) ∷ (add_chain filter_table nsg_rules ∷ []) ∷ []

  pub reset_accepted : (e : NftEngine) → reset_nsg_rules k e ≡ (after e reset_batches, true)
  unfolding reset_nsg_rules
  reset_accepted e =
      let one = del_chain filter_table nsg_rules ∷ [] in
      rw (
        send_accepted k accepts one e,
        send_accepted k accepts (add_chain filter_table nsg_rules ∷ []) (after e (one ∷ [])),
        after-after e (one ∷ []) ((add_chain filter_table nsg_rules ∷ []) ∷ []),
      )
