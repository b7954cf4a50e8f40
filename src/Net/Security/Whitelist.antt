-- ===== src/Net/Security/Whitelist.antt =====
-- `apply_nsg` of src/netmux/mod.rs as a whitelist: what it sends, and which packets pass.
use z8s.Base.{
  ℕ, ◌≡◌, refl, sym, ap, ◌∙◌, inl, inr, Bool, true, false, ◌&&◌, Option, none, some, List, [], ◌∷◌,
  ◌++◌, arith, leb, if◌then◌else◌, Bool-cases, unwrap_or, is_some, any, All,
}
use z8s.Base.Text.{Text, codes, text_eq}
use z8s.Net.Nft.{
  Kernel, Nft, NftEngine, Batch, Expr, add_chain, del_chain, filter_table, nsg_rules,
  add_forward_deny,
}
use z8s.Net.Nft.Sent.{Accepts, after, after-after}
use z8s.Resource.{Nsg, NsgRule}
use z8s.Net.Security.{place, sort_by_priority, any_network, apply_nsg}
use z8s.Net.Security.Verdicts.{
  net, Parses, IsReadable, pair_batch, dst_batches, pair_batches, nsg_batches, all_batches, verdict,
  or_else, or_else_assoc, says, best, said, batch_decides,
}
use z8s.Net.Security.Order.{lead, lead-sort}
use z8s.Net.Security.Ports.{any_ports, apply_nsg-any_ports}
use z8s.Net.Security.Sending.{
  expr_of, forward_accepted, rules_accepted, reset_batches, reset_accepted,
}

module _ (k : Kernel) (covers : ℕ × ℕ → ℕ → Bool) (s d : ℕ) where
  verdict-append :
      (bs cs : List Batch)
      → verdict k covers s d (bs ++ cs)
        ≡ or_else (verdict k covers s d bs) (verdict k covers s d cs)
  unfolding verdict
  verdict-append [] cs = refl
  verdict-append (b ∷ bs) cs = rw (verdict-append bs cs) (
      sym (
        or_else_assoc (batch_decides k covers s d b) (verdict k covers s d bs)
          (verdict k covers s d cs)))

  -- A list of pairs of networks decides if one of the pairs covers the packet.
  dst-verdict :
      (b : Bool) (src : Text) (dsts : List Text)
      → verdict k covers s d (dst_batches k covers (expr_of b) src dsts) ≡ (
          if covers (net k covers src) s && any (λ c. covers (net k covers c) d) dsts
          then some b
          else none)
  unfolding verdict
  dst-verdict true src [] = ground arith
  dst-verdict false src [] = ground arith
  dst-verdict true src (dst ∷ dsts) = ground (arith, dst-verdict true src dsts)
  dst-verdict false src (dst ∷ dsts) = ground (arith, dst-verdict false src dsts)

  pair-verdict :
      (b : Bool) (srcs dsts : List Text)
      → verdict k covers s d (pair_batches k covers (expr_of b) srcs dsts) ≡ (
          if any (λ c. covers (net k covers c) s) srcs && any (λ c. covers (net k covers c) d) dsts
          then some b
          else none)
  pair-verdict b [] dsts = unfold verdict in ground arith
  pair-verdict b (src ∷ srcs) dsts =
      rw
        (
          verdict-append (dst_batches k covers (expr_of b) src dsts)
              (pair_batches k covers (expr_of b) srcs dsts),
          dst-verdict b src dsts,
          pair-verdict b srcs dsts,
        )
        (ground arith)

  nsg-verdict : (r : NsgRule) → verdict k covers s d (nsg_batches k covers r) ≡ says k covers s d r
  nsg-verdict r = elim (Bool-cases (text_eq r.action (codes "deny"))) [
    | inl deny ↦ rw deny (pair-verdict false r.src_cidrs r.dst_cidrs)
    | inr other ↦ elim (Bool-cases (text_eq r.action (codes "allow"))) [
      | inl allow ↦ rw (other, allow) (pair-verdict true r.src_cidrs r.dst_cidrs)
      | inr unknown ↦ rw (other, unknown) (unfold verdict in ground arith)
    ]
  ]

  led :
      (o : Option Bool) (rest : Option NsgRule) (r : NsgRule)
      → o ≡ says k covers s d r
      → or_else o (said k covers s d rest)
        ≡ said k covers s d (if is_some (says k covers s d r) then some r else rest)
  led none rest r e = rw (← e)
  led (some v) rest r e = rw (← e) e

  all-verdict :
      (rules : List NsgRule)
      → verdict k covers s d (all_batches k covers rules)
        ≡ said k covers s d (lead k covers s d rules)
  all-verdict [] = unfold verdict in refl
  all-verdict (r ∷ rules) =
      rw (verdict-append (nsg_batches k covers r) (all_batches k covers rules), all-verdict rules)
        (led (verdict k covers s d (nsg_batches k covers r)) (lead k covers s d rules) r
          (nsg-verdict r))

or_deny : (o : Option Bool) → or_else o (some false) ≡ some (unwrap_or o false)
or_deny none = refl
or_deny (some v) = refl

place-All :
    (P : NsgRule → Type 0) (r : NsgRule) (rules : List NsgRule)
    → P r
    → All P rules
    → All P (place r rules)
place-All P r [] h a = (h, tt)
place-All P r (t ∷ rules) h (ht, a) = elim (Bool-cases (leb r.priority t.priority)) [
  | inl before ↦ rw before (h, (ht, a))
  | inr behind ↦ rw behind (ht, place-All P r rules h a)
]

sort-All :
    (P : NsgRule → Type 0) (rules : List NsgRule) → All P rules → All P (sort_by_priority rules)
unfolding sort_by_priority
sort-All P [] a = tt
sort-All P (r ∷ rules) (h, a) = place-All P r (sort_by_priority rules) h (sort-All P rules a)

module _ (k : Kernel) (covers : ℕ × ℕ → ℕ → Bool) (accepts : Accepts k) where
  default_denies :
      (s d : ℕ)
      → ((a : ℕ) → covers (net k covers any_network) a ≡ true)
      → verdict k covers s d (pair_batch k covers Expr.drop any_network any_network ∷ [])
        ≡ some false
  unfolding verdict
  default_denies s d h = rw (h s, h d)

  -- Where the kernel takes every batch and all networks can be read, applying a security group
  -- succeeds and sends the deletion of the chain, the chain, and then rules that decide a packet by
  -- its source and destination alone: the first that applies says what, of the group's rules whose
  -- networks cover both, the one with the least priority says, the first of equals, and where there
  -- is none, the packet is dropped. The ports, the protocols and the virtual networks that the
  -- group names make no difference: a rule for one port opens or closes all of them. Which network
  -- covers an address is the kernel's matter; 0.0.0.0/0 is to cover all.
  pub apply_nsg_whitelist :
      (nsg : Nsg) (e : NftEngine)
      → All (IsReadable k covers) nsg.spec.rules
      → Parses k covers any_network
      → ((a : ℕ) → covers (net k covers any_network) a ≡ true)
      → (fresh : List Batch) × (apply_nsg k nsg e ≡ (
        after e (
            (del_chain filter_table nsg_rules ∷ [])
            ∷ (add_chain filter_table nsg_rules ∷ [])
            ∷ fresh),
        true,
      ))
        × ((s d : ℕ)
            → verdict k covers s d fresh
              ≡ some (unwrap_or (said k covers s d (best k covers s d nsg.spec.rules)) false))
        × (apply_nsg k nsg e ≡ apply_nsg k (any_ports nsg) e)
  unfolding apply_nsg add_forward_deny
  apply_nsg_whitelist nsg e h ha all_of =
      let rules = sort_by_priority nsg.spec.rules in
      let bs = all_batches k covers rules in
      let last : Batch = pair_batch k covers Expr.drop any_network any_network in
      (
        bs ++ (last ∷ []),
        rw
            (
              reset_accepted k covers accepts e,
              rules_accepted k covers accepts rules (after e (reset_batches k covers accepts))
                  (sort-All (IsReadable k covers) nsg.spec.rules h),
              forward_accepted k covers accepts false any_network any_network
                  (after (after e (reset_batches k covers accepts)) bs) ha ha,
            )
            (ap (λ x. (x, true))
              (ap (λ x. after x (last ∷ [])) (after-after e (reset_batches k covers accepts) bs)
                ∙ after-after e ((reset_batches k covers accepts) ++ bs) (last ∷ []))),
        λ s d.
            rw
              (
                verdict-append k covers s d bs (last ∷ []),
                all-verdict k covers s d rules,
                lead-sort k covers s d nsg.spec.rules,
                default_denies s d all_of,
              )
              (or_deny (said k covers s d (best k covers s d nsg.spec.rules))),
        ap (λ (n : Nft). n e) (apply_nsg-any_ports k nsg),
      )
