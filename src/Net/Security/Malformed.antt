-- ===== src/Net/Security/Malformed.antt =====
-- `apply_nsg` of src/netmux/mod.rs where a network cannot be read.
use z8s.Base.{
  ℕ, ◌≡◌, refl, sym, ap, ◌∙◌, inl, inr, Bool, true, false, none, List, [], ◌∷◌, ◌++◌, if◌then◌else◌,
  All, ◌⊎◌, map, Option-cases,
}
use mathlib.Core.List.{append-nil, append_assoc}
use z8s.Base.Text.{Text, codes, text_eq}
use z8s.Net.Nft.{
  Kernel, Nft, NftEngine, Batch, add_chain, del_chain, filter_table, nsg_rules, ◌>>◌, then_run,
  return_ok, add_forward_allow, add_forward_deny,
}
use z8s.Net.Nft.Sent.{Accepts, after, after-after}
use z8s.Resource.{Nsg, NsgRule}
use z8s.Net.Security.{sort_by_priority, each_dst, each_pair, add_nsg_rule, add_nsg_rules, apply_nsg}
use z8s.Net.Security.Verdicts.{Parses, IsReadable, pair_batch, nsg_batches, all_batches}
use z8s.Net.Security.Sending.{
  expr_of, add_of, forward_accepted, rule_accepted, reset_batches, reset_accepted,
}

then_run_alike :
    (m n : Nft)
    → ((d : NftEngine) → m d ≡ n d)
    → (r : NftEngine × Bool) → then_run m r ≡ then_run n r
then_run_alike m n h (d, true) = h d
then_run_alike m n h (d, false) = refl

then_run_assoc :
    (m n : Nft) (r : NftEngine × Bool) → then_run (m >> n) r ≡ then_run n (then_run m r)
then_run_assoc m n (d, true) = refl
then_run_assoc m n (d, false) = refl

-- The networks of a rule, source by source.
abbrev pub pairs : List Text → List Text → List (Text × Text)
pairs [] dsts = []
pairs (src ∷ srcs) dsts = map (λ dst. (src, dst)) dsts ++ pairs srcs dsts

-- Both can be read.
abbrev pub IsPair : Kernel → (ℕ × ℕ → ℕ → Bool) → Text × Text → Type 0
IsPair k covers q = Parses k covers q.0 × Parses k covers q.1

module _ (k : Kernel) (covers : ℕ × ℕ → ℕ → Bool) (accepts : Accepts k) where
  cut_rules :
      (bad : NsgRule) (rest good : List NsgRule) (bs : List Batch) (e : NftEngine)
      → All (IsReadable k covers) good
      → ((d : NftEngine) → add_nsg_rule k bad d ≡ (after d bs, false))
      → add_nsg_rules k (good ++ (bad ∷ rest)) e
        ≡ (after e (all_batches k covers good ++ bs), false)
  unfolding add_nsg_rules
  cut_rules bad rest [] bs e h f = rw (f e) refl
  cut_rules bad rest (r ∷ good) bs e (hr, h) f =
      let cs = nsg_batches k covers r in
      rw
        (
          rule_accepted k covers accepts r e hr,
          cut_rules bad rest good bs (after e cs) h f,
          after-after e cs (all_batches k covers good ++ bs),
          append_assoc cs (all_batches k covers good) bs,
        )
        refl

  run_pairs : Bool → List (Text × Text) → Nft
  run_pairs b [] = return_ok
  run_pairs b (q ∷ qs) = add_of k covers accepts b q.0 q.1 >> run_pairs b qs

  run_pairs-append :
      (b : Bool) (qs rs : List (Text × Text)) (e : NftEngine)
      → run_pairs b (qs ++ rs) e ≡ (run_pairs b qs >> run_pairs b rs) e
  unfolding run_pairs
  run_pairs-append b [] rs e = refl
  run_pairs-append b (q ∷ qs) rs e =
      let r = add_of k covers accepts b q.0 q.1 e in
      then_run_alike (run_pairs b (qs ++ rs)) (run_pairs b qs >> run_pairs b rs)
        (run_pairs-append b qs rs) r
      ∙ then_run_assoc (run_pairs b qs) (run_pairs b rs) r

  dst-run_pairs :
      (b : Bool) (src : Text) (dsts : List Text)
      → each_dst (add_of k covers accepts b) src dsts ≡ run_pairs b (map (λ dst. (src, dst)) dsts)
  unfolding run_pairs
  dst-run_pairs b src [] = refl
  dst-run_pairs b src (dst ∷ dsts) =
      ap (λ (n : Nft). add_of k covers accepts b src dst >> n) (dst-run_pairs b src dsts)

  pair-run_pairs :
      (b : Bool) (srcs dsts : List Text) (e : NftEngine)
      → each_pair (add_of k covers accepts b) srcs dsts e ≡ run_pairs b (pairs srcs dsts) e
  pair-run_pairs b [] dsts e = unfold run_pairs in refl
  pair-run_pairs b (src ∷ srcs) dsts e =
      rw (dst-run_pairs b src dsts) (
        then_run_alike (each_pair (add_of k covers accepts b) srcs dsts)
          (run_pairs b (pairs srcs dsts)) (pair-run_pairs b srcs dsts)
          (run_pairs b (map (λ dst. (src, dst)) dsts) e))
      ∙ sym (run_pairs-append b (map (λ dst. (src, dst)) dsts) (pairs srcs dsts) e)

  unreadable :
      (b : Bool) (src dst : Text) (e : NftEngine)
      → (k.parse_network src ≡ none) ⊎ (k.parse_network dst ≡ none)
      → add_of k covers accepts b src dst e ≡ (e, false)
  unreadable b src dst e (inl h) = rw h refl
  unreadable b src dst e (inr h) = elim (Option-cases (k.parse_network src)) [
    | inl g ↦ rw g refl
    | inr (n, g) ↦ rw (g, h) refl
  ]

  cut_pairs :
      (b : Bool) (before behind : List (Text × Text)) (src dst : Text) (e : NftEngine)
      → All (IsPair k covers) before
      → (k.parse_network src ≡ none) ⊎ (k.parse_network dst ≡ none)
      → run_pairs b (before ++ ((src, dst) ∷ behind)) e ≡ (
        after e (map (λ (q : Text × Text). pair_batch k covers (expr_of b) q.0 q.1) before),
        false,
      )
  unfolding run_pairs
  cut_pairs b [] behind src dst e h g = rw (unreadable b src dst e g, append-nil e.sent) refl
  cut_pairs b (q ∷ before) behind src dst e ((ps, pd), h) g =
      let one = pair_batch k covers (expr_of b) q.0 q.1 in
      rw
        (
          forward_accepted k covers accepts b q.0 q.1 e ps pd,
          cut_pairs b before behind src dst (after e (one ∷ [])) h g,
          after-after e (one ∷ [])
              (map (λ (q : Text × Text). pair_batch k covers (expr_of b) q.0 q.1) before),
        )
        refl

  bad_rule :
      (bad : NsgRule) (b : Bool) (e : NftEngine)
      → bad.action ≡ (if b then codes "allow" else codes "deny")
      → add_nsg_rule k bad e ≡ each_pair (add_of k covers accepts b) bad.src_cidrs bad.dst_cidrs e
  unfolding add_nsg_rule add_forward_deny add_forward_allow text_eq
  bad_rule bad true e h = rw h refl
  bad_rule bad false e h = rw h refl

  -- Where the kernel takes every batch, a security group of which, in the order of the priorities,
  -- one rule of a known action has a source and a destination of which one cannot be read fails:
  -- what is sent ends with the readable rules in front of it and the pairs of networks in front of
  -- that pair, source by source. Neither what is left of the rule nor a later rule nor the denial
  -- of everything else is sent.
  pub apply_nsg_malformed :
      (nsg : Nsg) (e : NftEngine) (good rest : List NsgRule) (bad : NsgRule) (b : Bool)
      (before behind : List (Text × Text)) (src dst : Text)
      → sort_by_priority nsg.spec.rules ≡ good ++ (bad ∷ rest)
      → All (IsReadable k covers) good
      → bad.action ≡ (if b then codes "allow" else codes "deny")
      → pairs bad.src_cidrs bad.dst_cidrs ≡ before ++ ((src, dst) ∷ behind)
      → All (IsPair k covers) before
      → (k.parse_network src ≡ none) ⊎ (k.parse_network dst ≡ none)
      → apply_nsg k nsg e ≡ (
        after e (
            (del_chain filter_table nsg_rules ∷ [])
            ∷ (add_chain filter_table nsg_rules ∷ [])
            ∷ (all_batches k covers good
                ++ map (λ (q : Text × Text). pair_batch k covers (expr_of b) q.0 q.1) before)),
        false,
      )
  unfolding apply_nsg
  apply_nsg_malformed nsg e good rest bad b before behind src dst es h action split hp unread =
      let bs = map (λ (q : Text × Text). pair_batch k covers (expr_of b) q.0 q.1) before in
      let cut : (d : NftEngine) → add_nsg_rule k bad d ≡ (after d bs, false) = λ d.
        bad_rule bad b d action
        ∙ pair-run_pairs b bad.src_cidrs bad.dst_cidrs d
        ∙ ap (λ qs. run_pairs b qs d) split
        ∙ cut_pairs b before behind src dst d hp unread in
      rw
        (
          reset_accepted k covers accepts e,
          es,
          cut_rules bad rest good bs (after e (reset_batches k covers accepts)) h cut,
        )
        (ap (λ x. (x, false))
          (after-after e (reset_batches k covers accepts) (all_batches k covers good ++ bs)))
