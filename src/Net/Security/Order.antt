-- ===== src/Net/Security/Order.antt =====
-- `apply_nsg` of src/netmux/mod.rs: the first rule that applies, in the order of the priorities.
use z8s.Base.{
  ℕ, ◌≤◌, ◌≡◌, refl, sym, ap, ◌∙◌, inl, inr, Bool, false, Option, none, some, List, [], ◌∷◌, arith,
  leb, if◌then◌else◌, Bool-cases, is_some, All,
}
use z8s.Net.Nft.{Kernel}
use z8s.Resource.{NsgRule}
use z8s.Net.Security.{place, sort_by_priority}
use z8s.Net.Security.Verdicts.{says, better, best}

-- Every rule's priority is at least `p`.
abbrev From : ℕ → List NsgRule → Type 0
From p rules = All (λ (r : NsgRule). p ≤ r.priority) rules

abbrev IsSorted : List NsgRule → Type 0
IsSorted [] = Unit {0}
IsSorted (r ∷ rules) = From r.priority rules × IsSorted rules

place-From :
    (p : ℕ) (r : NsgRule) (rules : List NsgRule)
    → p ≤ r.priority
    → From p rules
    → From p (place r rules)
place-From p r [] h a = (h, tt)
place-From p r (t ∷ rules) h (ht, a) = elim (Bool-cases (leb r.priority t.priority)) [
  | inl before ↦ rw before (h, (ht, a))
  | inr behind ↦ rw behind (ht, place-From p r rules h a)
]

From-mono : (p q : ℕ) (rules : List NsgRule) → p ≤ q → From q rules → From p rules
From-mono p q [] h a = tt
From-mono p q (t ∷ rules) h (ht, a) = (omega arith, From-mono p q rules h a)

place-IsSorted : (r : NsgRule) (rules : List NsgRule) → IsSorted rules → IsSorted (place r rules)
place-IsSorted r [] h = (tt, tt)
place-IsSorted r (t ∷ rules) (a, h) = elim (Bool-cases (leb r.priority t.priority)) [
  | inl before ↦
      let le : r.priority ≤ t.priority = ground (arith, before) in
      rw before ((le, From-mono r.priority t.priority rules le a), (a, h))
  | inr behind ↦
      rw behind (place-From t.priority r rules (ground (arith, behind)) a, place-IsSorted r rules h)
]

pub sort-IsSorted : (rules : List NsgRule) → IsSorted (sort_by_priority rules)
unfolding sort_by_priority
sort-IsSorted [] = tt
sort-IsSorted (r ∷ rules) = place-IsSorted r (sort_by_priority rules) (sort-IsSorted rules)

module _ (k : Kernel) (covers : ℕ × ℕ → ℕ → Bool) (s d : ℕ) where
  abbrev lead_by : NsgRule → Option NsgRule → Option NsgRule
  lead_by r rest = if is_some (says k covers s d r) then some r else rest

  -- The first rule of a list that applies.
  abbrev pub lead : List NsgRule → Option NsgRule
  lead [] = none
  lead (r ∷ rules) = lead_by r (lead rules)

  lead-From :
      (p : ℕ) (rules : List NsgRule) (t : NsgRule)
      → From p rules
      → lead rules ≡ some t
      → p ≤ t.priority
  lead-From p [] t a e = absurd (ground arith)
  lead-From p (r ∷ rules) t (h, a) e = elim (Bool-cases (is_some (says k covers s d r))) [
    | inl here ↦
        let e' : some r ≡ some t = rw here at e in
        ground (arith, h, e', λ (q : r ≡ t). ap (λ u. u.priority) q)
    | inr not_here ↦ lead-From p rules t a (rw not_here at e)
  ]

  better_front :
      (r : NsgRule) (o : Option NsgRule)
      → ((t : NsgRule) → o ≡ some t → r.priority ≤ t.priority)
      → better k covers s d r o ≡ lead_by r o
  better_front r none h = refl
  better_front r (some t) h = ground (arith, h t refl)

  better_behind :
      (r t : NsgRule) (o : Option NsgRule)
      → leb r.priority t.priority ≡ false
      → lead_by t (better k covers s d r o) ≡ better k covers s d r (lead_by t o)
  better_behind r t o h = elim (Bool-cases (is_some (says k covers s d t))) [
    | inl here ↦ rw here (ground (arith, h))
    | inr not_here ↦ rw not_here
  ]

  lead-place :
      (r : NsgRule) (rules : List NsgRule)
      → IsSorted rules
      → lead (place r rules) ≡ better k covers s d r (lead rules)
  lead-place r [] h = refl
  lead-place r (t ∷ rules) (a, h) = elim (Bool-cases (leb r.priority t.priority)) [
    | inl before ↦
        let le : r.priority ≤ t.priority = ground (arith, before) in
        rw before (
          sym (
            better_front r (lead (t ∷ rules)) (λ u e.
              lead-From r.priority (t ∷ rules) u (le, From-mono r.priority t.priority rules le a)
                e)))
    | inr behind ↦ rw (behind, lead-place r rules h) (better_behind r t (lead rules) behind)
  ]

  -- After sorting, the first rule that applies is the best one.
  pub lead-sort : (rules : List NsgRule) → lead (sort_by_priority rules) ≡ best k covers s d rules
  unfolding sort_by_priority best
  lead-sort [] = refl
  lead-sort (r ∷ rules) =
      lead-place r (sort_by_priority rules) (sort-IsSorted rules)
      ∙ ap (better k covers s d r) (lead-sort rules)
