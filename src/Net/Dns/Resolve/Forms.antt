-- ===== src/Net/Dns/Resolve/Forms.antt =====
-- src/netmux/dns.rs: what `parse_service_name` makes of the names that its comments list.
use z8s.Base.{
  suc, ◌-◌, ◌<◌, ◌≡◌, refl, sym, ap, ◌≢◌, inl, inr, none, some, List, [], ◌∷◌, ◌++◌, arith,
  Bool-cases, length, length-append,
}
use z8s.Base.{get_elem?-append_length, drop-append_suc}
use z8s.Base.Text.{Text, codes, text_eq, text_eq_iff, text_eq_refl, texts_eq, texts_eq_refl}
use z8s.Base.Text.Split.{
  Lacks, split, join, split-append, split-Lacks, split-both, split_one, split_nonempty,
}
use z8s.Net.Dns.Resolve.{service_of, parse_service_name}

-- A name below the domain, by the labels in front of it.
below_1 : (a : Text) (ds : List Text) → 0 < length ds → service_of ds (a ∷ ds) ≡ some (a, none)
below_1 a ds h =
    let e : suc (length ds) - length ds ≡ 1 = omega arith in rw e (ground (arith, texts_eq_refl ds))

below_2 :
    (a b : Text) (ds : List Text) → 0 < length ds → service_of ds (a ∷ b ∷ ds) ≡ some (a, none)
below_2 a b ds h =
    let e : suc (suc (length ds)) - length ds ≡ 2 = omega arith in
    rw e (ground (arith, texts_eq_refl ds))

below_3 :
    (a b : Text) (ds : List Text)
    → 0 < length ds
    → service_of ds (a ∷ b ∷ codes "svc" ∷ ds) ≡ some (a, some b)
unfolding join
below_3 a b ds h =
    let e : suc (suc (suc (length ds))) - length ds ≡ 3 = omega arith in
    rw e (ground (arith, texts_eq_refl ds, text_eq_refl (codes "svc")))

bare : (a : Text) (ds : List Text) → 0 < length ds → service_of ds (a ∷ []) ≡ some (a, none)
bare a ds h = ground arith

-- Two labels alone, or below a domain that is not `svc` and is not the second of them.
two_labels :
    (a b : Text) (ds : List Text)
    → 0 < length ds
    → ds ≢ b ∷ []
    → service_of ds (a ∷ b ∷ []) ≡ some (a, some b)
unfolding texts_eq
two_labels a b [] h ne = absurd (omega arith)
two_labels a b (d ∷ []) h ne = elim (Bool-cases (text_eq b d)) [
  | inl same ↦ absurd (ne (ap (λ (t : Text). t ∷ []) (sym ((text_eq_iff b d).0 same))))
  | inr other ↦ rw other refl
]
two_labels a b (d ∷ e ∷ ds) h ne = ground arith

-- Any labels below the domain, of which the last is not `svc`: all but the first are ignored.
far_below :
    (a : Text) (middle : List Text) (x : Text) (ds : List Text)
    → 0 < length ds
    → x ≢ codes "svc"
    → service_of ds (a ∷ (middle ++ (x ∷ ds))) ≡ some (a, none)
far_below a middle x ds h ne =
    let e : suc (length (middle ++ (x ∷ ds))) - length ds ≡ suc (suc (length middle)) =
      omega (arith, length-append middle (x ∷ ds)) in
    let f : suc (suc (length middle)) - 1 ≡ suc (length middle) = omega arith in
    rw (e, drop-append_suc middle x ds, f, get_elem?-append_length middle x ds)
      (ground (arith, texts_eq_refl ds, text_eq_iff x (codes "svc"), length-append middle (x ∷ ds)))

-- The full name of a service.
pub full_name :
    (domain a b : Text)
    → Lacks b'.' a
    → Lacks b'.' b
    → parse_service_name domain (a ++ (b'.' ∷ (b ++ (b'.' ∷ (codes "svc" ++ (b'.' ∷ domain))))))
      ≡ some (a, some b)
unfolding parse_service_name
full_name domain a b ha hb =
    let svc : Lacks b'.' (codes "svc") = omega arith in
    rw
      (
        split-append b'.' a _ ha,
        split-append b'.' b _ hb,
        split-append b'.' (codes "svc") domain svc,
      )
      (below_3 a b (split b'.' domain) (split_nonempty b'.' domain))

-- The names of a service below the domain and without it, if neither the service's name `a` nor the
-- namespace `b` has a dot. A namespace alone must not be the whole domain. Every other name below
-- the domain is taken for its first label, in any namespace: so `web.prod.cluster.local`.
pub parse_service_name_lem :
    (domain a b middle x : Text)
    → Lacks b'.' a
    → Lacks b'.' b
    → Lacks b'.' x
    → b ≢ domain
    → x ≢ codes "svc"
    → (parse_service_name domain (a ++ (b'.' ∷ (b ++ (b'.' ∷ (codes "svc" ++ (b'.' ∷ domain))))))
        ≡ some (a, some b))
      × (parse_service_name domain (a ++ (b'.' ∷ (codes "svc" ++ (b'.' ∷ domain))))
          ≡ some (a, none))
      × (parse_service_name domain (a ++ (b'.' ∷ domain)) ≡ some (a, none))
      × (parse_service_name domain a ≡ some (a, none))
      × (parse_service_name domain (a ++ (b'.' ∷ b)) ≡ some (a, some b))
      × (parse_service_name domain (a ++ (b'.' ∷ (x ++ (b'.' ∷ domain)))) ≡ some (a, none))
      × (parse_service_name domain (a ++ (b'.' ∷ (middle ++ (b'.' ∷ (x ++ (b'.' ∷ domain))))))
          ≡ some (a, none))
unfolding parse_service_name
parse_service_name_lem domain a b middle x ha hb hx nb nx =
    let ds : List Text = split b'.' domain in
    let n = split_nonempty b'.' domain in
    let svc : Lacks b'.' (codes "svc") = omega arith in
    (
      full_name domain a b ha hb,
      rw (split-append b'.' a _ ha, split-append b'.' (codes "svc") domain svc)
          (below_2 a (codes "svc") ds n),
      rw (split-append b'.' a domain ha) (below_1 a ds n),
      rw (split-Lacks b'.' a ha) (bare a ds n),
      rw (split-append b'.' a b ha, split-Lacks b'.' b hb)
          (two_labels a b ds n (λ e. nb (sym (split_one b'.' domain b e)))),
      rw (split-append b'.' a _ ha, split-append b'.' x domain hx) (far_below a [] x ds n nx),
      rw
          (
            split-append b'.' a _ ha,
            split-both b'.' middle (x ++ (b'.' ∷ domain)),
            split-append b'.' x domain hx,
          )
          (far_below a (split b'.' middle) x ds n nx),
    )
