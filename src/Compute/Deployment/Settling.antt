-- ===== src/Compute/Deployment/Settling.antt =====
-- src/components/compute/deployment.rs: reconciling a deployment reaches the number of replicas.
use z8s.Base.{
  ℕ, zero, suc, ◌-◌, ◌≤◌, ◌≡◌, refl, sym, ap, ◌∙◌, ◌⊎◌, inl, inr, true, Option, none, some, List,
  [], ◌∷◌, ◌++◌, arith, unwrap_or, length, length-append, length-take, take, take-append_length,
}
use z8s.Base.Text.{Text, codes}
use z8s.Base.Int.{pos}
use mathlib.Core.List.{append-nil}
use z8s.Resource.{Deployment, DeploymentSpec, deployment}
use z8s.Resource.Store.{ResourceStore, get_by_kind}
use z8s.Resource.Store.Laws.{IsKeyed}
use z8s.Compute.Deployment.{
  create_pods, reconcile, reconcile_spec, reconcile_impl, remove_pods, reversed, as_usize, matching,
  is_match,
}
use z8s.Compute.Deployment.Pods.{IsMap}
use z8s.Compute.Deployment.Counting.{picked, matching-picked}
use z8s.Compute.Deployment.Growth.{labels_of, AreUnused, create, grows}
use z8s.Compute.Deployment.Excess.{AreDistinct, withouts, keep_first}
use z8s.Compute.Deployment.Finding.{pod_names, picked-AreDistinct}
use z8s.Compute.Deployment.Shrinking.{remove_pods-picked}

take_all : (k : ℕ) (xs : List Text) → length xs ≤ k → take k xs ≡ xs
take_all zero [] h = refl
take_all zero (x ∷ xs) h = absurd (omega (arith, h))
take_all (suc k) [] h = refl
take_all (suc k) (x ∷ xs) h = ap (λ l. x ∷ l) (take_all k xs (omega (arith, h)))

few_or_many : (m n : ℕ) → (m ≤ n) ⊎ (n ≤ m)
few_or_many m n = ground arith

module _ (deploy : Deployment) (spec : DeploymentSpec) where
  abbrev pub name_of : Text
  name_of = unwrap_or deploy.metadata.name (codes "unknown")

  abbrev pub namespace_of : Text
  namespace_of = unwrap_or deploy.metadata.namespace (codes "default")

  abbrev pub replicas_of : ℕ
  replicas_of = as_usize (unwrap_or spec.replicas (pos 1))

  -- The pods of the deployment in a store.
  abbrev pub counted : ResourceStore → List Text
  counted s = matching name_of namespace_of (labels_of spec) (get_by_kind (codes "Pod") s)

  counted-picked :
      (s : ResourceStore) → counted s ≡ picked (is_match name_of namespace_of (labels_of spec)) s
  counted-picked s = matching-picked name_of namespace_of (labels_of spec) s

  module _ (now : ℕ) (starts : Text → Option Text) (randoms : ℕ → Text) (s : ResourceStore) where
    abbrev missing_in : ℕ
    missing_in = replicas_of - length (counted s)

    abbrev made_in : ResourceStore × List Text
    made_in = create now starts randoms deploy spec name_of namespace_of missing_in s

    abbrev reconciled : ResourceStore
    reconciled = reconcile now starts randoms deploy spec s

    -- What is done to the pods that are in excess after the creation.
    abbrev trimmed : List Text → ResourceStore → ResourceStore
    trimmed pods grown = remove_pods now (take (length pods - replicas_of) (reversed pods)) grown

    reconciled-trimmed : reconciled ≡ trimmed (counted s ++ made_in.1) made_in.0
    unfolding reconcile
    reconciled-trimmed = refl

    idle : replicas_of ≤ length (counted s) → made_in ≡ (s, [])
    unfolding create_pods
    idle many =
        let nothing : missing_in ≡ 0 = omega (arith, many) in
        ap (λ k. create now starts randoms deploy spec name_of namespace_of k s) nothing

    -- With enough pods only the ones in excess are removed.
    only_removes : replicas_of ≤ length (counted s) → reconciled ≡ trimmed (counted s) s
    only_removes many =
        reconciled-trimmed
        ∙ ap (λ m. trimmed (counted s ++ m.1) m.0) (idle many)
        ∙ ap (λ pods. trimmed pods s) (append-nil (counted s))

    no_excess :
        (pods : List Text) (grown : ResourceStore)
        → length pods ≤ replicas_of
        → trimmed pods grown ≡ grown
    unfolding remove_pods
    no_excess pods grown h =
        let none_over : length pods - replicas_of ≡ 0 = omega (arith, h) in
        ap (λ k. remove_pods now (take k (reversed pods)) grown) none_over

    rests : length (counted s) ≡ replicas_of → reconciled ≡ s
    rests h = only_removes (omega (arith, h)) ∙ no_excess (counted s) s (omega (arith, h))

    -- The first of the pods that were there, and new ones if there are too few.
    abbrev Reached : ResourceStore → Type 0
    Reached s' =
        (take (length (counted s)) (counted s') ≡ take replicas_of (counted s))
        × (length (counted s') ≡ replicas_of)

    shrinks :
        IsKeyed s
        → AreDistinct (pod_names s)
        → replicas_of ≤ length (counted s)
        → Reached reconciled
    shrinks v d many =
        let counts = is_match name_of namespace_of (labels_of spec) in
        let left : counted reconciled ≡ take replicas_of (counted s) =
          ap (λ r. counted r) (only_removes many)
          ∙ counted-picked (trimmed (counted s) s)
          ∙ remove_pods-picked counts now
              (take (length (counted s) - replicas_of) (reversed (counted s))) s v d
          ∙ ap (λ l. withouts (take (length (counted s) - replicas_of) (reversed (counted s))) l)
              (sym (counted-picked s))
          ∙ keep_first replicas_of (counted s)
              (rw (counted-picked s) (picked-AreDistinct counts s d)) in
        let kept = length-take replicas_of (counted s) in
        (
          ap (λ l. take (length (counted s)) l) left
              ∙ take_all (length (counted s)) (take replicas_of (counted s))
                  (omega (arith, kept, many)),
          ap (λ l. length l) left ∙ omega (arith, kept, many),
        )

    extends :
        IsMap (labels_of spec)
        → ((n : Text) → starts n ≡ none)
        → AreUnused randoms deploy spec name_of namespace_of missing_in s
        → length (counted s) ≤ replicas_of
        → Reached reconciled
    extends h ok_ unused few =
        let (more, count) =
          grows now starts randoms deploy spec name_of namespace_of missing_in s h ok_ unused in
        let all_there = length-append (counted s) made_in.1 in
        let there : counted reconciled ≡ counted s ++ made_in.1 =
          ap (λ r. counted r)
            (reconciled-trimmed
              ∙ no_excess (counted s ++ made_in.1) made_in.0 (omega (arith, all_there, count, few)))
          ∙ counted-picked made_in.0
          ∙ more
          ∙ ap (λ l. l ++ made_in.1) (sym (counted-picked s)) in
        (
          ap (λ l. take (length (counted s)) l) there
              ∙ take-append_length (counted s) made_in.1
              ∙ sym (take_all replicas_of (counted s) few),
          ap (λ l. length l) there ∙ omega (arith, all_there, count, few),
        )

    reaches :
        IsMap (labels_of spec)
        → ((n : Text) → starts n ≡ none)
        → IsKeyed s
        → AreDistinct (pod_names s)
        → AreUnused randoms deploy spec name_of namespace_of missing_in s
        → Reached reconciled
    reaches h ok_ v d unused = elim (few_or_many (length (counted s)) replicas_of) [
      | inl few ↦ extends h ok_ unused few
      | inr many ↦ shrinks v d many
    ]

    is_reconcile :
        deploy.spec ≡ some spec
        → reconcile_impl now starts randoms (deployment deploy) s ≡ (reconciled, true)
    unfolding reconcile_impl
    is_reconcile has = ap (λ o. reconcile_spec now starts randoms deploy o s) has

  -- The store after a reconciliation.
  abbrev pub after : ℕ → (Text → Option Text) → (ℕ → Text) → ResourceStore → ResourceStore
  after now starts randoms s = (reconcile_impl now starts randoms (deployment deploy) s).0

  -- In a store in which every key is the one of its resource and no two pods have one name, when
  -- the start of every pod succeeds and the names that are drawn are unused, reconciling a
  -- deployment succeeds and leaves exactly as many of its pods as it has replicas: the first of the
  -- ones that were there, in their order, and new ones behind them if these are too few. To
  -- reconcile again, at any time and whatever is drawn or started then, succeeds and changes
  -- nothing.
  pub reconcile_impl_lem :
      (now later : ℕ) (starts starts' : Text → Option Text) (randoms randoms' : ℕ → Text)
      (s : ResourceStore)
      → deploy.spec ≡ some spec
      → IsMap (labels_of spec)
      → ((n : Text) → starts n ≡ none)
      → IsKeyed s
      → AreDistinct (pod_names s)
      → AreUnused randoms deploy spec name_of namespace_of (replicas_of - length (counted s)) s
      → (reconcile_impl now starts randoms (deployment deploy) s
          ≡ (after now starts randoms s, true))
        × (take (length (counted s)) (counted (after now starts randoms s))
            ≡ take replicas_of (counted s))
        × (length (counted (after now starts randoms s)) ≡ replicas_of)
        × (reconcile_impl later starts' randoms' (deployment deploy) (after now starts randoms s)
            ≡ (after now starts randoms s, true))
  reconcile_impl_lem now later starts starts' randoms randoms' s has h ok_ v d unused =
      let (kept, enough) = reaches now starts randoms s h ok_ v d unused in
      let s' : ResourceStore = reconcile now starts randoms deploy spec s in
      let done = is_reconcile now starts randoms s has in
      let same : after now starts randoms s ≡ s' = ap (λ r. r.0) done in
      (
        done ∙ ap (λ x. (x, true)) (sym same),
        ap (λ x. take (length (counted s)) (counted x)) same ∙ kept,
        ap (λ x. length (counted x)) same ∙ enough,
        ap (λ x. reconcile_impl later starts' randoms' (deployment deploy) x) same
            ∙ is_reconcile later starts' randoms' s' has
            ∙ ap (λ x. (x, true)) (rests later starts' randoms' s' enough ∙ sym same),
      )
