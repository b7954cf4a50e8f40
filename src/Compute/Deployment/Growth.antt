-- ===== src/Compute/Deployment/Growth.antt =====
-- src/components/compute/deployment.rs: the pods that are created are added to the ones that count.
use z8s.Base.{
  ℕ, zero, suc, ◌<◌, ◌≡◌, refl, sym, ap, ◌∙◌, ◌⊎◌, true, false, Bool-cases, inl, inr, Option, none,
  List, [], ◌∷◌, ◌++◌, arith, unwrap_or, length,
}
use z8s.Base.Text.{Text, text_eq, text_eq_iff}
use z8s.Base.Dict.{Dict}
use mathlib.Core.List.{append_assoc, append-nil}
use z8s.Resource.{AnyResource, Deployment, DeploymentSpec, pod, uid, kind, name, metadata}
use z8s.Resource.Store.{ResourceStore, running, apply, update_state, get}
use z8s.Resource.Store.Laws.{store_changes}
use z8s.Compute.Deployment.{create_pods, create_pod_from_template, is_match, pod_name_for, new_pod}
use z8s.Compute.Deployment.Pods.{IsMap, new_pod-is_match}
use z8s.Compute.Deployment.Counting.{picked, name_if, picked-apply, picked-update_state}

abbrev pub labels_of : DeploymentSpec → Dict Text
labels_of spec = unwrap_or spec.match_labels []

-- The names that are drawn are unused: their keys are free in the store and differ.
module _ (randoms : ℕ → Text) (deploy : Deployment) (spec : DeploymentSpec)
    (deploy_name ns : Text) where
  abbrev pub key_at : ℕ → Text
  key_at i = uid (pod (new_pod deploy spec ns (pod_name_for deploy_name (randoms i))))

  abbrev pub AreUnused : ℕ → ResourceStore → Type 0
  AreUnused missing s =
      ((i : ℕ) → i < missing → get (key_at i) s ≡ none)
      × ((i j : ℕ) → i < missing → j < missing → key_at i ≡ key_at j → i ≡ j)

module _ (now : ℕ) (starts : Text → Option Text) (randoms : ℕ → Text) (deploy : Deployment)
    (spec : DeploymentSpec) (deploy_name ns : Text) where
  abbrev one_round : ℕ → ResourceStore → ResourceStore
  one_round i s =
      let r : AnyResource = pod (new_pod deploy spec ns (pod_name_for deploy_name (randoms i))) in
      update_state now (uid r) running (apply now r s)

  name_if_new :
      (i : ℕ)
      → IsMap (labels_of spec)
      → name_if
          (is_match deploy_name ns (labels_of spec))
          (pod (new_pod deploy spec ns (pod_name_for deploy_name (randoms i))))
        ≡ pod_name_for deploy_name (randoms i) ∷ []
  unfolding kind name metadata create_pod_from_template text_eq
  name_if_new i h = rw (new_pod-is_match deploy spec deploy_name ns (randoms i) h) refl

  round_adds :
      (i : ℕ) (s : ResourceStore)
      → IsMap (labels_of spec)
      → get (key_at randoms deploy spec deploy_name ns i) s ≡ none
      → picked (is_match deploy_name ns (labels_of spec)) (one_round i s)
        ≡ picked (is_match deploy_name ns (labels_of spec)) s
          ++ (pod_name_for deploy_name (randoms i) ∷ [])
  round_adds i s h fresh =
      let r : AnyResource = pod (new_pod deploy spec ns (pod_name_for deploy_name (randoms i))) in
      picked-update_state (is_match deploy_name ns (labels_of spec)) now (uid r) running
        (apply now r s)
      ∙ picked-apply (is_match deploy_name ns (labels_of spec)) now r s fresh
      ∙ ap (λ l. picked (is_match deploy_name ns (labels_of spec)) s ++ l) (name_if_new i h)

  -- A key that is free and is not the pod's stays free.
  stays_free :
      (i : ℕ) (j : Text) (s : ResourceStore)
      → text_eq (key_at randoms deploy spec deploy_name ns i) j ≡ false
      → get j s ≡ none
      → get j (one_round i s) ≡ none
  stays_free i j s other free =
      let r : AnyResource = pod (new_pod deploy spec ns (pod_name_for deploy_name (randoms i))) in
      (store_changes now r (uid r) j running (apply now r s)).2
      ∙ rw other ((store_changes now r (uid r) j running s).0 ∙ rw other free)

  still_unused :
      (missing : ℕ) (s : ResourceStore)
      → AreUnused randoms deploy spec deploy_name ns (suc missing) s
      → AreUnused randoms deploy spec deploy_name ns missing (one_round missing s)
  still_unused missing s (free, apart) = (
    λ i below.
        stays_free missing (key_at randoms deploy spec deploy_name ns i) s
          (not_same i below (
            Bool-cases (
              text_eq (key_at randoms deploy spec deploy_name ns missing)
                (key_at randoms deploy spec deploy_name ns i))))
          (free i (omega (arith, below))),
    λ i j a b e. apart i j (omega (arith, a)) (omega (arith, b)) e,
  )
    where
      not_same :
          (i : ℕ)
          → i < missing
          → (text_eq
                (key_at randoms deploy spec deploy_name ns missing)
                (key_at randoms deploy spec deploy_name ns i)
              ≡ true)
            ⊎ (text_eq
                  (key_at randoms deploy spec deploy_name ns missing)
                  (key_at randoms deploy spec deploy_name ns i)
                ≡ false)
          → text_eq
              (key_at randoms deploy spec deploy_name ns missing)
              (key_at randoms deploy spec deploy_name ns i)
            ≡ false
      not_same i below (inr e) = e
      not_same i below (inl e) =
          let same : missing ≡ i =
            apart missing i (omega arith) (omega (arith, below)) ((text_eq_iff _ _).0 e) in
          absurd (omega (arith, same, below))

  abbrev pub create : ℕ → ResourceStore → ResourceStore × List Text
  create = create_pods now starts randoms deploy spec deploy_name ns

  -- If every start succeeds, the pods that are created are added to the ones that count.
  pub grows :
      (missing : ℕ) (s : ResourceStore)
      → IsMap (labels_of spec)
      → ((n : Text) → starts n ≡ none)
      → AreUnused randoms deploy spec deploy_name ns missing s
      → (picked (is_match deploy_name ns (labels_of spec)) (create missing s).0
          ≡ picked (is_match deploy_name ns (labels_of spec)) s ++ (create missing s).1)
        × (length (create missing s).1 ≡ missing)
  unfolding create_pods
  grows zero s h ok_ unused =
      (sym (append-nil (picked (is_match deploy_name ns (labels_of spec)) s)), refl)
  grows (suc missing) s h ok_ unused =
      let (more, count) =
        grows missing (one_round missing s) h ok_ (still_unused missing s unused) in
      let n : Text = pod_name_for deploy_name (randoms missing) in
      let later : ResourceStore × List Text = create missing (one_round missing s) in
      rw (ok_ n) (
        more
            ∙ ap (λ l. l ++ later.1) (round_adds missing s h (unused.0 missing (omega arith)))
            ∙ append_assoc (picked (is_match deploy_name ns (labels_of spec)) s) (n ∷ []) later.1,
        ap (λ k. suc k) count,
      )
