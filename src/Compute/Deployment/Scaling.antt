-- ===== src/Compute/Deployment/Scaling.antt =====
-- src/components/compute/deployment.rs: the pods that `reconcile_impl` creates are in the store.
use z8s.Base.{
  ℕ, zero, suc, ◌≡◌, refl, ap, ◌∙◌, ◌⊎◌, inl, inr, true, Option, none, some, List, [], ◌∷◌, ◌++◌,
  arith, unwrap_or, length, All,
}
use z8s.Base.Text.{Text, codes, text_eq_refl}
use z8s.Resource.{
  AnyResource, Deployment, DeploymentSpec, pod, uid, kind, namespace, name, metadata,
}
use z8s.Resource.Store.{ResourceStore, ResourceTracker, running, failed, apply, update_state, get}
use z8s.Resource.Store.Laws.{store_changes, restate}
use z8s.Resource.Store.Held.{Holds, apply-Holds, keeps-Holds, update_state-Holds}
use z8s.Compute.Deployment.{
  after_start, is_match, new_pod, pod_name_for, create_pods, create_pod_from_template,
}
use z8s.Compute.Deployment.Pods.{IsMap, new_pod-is_match}

cancel : (p s t : Text) → p ++ s ≡ p ++ t → s ≡ t
cancel [] s t e = e
cancel (c ∷ p) s t e = cancel p s t (ground (arith, e))

by_outcome :
    (P : ResourceStore × List Text → Type 0) (n : Text) (later : ResourceStore × List Text)
    (fail : Text → ResourceStore) (o : Option Text)
    → (o ≡ none → P (later.0, n ∷ later.1))
    → ((e : Text) → o ≡ some e → P (fail e, []))
    → P (after_start n later fail o)
by_outcome P n later fail none ok_ no_ = ok_ refl
by_outcome P n later fail (some e) ok_ no_ = no_ e refl

module _ (now : ℕ) (starts : Text → Option Text) (randoms : ℕ → Text) (deploy : Deployment)
    (spec : DeploymentSpec) (deploy_name ns : Text) where
  -- The pod of a name.
  abbrev pub pod_named : Text → AnyResource
  pod_named n = pod (new_pod deploy spec ns n)

  one_pod : (n m : Text) → uid (pod_named n) ≡ uid (pod_named m) → pod_named n ≡ pod_named m
  unfolding uid kind namespace name metadata create_pod_from_template
  one_pod n m e =
      ap (λ k. pod_named k)
        (cancel (b'/' ∷ []) n m (
          cancel ns (b'/' ∷ n) (b'/' ∷ m)
            (cancel (codes "Pod/") (ns ++ (b'/' ∷ n)) (ns ++ (b'/' ∷ m)) e)))

  abbrev pub after_creation : ℕ → ResourceStore → ResourceStore × List Text
  after_creation = create_pods now starts randoms deploy spec deploy_name ns

  abbrev name_at : ℕ → Text
  name_at missing = pod_name_for deploy_name (randoms missing)

  abbrev applied_at : ℕ → ResourceStore → ResourceStore
  applied_at missing s = apply now (pod_named (name_at missing)) s

  abbrev started : ℕ → ResourceStore → ResourceStore
  started missing s =
      update_state now (uid (pod_named (name_at missing))) running (applied_at missing s)

  abbrev failed_at : ℕ → ResourceStore → Text → ResourceStore
  failed_at missing s why =
      update_state now (uid (pod_named (name_at missing))) (failed why) (applied_at missing s)

  keeps_created :
      (missing : ℕ) (n : Text) (s : ResourceStore)
      → Holds (pod_named n) s
      → Holds (pod_named n) (after_creation missing s).0
  unfolding create_pods
  keeps_created zero n s h = h
  keeps_created (suc missing) n s h =
      let key : Text = uid (pod_named (name_at missing)) in
      let kept =
        keeps-Holds now (pod_named n) (pod_named (name_at missing)) s (one_pod (name_at missing) n)
          h in
      by_outcome (λ r. Holds (pod_named n) r.0) (name_at missing)
        (after_creation missing (started missing s)) (failed_at missing s)
        (starts (name_at missing))
        (λ e.
          keeps_created missing n (started missing s)
            (update_state-Holds now running key (pod_named n) (applied_at missing s) kept))
        (λ why e. update_state-Holds now (failed why) key (pod_named n) (applied_at missing s) kept)

  -- A pod of the deployment that is in the store.
  abbrev pub IsCreated : ResourceStore → Text → Type 0
  IsCreated s n =
      Holds (pod_named n) s
      × (is_match deploy_name ns (unwrap_or spec.match_labels []) (pod_named n) ≡ true)

  -- All pods were created, or the start of one failed, which is in the store with the reason.
  abbrev pub Enough : ℕ → ResourceStore × List Text → Type 0
  Enough missing r =
      (length r.1 ≡ missing)
      ⊎ ((n : Text) × (why : Text) × (starts n ≡ some why)
          × (t : ResourceTracker) × (get (uid (pod_named n)) r.0 ≡ some t)
          × (t.state ≡ failed why))

  created :
      (missing : ℕ) (s : ResourceStore)
      → IsMap (unwrap_or spec.match_labels [])
      → All (IsCreated (after_creation missing s).0) (after_creation missing s).1
  unfolding create_pods
  created zero s h = tt
  created (suc missing) s h =
      let n : Text = name_at missing in
      by_outcome (λ r. All (IsCreated r.0) r.1) n (after_creation missing (started missing s))
        (failed_at missing s) (starts n)
        (λ e. (
          (
            keeps_created missing n (started missing s) (
                update_state-Holds now running (uid (pod_named n)) (pod_named n)
                  (applied_at missing s) (apply-Holds now (pod_named n) s)),
            new_pod-is_match deploy spec deploy_name ns (randoms missing) h,
          ),
          created missing (started missing s) h,
        ))
        (λ why e. tt)

  -- The state of a pod whose start failed.
  failed_state :
      (missing : ℕ) (s : ResourceStore) (why : Text)
      → (t : ResourceTracker) × (get (uid (pod_named (name_at missing))) (failed_at missing s why)
          ≡ some t)
        × (t.state ≡ failed why)
  failed_state missing s why =
      let q : AnyResource = pod_named (name_at missing) in
      let (t, found, same) = apply-Holds now q s in
      (
        record t { state = failed why; last_updated = now },
        (store_changes now q (uid q) (uid q) (failed why) (applied_at missing s)).2
            ∙ rw (text_eq_refl (uid q)) (ap (restate now (failed why)) found),
        refl,
      )

  enough : (missing : ℕ) (s : ResourceStore) → Enough missing (after_creation missing s)
  unfolding create_pods
  enough zero s = inl refl
  enough (suc missing) s =
      by_outcome (Enough (suc missing)) (name_at missing)
        (after_creation missing (started missing s)) (failed_at missing s)
        (starts (name_at missing))
        (λ e.
          one_more missing (after_creation missing (started missing s)) (name_at missing)
            (enough missing (started missing s)))
        (λ why e.
          let (t, found, state) = failed_state missing s why in
          inr (name_at missing, why, e, t, found, state))
    where
      one_more :
          (missing : ℕ) (r : ResourceStore × List Text) (n : Text)
          → Enough missing r
          → Enough (suc missing) (r.0, n ∷ r.1)
      one_more missing r n (inl h) = inl (ap (λ k. suc k) h)
      one_more missing r n (inr h) = inr h

  -- Every pod that the loop creates is in the store afterwards and is one of the deployment. There
  -- are as many as were missing, or the start of one failed: it is in the store, with the reason.
  pub create_pods_lem :
      (missing : ℕ) (s : ResourceStore)
      → IsMap (unwrap_or spec.match_labels [])
      → All (IsCreated (after_creation missing s).0) (after_creation missing s).1
        × Enough missing (after_creation missing s)
  create_pods_lem missing s h = (created missing s h, enough missing s)
