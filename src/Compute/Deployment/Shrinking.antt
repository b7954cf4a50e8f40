-- ===== src/Compute/Deployment/Shrinking.antt =====
-- src/components/compute/deployment.rs: which pods the removal of the ones in excess leaves.
use z8s.Base.{
  ℕ, ◌≡◌, refl, sym, ap, ◌∙◌, ◌≢◌, Bool, inl, inr, Option, none, some, List, [], ◌∷◌, Bool-cases,
  All,
}
use z8s.Base.Text.{Text, text_eq, text_eq_refl}
use z8s.Base.Dict
use z8s.Base.Dict.{Dict}
use z8s.Resource.{AnyResource, uid}
use z8s.Resource.Store.{ResourceStore, ResourceTracker, terminated, set_state, delete, update_state}
use z8s.Resource.Store.Laws.{IsKeyed, remove-IsKeyed}
use z8s.Compute.Deployment.{remove_found, remove_pods}
use z8s.Compute.Deployment.Counting.{picked}
use z8s.Compute.Deployment.Excess.{without, withouts, AreDistinct}
use z8s.Compute.Deployment.Finding.{any_pod, first_pod, pod_names, missing-picked, found-picked}

remove-put :
    (k : Text) (t : ResourceTracker) (s : ResourceStore)
    → Dict.remove k (Dict.put k t s) ≡ Dict.remove k s
unfolding Dict.remove Dict.put
remove-put k t [] = rw (text_eq_refl k) refl
remove-put k t ((j, u) ∷ s) = elim (Bool-cases (text_eq j k)) [
  | inl e ↦ rw (e, e) refl
  | inr e ↦ rw (e, e) (ap (λ d. (j, u) ∷ d) (remove-put k t s))
]

remove-found :
    (now : ℕ) (t : ResourceTracker) (s : ResourceStore)
    → remove_found now (some t) s ≡ Dict.remove (uid t.resource) s
unfolding delete update_state
remove-found now t s = by_old (Dict.get (uid t.resource) s)
  where
    by_old :
        (old : Option ResourceTracker)
        → Dict.remove (uid t.resource) (set_state now (uid t.resource) terminated old s)
          ≡ Dict.remove (uid t.resource) s
    by_old none = refl
    by_old (some u) =
        remove-put (uid t.resource) (record u { state = terminated; last_updated = now }) s

without-All : (P : Text → Type 0) (n : Text) (xs : List Text) → All P xs → All P (without n xs)
unfolding without
without-All P n [] h = tt
without-All P n (x ∷ xs) (hx, h) = elim (Bool-cases (text_eq x n)) [
  | inl e ↦ rw e (without-All P n xs h)
  | inr e ↦ rw e (hx, without-All P n xs h)
]

without-AreDistinct : (n : Text) (xs : List Text) → AreDistinct xs → AreDistinct (without n xs)
unfolding without
without-AreDistinct n [] d = tt
without-AreDistinct n (x ∷ xs) (h, d) = elim (Bool-cases (text_eq x n)) [
  | inl e ↦ rw e (without-AreDistinct n xs d)
  | inr e ↦ rw e (without-All (λ m. x ≢ m) n xs h, without-AreDistinct n xs d)
]

-- One round of the removal takes the name of the pod away and keeps the store well formed.
removed :
    (counts : AnyResource → Bool) (now : ℕ) (n : Text) (s : ResourceStore)
    → IsKeyed s
    → AreDistinct (pod_names s)
    → IsKeyed (remove_found now (first_pod n s) s)
      × AreDistinct (pod_names (remove_found now (first_pod n s) s))
      × (picked counts (remove_found now (first_pod n s) s) ≡ without n (picked counts s))
removed counts now n s v d = by_found (first_pod n s) refl
  where
    by_found :
        (found : Option ResourceTracker)
        → first_pod n s ≡ found
        → IsKeyed (remove_found now found s)
          × AreDistinct (pod_names (remove_found now found s))
          × (picked counts (remove_found now found s) ≡ without n (picked counts s))
    by_found none e = (v, d, sym (missing-picked counts n s e))
    by_found (some t) e =
        rw (remove-found now t s, found-picked any_pod n t s v d e)
          (
            remove-IsKeyed (uid t.resource) s v,
            without-AreDistinct n (pod_names s) d,
            found-picked counts n t s v d e,
          )

-- The removal takes exactly the names away that it is given.
pub remove_pods-picked :
    (counts : AnyResource → Bool) (now : ℕ) (excess : List Text) (s : ResourceStore)
    → IsKeyed s
    → AreDistinct (pod_names s)
    → picked counts (remove_pods now excess s) ≡ withouts excess (picked counts s)
unfolding remove_pods withouts
remove_pods-picked counts now [] s v d = refl
remove_pods-picked counts now (n ∷ excess) s v d =
    let (v', d', less) = removed counts now n s v d in
    remove_pods-picked counts now excess (remove_found now (first_pod n s) s) v' d'
    ∙ ap (λ l. withouts excess l) less
