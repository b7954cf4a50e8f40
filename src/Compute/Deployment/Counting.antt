-- ===== src/Compute/Deployment/Counting.antt =====
-- src/components/compute/deployment.rs: how the pods that count change with the store.
use z8s.Base.{
  ℕ, ◌≡◌, refl, sym, ap, ◌∙◌, Bool, inl, inr, Option, none, some, List, [], ◌∷◌, ◌++◌, arith,
  if◌then◌else◌, Bool-cases,
}
use z8s.Base.Text.{Text, codes, text_eq}
use z8s.Base.Dict
use z8s.Base.Dict.{Dict}
use mathlib.Core.List.{append_assoc, append-nil}
use z8s.Resource.{AnyResource, uid, kind, name}
use z8s.Resource.Store.{
  ResourceStore, ResourceTracker, ResourceState, apply, update_state, get, get_by_kind, of_kind,
  keep_state, new_tracker, set_state,
}
use z8s.Compute.Deployment.{is_match, matching}

get-fresh-put :
    (k : Text) (t : ResourceTracker) (s : ResourceStore)
    → Dict.get k s ≡ none
    → Dict.put k t s ≡ s ++ ((k, t) ∷ [])
unfolding Dict.get Dict.put
get-fresh-put k t [] h = refl
get-fresh-put k t ((j, u) ∷ s) h = elim (Bool-cases (text_eq j k)) [
  | inl same ↦ absurd (ground (arith, same))
  | inr other ↦ rw other (ap (λ d. (j, u) ∷ d) (get-fresh-put k t s (ground (arith, other))))
]

-- What one resource adds to the names of the pods that count.
abbrev pub name_if : (AnyResource → Bool) → AnyResource → List Text
name_if counts r =
    if text_eq (kind r) (codes "Pod") then (if counts r then name r ∷ [] else []) else []

-- The names of the pods in a store that count, in its order.
unfoldable pub picked : (AnyResource → Bool) → ResourceStore → List Text
picked counts [] = []
picked counts ((k, t) ∷ s) = name_if counts t.resource ++ picked counts s

module _ (counts : AnyResource → Bool) where
  picked-append :
      (s : ResourceStore) (k : Text) (t : ResourceTracker)
      → picked counts (s ++ ((k, t) ∷ [])) ≡ picked counts s ++ name_if counts t.resource
  unfolding picked
  picked-append [] k t = append-nil (name_if counts t.resource)
  picked-append ((j, u) ∷ s) k t =
      ap (λ l. name_if counts u.resource ++ l) (picked-append s k t)
      ∙ sym (append_assoc (name_if counts u.resource) (picked counts s) (name_if counts t.resource))

  -- Another tracker of the same resource under a key that is there.
  picked-replace :
      (k : Text) (t t' : ResourceTracker) (s : ResourceStore)
      → Dict.get k s ≡ some t
      → t'.resource ≡ t.resource
      → picked counts (Dict.put k t' s) ≡ picked counts s
  unfolding picked Dict.get Dict.put
  picked-replace k t t' [] h e = absurd (ground arith)
  picked-replace k t t' ((j, u) ∷ s) h e = elim (Bool-cases (text_eq j k)) [
    | inl same ↦ rw same (
        ap (λ r. name_if counts r ++ picked counts s)
          (e ∙ same_resource t u (ground (arith, same))))
    | inr other ↦ rw other (
        ap (λ l. name_if counts u.resource ++ l)
          (picked-replace k t t' s (ground (arith, other)) e))
  ]
    where
      same_resource : (t u : ResourceTracker) → some u ≡ some t → t.resource ≡ u.resource
      same_resource t u p = cc

  pub picked-update_state :
      (now : ℕ) (key : Text) (state : ResourceState) (s : ResourceStore)
      → picked counts (update_state now key state s) ≡ picked counts s
  unfolding update_state
  picked-update_state now key state s = by_found (Dict.get key s) refl
    where
      by_found :
          (found : Option ResourceTracker)
          → Dict.get key s ≡ found
          → picked counts (set_state now key state found s) ≡ picked counts s
      by_found none e = refl
      by_found (some t) e =
          picked-replace key t (record t { state = state; last_updated = now }) s e refl

  -- A new resource stands behind the others.
  pub picked-apply :
      (now : ℕ) (r : AnyResource) (s : ResourceStore)
      → get (uid r) s ≡ none
      → picked counts (apply now r s) ≡ picked counts s ++ name_if counts r
  unfolding apply get
  picked-apply now r s fresh =
      ap (λ o. picked counts (Dict.put (uid r) (keep_state o (new_tracker now r)) s)) fresh
      ∙ ap (λ d. picked counts d) (get-fresh-put (uid r) (new_tracker now r) s fresh)
      ∙ picked-append s (uid r) (new_tracker now r)

-- The names that the controller collects are the ones of the pods that match.
pub matching-picked :
    (deploy_name ns : Text) (match_labels : Dict Text) (s : ResourceStore)
    → matching deploy_name ns match_labels (get_by_kind (codes "Pod") s)
      ≡ picked (is_match deploy_name ns match_labels) s
unfolding picked get_by_kind of_kind matching Dict.values
matching-picked deploy_name ns match_labels [] = refl
matching-picked deploy_name ns match_labels ((k, t) ∷ s) =
    elim (Bool-cases (text_eq (kind t.resource) (codes "Pod"))) [
      | inl a ↦ elim (Bool-cases (is_match deploy_name ns match_labels t.resource)) [
        | inl b ↦
            rw (a, b)
              (ap (λ l. name t.resource ∷ l) (matching-picked deploy_name ns match_labels s))
        | inr b ↦ rw (a, b) (matching-picked deploy_name ns match_labels s)
      ]
      | inr a ↦ rw a (matching-picked deploy_name ns match_labels s)
    ]
