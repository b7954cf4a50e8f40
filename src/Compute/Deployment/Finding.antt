-- ===== src/Compute/Deployment/Finding.antt =====
-- src/components/compute/deployment.rs: what deleting the pod that has a name does to the pods that count.
use z8s.Base.{
  ◌≡◌, refl, sym, ap, ◌∙◌, ◌≢◌, Bool, true, false, ◌&&◌, ◌⊎◌, inl, inr, Option, none, some, List,
  [], ◌∷◌, ◌++◌, arith, if◌then◌else◌, Bool-cases, All, All-append,
}
use z8s.Base.Text.{Text, codes, text_eq, text_eq_iff}
use z8s.Base.Dict
use z8s.Base.Dict.{Dict}
use z8s.Resource.{AnyResource, uid, kind, name}
use z8s.Resource.Store.{ResourceStore, ResourceTracker, get_by_kind, of_kind}
use z8s.Resource.Store.Laws.{IsKeyed, Fresh}
use z8s.Compute.Deployment.{find_name}
use z8s.Compute.Deployment.Counting.{name_if, picked}
use z8s.Compute.Deployment.Excess.{without, without-append, without-absent, AreDistinct}

abbrev pub any_pod : AnyResource → Bool
any_pod r = true

-- The names of all pods.
abbrev pub pod_names : ResourceStore → List Text
pod_names s = picked any_pod s

-- The first pod with a name.
abbrev pub first_pod : Text → ResourceStore → Option ResourceTracker
first_pod n s = find_name n (get_by_kind (codes "Pod") s)

-- Whether a resource is a pod of the name.
abbrev is_pod : Text → AnyResource → Bool
is_pod n r = text_eq (kind r) (codes "Pod") && text_eq (name r) n

first_pod-cons :
    (n k : Text) (t : ResourceTracker) (s : ResourceStore)
    → first_pod n ((k, t) ∷ s) ≡ (if is_pod n t.resource then some t else first_pod n s)
unfolding get_by_kind of_kind find_name Dict.values
first_pod-cons n k t s = elim (Bool-cases (text_eq (kind t.resource) (codes "Pod"))) [
  | inl a ↦ rw a refl
  | inr a ↦ rw a refl
]

remove-Fresh : (k : Text) (s : ResourceStore) → Fresh k s → Dict.remove k s ≡ s
unfolding Dict.remove
remove-Fresh k [] h = refl
remove-Fresh k ((j, u) ∷ s) (ne, h) = elim (Bool-cases (text_eq j k)) [
  | inl e ↦ absurd (ne (sym ((text_eq_iff j k).0 e)))
  | inr e ↦ rw e (ap (λ d. (j, u) ∷ d) (remove-Fresh k s h))
]

differ : (k j : Text) → k ≢ j → text_eq k j ≡ false
differ k j ne = elim (Bool-cases (text_eq k j)) [
  | inl e ↦ absurd (ne ((text_eq_iff k j).0 e))
  | inr e ↦ e
]

one_resource : (t u : ResourceTracker) → some u ≡ some t → u.resource ≡ t.resource
one_resource t u e = cc

-- The pod is the first entry, or it is a later one.
first_pod-cases :
    (n k : Text) (t u : ResourceTracker) (s : ResourceStore)
    → first_pod n ((k, u) ∷ s) ≡ some t
    → ((is_pod n u.resource ≡ true) × (u.resource ≡ t.resource))
      ⊎ ((is_pod n u.resource ≡ false) × (first_pod n s ≡ some t))
first_pod-cases n k t u s e = elim (Bool-cases (is_pod n u.resource)) [
  | inl a ↦ inl (a, one_resource t u (sym (rw a refl) ∙ sym (first_pod-cons n k u s) ∙ e))
  | inr a ↦ inr (a, sym (rw a refl) ∙ sym (first_pod-cons n k u s) ∙ e)
]

-- The key of a pod that is found is not one that the store does not have.
found-Fresh :
    (n k : Text) (t : ResourceTracker) (s : ResourceStore)
    → IsKeyed s
    → Fresh k s
    → first_pod n s ≡ some t
    → k ≢ uid t.resource
unfolding get_by_kind of_kind find_name Dict.values
found-Fresh n k t [] v h e = absurd (ground arith)
found-Fresh n k t ((j, u) ∷ s) (key, fresh, v) (ne, h) e = elim (first_pod-cases n j t u s e) [
  | inl (a, same) ↦ λ p. ne (p ∙ ap (λ r. uid r) (sym same) ∙ sym key)
  | inr (a, later) ↦ found-Fresh n k t s v h later
]

-- What is said of the names with the one of a pod in front, of that name and of the others.
parts :
    (P : Text → Type 0) (a b : Bool) (m : Text) (rest : List Text)
    → All P ((if a then m ∷ [] else []) ++ rest)
    → All P (if a then (if b then m ∷ [] else []) else []) × All P rest
parts P true true m rest (h, hs) = ((h, tt), hs)
parts P true false m rest (h, hs) = (tt, hs)
parts P false b m rest h = (tt, h)

others-AreDistinct :
    (a : Bool) (m : Text) (rest : List Text)
    → AreDistinct ((if a then m ∷ [] else []) ++ rest)
    → AreDistinct rest
others-AreDistinct true m rest (h, d) = d
others-AreDistinct false m rest d = d

others-apart :
    (a : Bool) (m n : Text) (rest : List Text)
    → a && text_eq m n ≡ true
    → AreDistinct ((if a then m ∷ [] else []) ++ rest)
    → All (λ x. n ≢ x) rest
others-apart true m n rest e (h, d) = rw (sym ((text_eq_iff m n).0 e)) h
others-apart false m n rest e d = absurd (ground arith)

module _ (counts : AnyResource → Bool) (n : Text) where
  -- Names that no pod has are not among the ones that count.
  absent-picked :
      (s : ResourceStore) → All (λ m. n ≢ m) (pod_names s) → All (λ m. n ≢ m) (picked counts s)
  unfolding picked
  absent-picked [] h = tt
  absent-picked ((k, u) ∷ s) h =
      let (own, others) =
        parts (λ m. n ≢ m) (text_eq (kind u.resource) (codes "Pod")) (counts u.resource)
          (name u.resource) (pod_names s) h in
      All-append (λ m. n ≢ m) (name_if counts u.resource) (picked counts s) own
        (absent-picked s others)

  without-name_if :
      (r : AnyResource)
      → without n (name_if counts r) ≡ (if is_pod n r then [] else name_if counts r)
  unfolding without
  without-name_if r = elim (Bool-cases (text_eq (kind r) (codes "Pod"))) [
    | inl a ↦ elim (Bool-cases (counts r)) [
      | inl b ↦ elim (Bool-cases (text_eq (name r) n)) [
        | inl c ↦ rw (a, b, c) refl
        | inr c ↦ rw (a, b, c) refl
      ]
      | inr b ↦ elim (Bool-cases (text_eq (name r) n)) [
        | inl c ↦ rw (a, b, c) refl
        | inr c ↦ rw (a, b, c) refl
      ]
    ]
    | inr a ↦ rw a refl
  ]

  without-cons :
      (r : AnyResource) (rest : List Text)
      → without n (name_if counts r ++ rest)
        ≡ (if is_pod n r then [] else name_if counts r) ++ without n rest
  without-cons r rest =
      without-append n (name_if counts r) rest ∙ ap (λ l. l ++ without n rest) (without-name_if r)

  -- Without a pod of the name there is nothing to take away.
  pub missing-picked :
      (s : ResourceStore) → first_pod n s ≡ none → without n (picked counts s) ≡ picked counts s
  unfolding picked without
  missing-picked [] e = refl
  missing-picked ((k, u) ∷ s) e =
      without-cons u.resource (picked counts s) ∙ elim (Bool-cases (is_pod n u.resource)) [
        | inl a ↦ absurd (not_none u (sym (rw a refl) ∙ sym (first_pod-cons n k u s) ∙ e))
        | inr a ↦ rw a (
            ap (λ l. name_if counts u.resource ++ l)
              (missing-picked s (sym (rw a refl) ∙ sym (first_pod-cons n k u s) ∙ e)))
      ]
    where
      not_none : (u : ResourceTracker) → some u ≢ none
      not_none u e = ground arith

  -- Deleting the pod that is found takes its name away.
  pub found-picked :
      (t : ResourceTracker) (s : ResourceStore)
      → IsKeyed s
      → AreDistinct (pod_names s)
      → first_pod n s ≡ some t
      → picked counts (Dict.remove (uid t.resource) s) ≡ without n (picked counts s)
  unfolding picked Dict.remove get_by_kind of_kind find_name Dict.values
  found-picked t [] v d e = absurd (ground arith)
  found-picked t ((k, u) ∷ s) (key, fresh, v) d e = elim (first_pod-cases n k t u s e) [
    | inl (a, same) ↦ rw (text_same k (uid t.resource) (key ∙ ap (λ r. uid r) same)) (
        ap (λ d. picked counts d)
          (remove-Fresh (uid t.resource) s (rw (sym (key ∙ ap (λ r. uid r) same)) fresh))
        ∙ sym (
            without-cons u.resource (picked counts s)
            ∙ rw a (
                without-absent n (picked counts s) (
                  absent-picked s (
                    others-apart (text_eq (kind u.resource) (codes "Pod")) (name u.resource) n
                      (pod_names s) a d)))))
    | inr (a, later) ↦ rw (differ k (uid t.resource) (found-Fresh n k t s v fresh later)) (
        ap (λ l. name_if counts u.resource ++ l)
          (found-picked t s v
            (others-AreDistinct (text_eq (kind u.resource) (codes "Pod")) (name u.resource)
              (pod_names s) d)
            later)
        ∙ sym (without-cons u.resource (picked counts s) ∙ rw a refl))
  ]
    where
      text_same : (k j : Text) → k ≡ j → text_eq k j ≡ true
      text_same k j e = (text_eq_iff k j).1 e

joined-AreDistinct :
    (a b : Bool) (m : Text) (rest rest' : List Text)
    → AreDistinct ((if a then m ∷ [] else []) ++ rest)
    → (All (λ x. m ≢ x) rest → All (λ x. m ≢ x) rest')
    → AreDistinct rest'
    → AreDistinct ((if a then (if b then m ∷ [] else []) else []) ++ rest')
joined-AreDistinct true true m rest rest' (h, d) f d' = (f h, d')
joined-AreDistinct true false m rest rest' d f d' = d'
joined-AreDistinct false b m rest rest' d f d' = d'

pub picked-AreDistinct :
    (counts : AnyResource → Bool) (s : ResourceStore)
    → AreDistinct (pod_names s)
    → AreDistinct (picked counts s)
unfolding picked
picked-AreDistinct counts [] d = tt
picked-AreDistinct counts ((k, u) ∷ s) d =
    joined-AreDistinct (text_eq (kind u.resource) (codes "Pod")) (counts u.resource)
      (name u.resource) (pod_names s) (picked counts s) d (absent-picked counts (name u.resource) s)
      (picked-AreDistinct counts s (
        others-AreDistinct (text_eq (kind u.resource) (codes "Pod")) (name u.resource) (pod_names s)
          d))
