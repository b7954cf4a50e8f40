-- ===== src/Compute/Deployment/Excess.antt =====
-- src/components/compute/deployment.rs: which names are left when the ones in excess are popped.
use z8s.Base.{
  ℕ, zero, suc, ◌-◌, ◌≡◌, refl, sym, ap, ◌∙◌, ◌≢◌, inl, inr, List, [], ◌∷◌, ◌++◌, arith,
  if◌then◌else◌, Bool-cases, length, length-append, length-drop, take, drop, take-append_length,
  All, All-append,
}
use z8s.Base.Text.{Text, text_eq, text_eq_iff, text_eq_refl}
use mathlib.Core.List.{append_assoc, append-nil}
use z8s.Compute.Deployment.{reversed}

-- The other names.
unfoldable pub without : Text → List Text → List Text
without n [] = []
without n (m ∷ ms) = let rest = without n ms in if text_eq m n then rest else m ∷ rest

unfoldable pub withouts : List Text → List Text → List Text
withouts [] ms = ms
withouts (n ∷ ns) ms = withouts ns (without n ms)

-- No name stands twice.
abbrev pub AreDistinct : List Text → Type 0
AreDistinct [] = Unit
AreDistinct (n ∷ ns) = All (λ m. n ≢ m) ns × AreDistinct ns

pub without-append :
    (n : Text) (xs ys : List Text) → without n (xs ++ ys) ≡ without n xs ++ without n ys
unfolding without
without-append n [] ys = refl
without-append n (x ∷ xs) ys = elim (Bool-cases (text_eq x n)) [
  | inl e ↦ rw e (without-append n xs ys)
  | inr e ↦ rw e (ap (λ l. x ∷ l) (without-append n xs ys))
]

pub without-absent : (n : Text) (xs : List Text) → All (λ x. n ≢ x) xs → without n xs ≡ xs
unfolding without
without-absent n [] h = refl
without-absent n (x ∷ xs) (ne, h) = elim (Bool-cases (text_eq x n)) [
  | inl e ↦ absurd (ne (sym ((text_eq_iff x n).0 e)))
  | inr e ↦ rw e (ap (λ l. x ∷ l) (without-absent n xs h))
]

withouts-append : (ns xs ys : List Text) → withouts ns (xs ++ ys) ≡ withouts ns xs ++ withouts ns ys
unfolding withouts
withouts-append [] xs ys = refl
withouts-append (n ∷ ns) xs ys =
    ap (λ l. withouts ns l) (without-append n xs ys)
    ∙ withouts-append ns (without n xs) (without n ys)

withouts-snoc :
    (ns : List Text) (n : Text) (xs : List Text)
    → withouts (ns ++ (n ∷ [])) xs ≡ without n (withouts ns xs)
unfolding withouts
withouts-snoc [] n xs = refl
withouts-snoc (m ∷ ns) n xs = withouts-snoc ns n (without m xs)

withouts-nil : (ns : List Text) → withouts ns [] ≡ []
unfolding withouts without
withouts-nil [] = refl
withouts-nil (n ∷ ns) = withouts-nil ns

without-one : (n : Text) (ns : List Text) → without n (withouts ns (n ∷ [])) ≡ []
unfolding withouts without
without-one n [] = rw (text_eq_refl n) refl
without-one n (m ∷ ns) = elim (Bool-cases (text_eq n m)) [
  | inl e ↦ rw (e, withouts-nil ns) refl
  | inr e ↦ rw e (without-one n ns)
]

withouts-own : (ys : List Text) → withouts (reversed ys) ys ≡ []
unfolding reversed
withouts-own [] = withouts-nil []
withouts-own (y ∷ ys) =
    withouts-snoc (reversed ys) y (y ∷ ys)
    ∙ ap (λ l. without y l) (withouts-append (reversed ys) (y ∷ []) ys)
    ∙ ap (λ l. without y (withouts (reversed ys) (y ∷ []) ++ l)) (withouts-own ys)
    ∙ ap (λ l. without y l) (append-nil (withouts (reversed ys) (y ∷ [])))
    ∙ without-one y (reversed ys)

-- Two lists have no name in common.
abbrev AreApart : List Text → List Text → Type 0
AreApart ns xs = All (λ n. All (λ x. n ≢ x) xs) ns

withouts-apart : (ns xs : List Text) → AreApart ns xs → withouts ns xs ≡ xs
unfolding withouts
withouts-apart [] xs h = refl
withouts-apart (n ∷ ns) xs (hn, h) =
    ap (λ l. withouts ns l) (without-absent n xs hn) ∙ withouts-apart ns xs h

reversed-apart : (ys xs : List Text) → AreApart ys xs → AreApart (reversed ys) xs
unfolding reversed
reversed-apart [] xs h = tt
reversed-apart (y ∷ ys) xs (hy, h) =
    All-append (λ n. All (λ x. n ≢ x) xs) (reversed ys) (y ∷ []) (reversed-apart ys xs h) (hy, tt)

later-apart : (x : Text) (xs ys : List Text) → All (λ m. x ≢ m) (xs ++ ys) → All (λ y. y ≢ x) ys
later-apart x [] [] h = tt
later-apart x [] (y ∷ ys) (ne, h) = (λ e. ne (sym e), later-apart x [] ys h)
later-apart x (w ∷ xs) ys (ne, h) = later-apart x xs ys h

cons-apart :
    (ys : List Text) (x : Text) (xs : List Text)
    → All (λ y. y ≢ x) ys
    → AreApart ys xs
    → AreApart ys (x ∷ xs)
cons-apart [] x xs h k = tt
cons-apart (y ∷ ys) x xs (ne, h) (a, k) = ((ne, a), cons-apart ys x xs h k)

nil-apart : (ys : List Text) → AreApart ys []
nil-apart [] = tt
nil-apart (y ∷ ys) = (tt, nil-apart ys)

distinct-apart : (xs ys : List Text) → AreDistinct (xs ++ ys) → AreApart ys xs
distinct-apart [] ys h = nil-apart ys
distinct-apart (x ∷ xs) ys (fresh, h) =
    cons-apart ys x xs (later-apart x xs ys fresh) (distinct-apart xs ys h)

reversed-append : (xs ys : List Text) → reversed (xs ++ ys) ≡ reversed ys ++ reversed xs
unfolding reversed
reversed-append [] ys = sym (append-nil (reversed ys))
reversed-append (x ∷ xs) ys =
    ap (λ l. l ++ (x ∷ [])) (reversed-append xs ys)
    ∙ append_assoc (reversed ys) (reversed xs) (x ∷ [])

length-reversed : (xs : List Text) → length (reversed xs) ≡ length xs
unfolding reversed
length-reversed [] = refl
length-reversed (x ∷ xs) = omega (arith, length-append (reversed xs) (x ∷ []), length-reversed xs)

popped :
    (xs ys : List Text)
    → AreDistinct (xs ++ ys)
    → withouts (take (length ys) (reversed (xs ++ ys))) (xs ++ ys) ≡ xs
popped xs ys h =
    let last_ones : take (length ys) (reversed (xs ++ ys)) ≡ reversed ys =
      ap (λ l. take (length ys) l) (reversed-append xs ys)
      ∙ ap (λ k. take k (reversed ys ++ reversed xs)) (sym (length-reversed ys))
      ∙ take-append_length (reversed ys) (reversed xs) in
    ap (λ l. withouts l (xs ++ ys)) last_ones
    ∙ withouts-append (reversed ys) xs ys
    ∙ ap (λ l. withouts (reversed ys) xs ++ l) (withouts-own ys)
    ∙ append-nil (withouts (reversed ys) xs)
    ∙ withouts-apart (reversed ys) xs (reversed-apart ys xs (distinct-apart xs ys h))

take-drop : (k : ℕ) (xs : List Text) → take k xs ++ drop k xs ≡ xs
take-drop zero xs = refl
take-drop (suc k) [] = refl
take-drop (suc k) (x ∷ xs) = ap (λ l. x ∷ l) (take-drop k xs)

-- Popping all names beyond the first ones leaves exactly the first ones.
pub keep_first :
    (replicas : ℕ) (xs : List Text)
    → AreDistinct xs
    → withouts (take (length xs - replicas) (reversed xs)) xs ≡ take replicas xs
keep_first replicas xs h =
    let first : List Text = take replicas xs in
    let last : List Text = drop replicas xs in
    ap (λ k. withouts (take k (reversed xs)) xs) (sym (length-drop replicas xs))
    ∙ sym (ap (λ l. withouts (take (length last) (reversed l)) l) (take-drop replicas xs))
    ∙ popped first last (rw (take-drop replicas xs) h)
