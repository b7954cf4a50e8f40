-- ===== src/Base/Set.antt =====
-- A `BTreeSet` of numbers: the ascending list of its elements.
pub mod Ranges
use z8s.Base.Tests.{ltb, ◌==◌, if◌then◌else◌}
use z8s.Base.Lists.{length}
use Prim.Native.Nat.{ℕ, suc, ◌≤◌}
use mathlib.Core.Path.{◌≡◌, refl}
use mathlib.Core.Bool.{Bool, true, false, not, ◌&&◌, ◌||◌}
use mathlib.Core.List.{List, [], ◌∷◌}
use native.Mathlib.Omega.{arith}

abbrev pub contains : List ℕ → ℕ → Bool
contains [] a = false
contains (x ∷ xs) a = x == a || contains xs a

-- `BTreeSet::insert`.
unfoldable pub insert : ℕ → List ℕ → List ℕ
insert a [] = a ∷ []
insert a (x ∷ xs) = if ltb a x then a ∷ x ∷ xs else if a == x then x ∷ xs else x ∷ insert a xs

-- `BTreeSet::remove`.
unfoldable pub remove : ℕ → List ℕ → List ℕ
remove a [] = []
remove a (x ∷ xs) = if x == a then xs else x ∷ remove a xs

-- Every element is above `b`, and the list ascends.
abbrev pub Above : ℕ → List ℕ → Type 0
Above b [] = Unit
Above b (x ∷ xs) = (b ≤ x) × Above (suc x) xs

abbrev pub IsAscending : List ℕ → Type 0
IsAscending xs = Above 0 xs

pub Above-mono : (a b : ℕ) (xs : List ℕ) → a ≤ b → Above b xs → Above a xs
Above-mono a b [] h p = tt
Above-mono a b (x ∷ xs) h (q, r) = (omega arith, r)

pub contains-Above : (b a : ℕ) (xs : List ℕ) → Above b xs → contains xs a ≡ true → b ≤ a
contains-Above b a [] h e = absurd (ground arith)
contains-Above b a (x ∷ xs) (p, r) e = ground (arith, contains-Above (suc x) a xs r)

pub contains-insert : (a c : ℕ) (xs : List ℕ) → contains (insert a xs) c ≡ (a == c || contains xs c)
unfolding insert
contains-insert a c [] = refl
contains-insert a c (x ∷ xs) = ground (arith, contains-insert a c xs)

pub insert-Above : (b a : ℕ) (xs : List ℕ) → b ≤ a → Above b xs → Above b (insert a xs)
unfolding insert
insert-Above b a [] h p = (h, tt)
insert-Above b a (x ∷ xs) h (p, r) = ground (arith, insert-Above (suc x) a xs)

pub remove-Above : (b a : ℕ) (xs : List ℕ) → Above b xs → Above b (remove a xs)
unfolding remove
remove-Above b a [] p = tt
remove-Above b a (x ∷ xs) (p, r) =
    ground (arith, Above-mono b (suc x) xs, remove-Above (suc x) a xs r)

-- On an ascending list the first occurrence is the only one.
pub contains-remove :
    (b a c : ℕ) (xs : List ℕ)
    → Above b xs
    → contains (remove a xs) c ≡ (not (a == c) && contains xs c)
unfolding remove
contains-remove b a c [] h = ground arith
contains-remove b a c (x ∷ xs) (p, r) =
    ground (arith, contains-remove (suc x) a c xs r, contains-Above (suc x) c xs r)

-- Two ascending lists with the same elements are equal.
pub insert_self :
    (a : ℕ) (b : ℕ) (xs : List ℕ) → Above b xs → contains xs a ≡ true → insert a xs ≡ xs
unfolding insert
insert_self a b [] h e = ground arith
insert_self a b (x ∷ xs) (p, r) e =
    ground (arith, insert_self a (suc x) xs r, contains-Above (suc x) a xs r)

pub length-insert :
    (a b : ℕ) (xs : List ℕ)
    → Above b xs
    → length (insert a xs) ≡ (if contains xs a then length xs else suc (length xs))
unfolding insert
length-insert a b [] h = refl
length-insert a b (x ∷ xs) (p, r) =
    ground (arith, length-insert a (suc x) xs r, contains-Above (suc x) a xs r)
