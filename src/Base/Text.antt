-- ===== src/Base/Text.antt =====
-- Text as the bytes of its UTF-8 encoding, and what the program uses of `str`.
pub mod Split
pub mod Utf8
pub mod Trim
use z8s.Base.{if◌then◌else◌}
use z8s.Base.Tests.{◌==◌}
use Prim.Native.Nat.{ℕ}
use Prim.Native.Char.{code}
use Prim.Native.String.{String}
use mathlib.Core.Path.{◌≡◌, refl, ap, ◌∙◌}
use mathlib.Core.Logic.{◌↔◌, ◌≢◌}
use mathlib.Core.Bool.{Bool, true, false, ◌&&◌}
use mathlib.Core.List.{List, [], ◌∷◌, ◌++◌}
use native.Mathlib.Omega.{arith}

abbrev pub Text : Type 0
Text = List ℕ

-- The code points of a literal: its bytes, since the program's literals are ASCII.
abbrev pub codes : String → Text
codes String.[] = []
codes (String.◌∷◌ c s) = code c ∷ codes s

-- `==` on two texts.
unfoldable pub text_eq : Text → Text → Bool
text_eq [] [] = true
text_eq [] (y ∷ ys) = false
text_eq (x ∷ xs) [] = false
text_eq (x ∷ xs) (y ∷ ys) = x == y && text_eq xs ys

pub text_eq_iff : (s t : Text) → (text_eq s t ≡ true) ↔ (s ≡ t)
unfolding text_eq
text_eq_iff [] [] = ground arith
text_eq_iff [] (y ∷ ys) = ground arith
text_eq_iff (x ∷ xs) [] = ground arith
text_eq_iff (x ∷ xs) (y ∷ ys) = ground (arith, text_eq_iff xs ys)

pub text_eq_refl : (s : Text) → text_eq s s ≡ true
text_eq_refl s = (text_eq_iff s s).1 refl

-- `starts_with`.
unfoldable pub starts_with : Text → Text → Bool
starts_with s [] = true
starts_with [] (p ∷ ps) = false
starts_with (c ∷ s) (p ∷ ps) = c == p && starts_with s ps

pub starts_with-append : (p s : Text) → starts_with (p ++ s) p ≡ true
unfolding starts_with
starts_with-append [] s = refl
starts_with-append (c ∷ p) s = ground (arith, starts_with-append p s)

-- A text begins with `p` only as `p` and a rest.
pub starts_with-eq : (p s : Text) → starts_with s p ≡ true → (r : Text) × (s ≡ p ++ r)
unfolding starts_with
starts_with-eq [] s h = (s, refl)
starts_with-eq (c ∷ p) [] h = absurd (ground arith)
starts_with-eq (c ∷ p) (d ∷ s) h =
    let (r, e) = starts_with-eq p s (ground arith) in (r, ground arith)

-- `==` on two lists of texts.
unfoldable pub texts_eq : List Text → List Text → Bool
texts_eq [] [] = true
texts_eq [] (y ∷ ys) = false
texts_eq (x ∷ xs) [] = false
texts_eq (x ∷ xs) (y ∷ ys) = text_eq x y && texts_eq xs ys

pub texts_eq_refl : (xs : List Text) → texts_eq xs xs ≡ true
unfolding texts_eq
texts_eq_refl [] = refl
texts_eq_refl (x ∷ xs) = rw (text_eq_refl x) (texts_eq_refl xs)

abbrev push_kept : ℕ → ℕ → Text → Text
push_kept c x [] = if x == c then [] else x ∷ []
push_kept c x (y ∷ s) = x ∷ y ∷ s

-- `trim_end_matches` with one character.
unfoldable pub trim_end : ℕ → Text → Text
trim_end c [] = []
trim_end c (x ∷ s) = push_kept c x (trim_end c s)

-- Nothing is trimmed from what ends in a text of which nothing is trimmed.
pub trim_end-append :
    (c : ℕ) (s t : Text) → trim_end c t ≡ t → t ≢ [] → trim_end c (s ++ t) ≡ s ++ t
unfolding trim_end
trim_end-append c [] t e ne = e
trim_end-append c (x ∷ s) t e ne = ap (push_kept c x) (trim_end-append c s t e ne) ∙ kept x s t ne
  where
    kept : (x : ℕ) (s t : Text) → t ≢ [] → push_kept c x (s ++ t) ≡ x ∷ (s ++ t)
    kept x [] [] ne = absurd (ne refl)
    kept x [] (y ∷ t) ne = refl
    kept x (y ∷ s) t ne = refl
