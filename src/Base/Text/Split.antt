-- ===== src/Base/Text/Split.antt =====
-- `str::split` and `str::split_once` at one byte, and `join`.
use z8s.Base.{◌<◌}
use z8s.Base.Tests.{◌==◌, if◌then◌else◌, Bool-cases}
use z8s.Base.Lists.{All, length}
use z8s.Base.Text.{Text}
use Prim.Native.Nat.{ℕ}
use mathlib.Core.Path.{◌≡◌, refl, ap, ◌∙◌}
use mathlib.Core.Logic.{◌≢◌, inl, inr}
use mathlib.Core.Option.{Option, none, some}
use mathlib.Core.List.{List, [], ◌∷◌, ◌++◌}
use native.Mathlib.Omega.{arith}

abbrev pub push_front : ℕ → List Text → List Text
push_front c [] = (c ∷ []) ∷ []
push_front c (p ∷ ps) = (c ∷ p) ∷ ps

-- `s.split(c)`: one part more than `s` has bytes `c`.
unfoldable pub split : ℕ → Text → List Text
split c [] = [] ∷ []
split c (x ∷ s) = let rest = split c s in if x == c then [] ∷ rest else push_front x rest

abbrev pub push_left : ℕ → Option (Text × Text) → Option (Text × Text)
push_left c none = none
push_left c (some (l, r)) = some (c ∷ l, r)

-- `s.split_once(c)`.
unfoldable pub split_once : ℕ → Text → Option (Text × Text)
split_once c [] = none
split_once c (x ∷ s) =
    let rest = split_once c s in if x == c then some ([], s) else push_left x rest

-- `parts.join(c)`.
unfoldable pub join : ℕ → List Text → Text
join c [] = []
join c (p ∷ []) = p
join c (p ∷ q ∷ ps) = p ++ (c ∷ join c (q ∷ ps))

-- No byte of the text is `c`.
abbrev pub Lacks : ℕ → Text → Type 0
Lacks c s = All (λ x. x ≢ c) s

pub split-Lacks : (c : ℕ) (s : Text) → Lacks c s → split c s ≡ s ∷ []
unfolding split
split-Lacks c [] h = refl
split-Lacks c (x ∷ s) (h, hs) = ground (arith, split-Lacks c s hs)

pub split-append : (c : ℕ) (s t : Text) → Lacks c s → split c (s ++ (c ∷ t)) ≡ s ∷ split c t
unfolding split
split-append c [] t h = ground arith
split-append c (x ∷ s) t (h, hs) = ground (arith, split-append c s t hs)

-- Splitting what was joined gives the parts back, if no part holds the separator.
pub split-join :
    (c : ℕ) (p : Text) (ps : List Text)
    → All (Lacks c) (p ∷ ps)
    → split c (join c (p ∷ ps)) ≡ p ∷ ps
unfolding join
split-join c p [] (h, hs) = split-Lacks c p h
split-join c p (q ∷ ps) (h, hs) =
    split-append c p (join c (q ∷ ps)) h ∙ ap (λ t. p ∷ t) (split-join c q ps hs)

pub split_once-append : (c : ℕ) (s t : Text) → Lacks c s → split_once c (s ++ (c ∷ t)) ≡ some (s, t)
unfolding split_once
split_once-append c [] t h = ground arith
split_once-append c (x ∷ s) t (h, hs) = ground (arith, split_once-append c s t hs)

push_front_nonempty : (x : ℕ) (ps : List Text) → 0 < length (push_front x ps)
push_front_nonempty x [] = omega arith
push_front_nonempty x (p ∷ ps) = omega arith

pub split_nonempty : (c : ℕ) (s : Text) → 0 < length (split c s)
unfolding split
split_nonempty c [] = omega arith
split_nonempty c (x ∷ s) = elim (Bool-cases (x == c)) [
  | inl e ↦ rw e (omega arith)
  | inr e ↦ rw e (push_front_nonempty x (split c s))
]

push_front-append :
    (x : ℕ) (ps qs : List Text) → 0 < length ps → push_front x (ps ++ qs) ≡ push_front x ps ++ qs
push_front-append x [] qs h = absurd (omega arith)
push_front-append x (p ∷ ps) qs h = refl

-- Splitting at any separator splits what stands on both sides of it.
pub split-both : (c : ℕ) (s t : Text) → split c (s ++ (c ∷ t)) ≡ split c s ++ split c t
unfolding split
split-both c [] t = ground arith
split-both c (x ∷ s) t = elim (Bool-cases (x == c)) [
  | inl e ↦ rw e (ap (λ ps. [] ∷ ps) (split-both c s t))
  | inr e ↦
      rw (e, split-both c s t) (push_front-append x (split c s) (split c t) (split_nonempty c s))
]

push_front_one :
    (x : ℕ) (ps : List Text) (p s : Text)
    → (0 < length ps)
    → ((q : Text) → ps ≡ q ∷ [] → s ≡ q)
    → push_front x ps ≡ p ∷ []
    → x ∷ s ≡ p
push_front_one x [] p s h one e = absurd (omega arith)
push_front_one x (q ∷ []) p s h one e = rw (one q refl) (ground (arith, e))
push_front_one x (q ∷ r ∷ ps) p s h one e = absurd (ground arith)

-- A text that is one part only is this part.
pub split_one : (c : ℕ) (s p : Text) → split c s ≡ p ∷ [] → s ≡ p
unfolding split
split_one c [] p e = ground arith
split_one c (x ∷ s) p e = elim (Bool-cases (x == c)) [
  | inl h ↦ absurd (ground (arith, h, split_nonempty c s))
  | inr h ↦
      push_front_one x (split c s) p s (split_nonempty c s) (split_one c s) (ground (arith, h))
]

-- `s.rsplit_once(c)`: at the last `c`.
abbrev later_split : ℕ → ℕ → Text → Option (Text × Text) → Option (Text × Text)
later_split c x s none = if x == c then some ([], s) else none
later_split c x s (some (l, r)) = some (x ∷ l, r)

unfoldable pub rsplit_once : ℕ → Text → Option (Text × Text)
rsplit_once c [] = none
rsplit_once c (x ∷ s) = later_split c x s (rsplit_once c s)

rsplit_once-Lacks : (c : ℕ) (s : Text) → Lacks c s → rsplit_once c s ≡ none
unfolding rsplit_once
rsplit_once-Lacks c [] h = refl
rsplit_once-Lacks c (x ∷ s) (h, hs) = rw (rsplit_once-Lacks c s hs) (ground (arith, h))

pub rsplit_once-append :
    (c : ℕ) (s t : Text) → Lacks c t → rsplit_once c (s ++ (c ∷ t)) ≡ some (s, t)
unfolding rsplit_once
rsplit_once-append c [] t h = rw (rsplit_once-Lacks c t h) (ground arith)
rsplit_once-append c (x ∷ s) t h = rw (rsplit_once-append c s t h) refl
