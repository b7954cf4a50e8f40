-- ===== src/Base/Text/Utf8.antt =====
-- `String::from_utf8_lossy`: every maximal broken piece becomes one U+FFFD.
use z8s.Base.{
  ℕ, ◌-◌, ◌<◌, ◌≡◌, refl, Bool, ◌&&◌, Option, none, some, [], ◌∷◌, ◌++◌, arith, ltb, leb, ◌==◌,
  if◌then◌else◌, All,
}
use z8s.Base.Text.{Text, text_eq, text_eq_refl}

-- The character begun: the bytes read, the bounds of the next one, and how many are to come.
record Begun : Type 0 where
  bytes : Text
  lo : ℕ
  hi : ℕ
  left : ℕ

abbrev replacement : Text
replacement = 0xef ∷ 0xbf ∷ 0xbd ∷ []

abbrev within : ℕ → ℕ → ℕ → Bool
within lo hi b = leb lo b && leb b hi

abbrev begin : ℕ → ℕ → ℕ → ℕ → Text × Option Begun
begin b lo hi left = ([], some (record { bytes = b ∷ []; lo = lo; hi = hi; left = left }))

-- What a byte that starts a character writes, and what it waits for.
start : ℕ → Text × Option Begun
start b =
    if ltb b 0x80
    then (b ∷ [], none)
    else if within 0xc2 0xdf b
    then begin b 0x80 0xbf 1
    else if b == 0xe0
    then begin b 0xa0 0xbf 2
    else if b == 0xed
    then begin b 0x80 0x9f 2
    else if within 0xe1 0xef b
    then begin b 0x80 0xbf 2
    else if b == 0xf0
    then begin b 0x90 0xbf 3
    else if within 0xf1 0xf3 b
    then begin b 0x80 0xbf 3
    else if b == 0xf4
    then begin b 0x80 0x8f 3
    else (replacement, none)

abbrev extend : Begun → ℕ → Text × Option Begun
extend p b = if p.left == 1 then (p.bytes ++ (b ∷ []), none) else (
  [],
  some (record { bytes = p.bytes ++ (b ∷ []); lo = 0x80; hi = 0xbf; left = p.left - 1 }),
)

-- One byte, after what was begun.
step : Option Begun → ℕ → Text × Option Begun
unfolding start
step none b = start b
step (some p) b =
    if within p.lo p.hi b then extend p b else (let (out, p') = start b in (replacement ++ out, p'))

abbrev finish : Option Begun → Text
finish none = []
finish (some p) = replacement

lossy_from : Option Begun → Text → Text
unfolding step
lossy_from p [] = finish p
lossy_from p (b ∷ s) = let (out, p') = step p b in out ++ lossy_from p' s

unfoldable pub lossy : Text → Text
unfolding lossy_from
lossy s = lossy_from none s

abbrev pub IsAscii : Text → Type 0
IsAscii s = All (λ b. b < 0x80) s

pub lossy-IsAscii : (s : Text) → IsAscii s → lossy s ≡ s
unfolding lossy
lossy-IsAscii [] h = refl
lossy-IsAscii (b ∷ s) (h, hs) = ground (arith, lossy-IsAscii s hs)

-- `str::from_utf8`: the bytes are UTF-8 exactly if nothing in them is replaced.
unfoldable pub from_utf8 : Text → Option Text
from_utf8 s = if text_eq (lossy s) s then some s else none

pub from_utf8-IsAscii : (s : Text) → IsAscii s → from_utf8 s ≡ some s
unfolding from_utf8
from_utf8-IsAscii s h = rw (lossy-IsAscii s h, text_eq_refl s)
