-- ===== src/Base/Text/Trim.antt =====
-- `str::trim` and `str::strip_suffix` on UTF-8.
use z8s.Base.{
  ℕ, zero, suc, ◌-◌, Bool, ◌&&◌, ◌||◌, Option, none, some, [], ◌∷◌, ◌++◌, leb, ◌==◌, if◌then◌else◌,
  length, take, drop,
}
use z8s.Base.Text.{Text, text_eq}

-- The bytes of white space below U+0080, and of the second and third byte of the others.
abbrev ascii_space : ℕ → Bool
ascii_space b = leb 9 b && leb b 13 || b == 32

abbrev two_bytes : ℕ → ℕ → Bool
two_bytes a b = a == 0xc2 && (b == 0x85 || b == 0xa0)

abbrev three_bytes : ℕ → ℕ → ℕ → Bool
three_bytes a b c =
    a == 0xe1 && (b == 0x9a && c == 0x80)
    || (a == 0xe2
          && (b == 0x80 && (leb 0x80 c && leb c 0x8a || (c == 0xa8 || (c == 0xa9 || c == 0xaf))))
        || (a == 0xe2 && (b == 0x81 && c == 0x9f) || a == 0xe3 && (b == 0x80 && c == 0x80)))

-- How many bytes the white space at the front has, for the text and for the text reversed.
space_front : Text → ℕ
space_front (a ∷ b ∷ c ∷ s) =
    if ascii_space a then 1 else if two_bytes a b then 2 else if three_bytes a b c then 3 else 0
space_front (a ∷ b ∷ []) = if ascii_space a then 1 else if two_bytes a b then 2 else 0
space_front (a ∷ []) = if ascii_space a then 1 else 0
space_front [] = 0

space_back : Text → ℕ
space_back (a ∷ b ∷ c ∷ s) =
    if ascii_space a then 1 else if two_bytes b a then 2 else if three_bytes c b a then 3 else 0
space_back (a ∷ b ∷ []) = if ascii_space a then 1 else if two_bytes b a then 2 else 0
space_back (a ∷ []) = if ascii_space a then 1 else 0
space_back [] = 0

-- Strip white space off the front; the number counts bytes of it that are still to go.
strip_front : (Text → ℕ) → ℕ → Text → Text
strip_front space n [] = []
strip_front space (suc n) (x ∷ s) = strip_front space n s
strip_front space zero (x ∷ s) =
    let rest = strip_front space (space (x ∷ s) - 1) s in if space (x ∷ s) == 0 then x ∷ s else rest

reverse_text : Text → Text
reverse_text [] = []
reverse_text (x ∷ s) = reverse_text s ++ (x ∷ [])

unfoldable pub trim : Text → Text
unfolding space_front space_back strip_front reverse_text
trim s = reverse_text (strip_front space_back 0 (reverse_text (strip_front space_front 0 s)))

-- `s.strip_suffix(suffix)`.
unfoldable pub strip_suffix : Text → Text → Option Text
strip_suffix suffix s =
    let n = length s - length suffix in
    if leb (length suffix) (length s) && text_eq (drop n s) suffix then some (take n s) else none
