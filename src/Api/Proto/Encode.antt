-- ===== src/Api/Proto/Encode.antt =====
-- The protobuf encoding, as the format describes it, and that src/api/proto.rs reads it back.
use z8s.Base.{
  ℕ, zero, suc, ◌+◌, ◌*◌, ◌/◌, ◌%◌, ◌^◌, ◌<◌, ◌≡◌, refl, ap, some, List, [], ◌∷◌, ◌++◌, arith, ltb,
  if◌then◌else◌, length, take, drop, length-append,
}
use native.Mathlib.Nat.{div-add-mod, pow-suc}
use native.Mathlib.Numerals.{towards_suc}
use z8s.Base.{length-append, take-append_length, drop-append_length}
use z8s.Base.Checked.{ok}
use z8s.Api.Proto.{
  Bytes, Value, varint, bytes, fixed32, fixed64, Parser, read_from, read_varint, from_le_bytes,
  next_field, field_of,
}

-- Groups of seven bits, lowest first, the top bit set on all bytes but the last; at most `k + 1`.
unfoldable pub put_varint : ℕ → ℕ → Bytes
put_varint zero n = n ∷ []
put_varint (suc k) n = if ltb n 128 then n ∷ [] else (n % 128 + 128) ∷ put_varint k (n / 128)

unfoldable pub to_le_bytes : ℕ → ℕ → Bytes
to_le_bytes zero n = []
to_le_bytes (suc k) n = n % 256 ∷ to_le_bytes k (n / 256)

-- A field with its key, which is the number and the wire type.
unfoldable pub encode_field : ℕ → Value → Bytes
encode_field f (varint n) = put_varint 9 (f * 8) ++ put_varint 9 n
encode_field f (bytes b) = put_varint 9 (f * 8 + 2) ++ (put_varint 9 (length b) ++ b)
encode_field f (fixed32 n) = put_varint 9 (f * 8 + 5) ++ to_le_bytes 4 n
encode_field f (fixed64 n) = put_varint 9 (f * 8 + 1) ++ to_le_bytes 8 n

-- A message: its fields, one after the other.
unfoldable pub encode : List (ℕ × Value) → Bytes
unfolding encode_field
encode [] = []
encode ((f, v) ∷ fs) = encode_field f v ++ encode fs

abbrev pub InRange : Value → Type 0
InRange (varint n) = n < 2 ^ 64
InRange (bytes b) = Unit {0}
InRange (fixed32 n) = n < 2 ^ 32
InRange (fixed64 n) = n < 2 ^ 64

-- Field numbers are below 2 ^ 29, and values in their range.
abbrev pub IsField : ℕ × Value → Type 0
IsField (f, v) = (f < 2 ^ 29) × InRange v

shift_group : (n s : ℕ) → n / 128 * 2 ^ (s + 7) ≡ n / 128 * 128 * 2 ^ s
shift_group n s =
    let seven : 2 ^ (s + 7) ≡ 128 * 2 ^ s = simp towards_suc (omega arith) in
    omega (arith, ap (λ (t : ℕ). n / 128 * t) seven)

split_groups : (n s : ℕ) → n * 2 ^ s ≡ n % 128 * 2 ^ s + n / 128 * 2 ^ (s + 7)
split_groups n s = omega (arith, shift_group n s, ap (λ (t : ℕ). t * 2 ^ s) (div-add-mod n 128))

-- One byte of `read_from`: the last one, and one with the top bit set.
read_last :
    (n result shift pos : ℕ) (rest : Bytes)
    → n < 128
    → result + n * 2 ^ shift < 2 ^ 64
    → read_from result shift pos (n ∷ rest)
      ≡ some (result + n * 2 ^ shift, record { pos = pos + 1; rest = rest })
unfolding read_from
read_last n result shift pos rest h fits = ground arith

read_more :
    (g result shift pos : ℕ) (rest : Bytes)
    → g < 128
    → shift + 7 < 64
    → result + g * 2 ^ shift < 2 ^ 64
    → read_from result shift pos ((g + 128) ∷ rest)
      ≡ read_from (result + g * 2 ^ shift) (shift + 7) (pos + 1) rest
unfolding read_from
read_more g result shift pos rest h hs fits =
    let low : (g + 128) % 128 ≡ g = omega arith in ground (arith, low)

read_from-put_varint :
    (k n result shift pos : ℕ) (rest : Bytes)
    → n < 128 ^ suc k
    → shift + 7 * k < 64
    → result + n * 2 ^ shift < 2 ^ 64
    → read_from result shift pos (put_varint k n ++ rest)
      ≡ some (result + n * 2 ^ shift, record { pos = pos + length (put_varint k n); rest = rest })
unfolding put_varint
read_from-put_varint zero n result shift pos rest h hs fits =
    read_last n result shift pos rest (omega (arith, pow-suc 128 0)) fits
read_from-put_varint (suc k) n result shift pos rest h hs fits = ground (
  arith,
  read_last n result shift pos rest,
  split_groups n shift,
  read_more (n % 128) result shift pos (put_varint k (n / 128) ++ rest),
  pow-suc 128 (suc k),
  read_from-put_varint k (n / 128) (result + n % 128 * 2 ^ shift) (shift + 7) (pos + 1) rest,
)

-- `read_varint` reads back any u64 and stops behind it.
pub read_varint-put_varint :
    (n pos : ℕ) (rest : Bytes)
    → n < 2 ^ 64
    → read_varint (record { pos = pos; rest = put_varint 9 n ++ rest })
      ≡ some (n, record { pos = pos + length (put_varint 9 n); rest = rest })
unfolding read_varint
read_varint-put_varint n pos rest h = ground (arith, read_from-put_varint 9 n 0 0 pos rest)

pub length-to_le_bytes : (k n : ℕ) → length (to_le_bytes k n) ≡ k
unfolding to_le_bytes
length-to_le_bytes zero n = refl
length-to_le_bytes (suc k) n = ap suc (length-to_le_bytes k (n / 256))

pub from_le_bytes-to_le_bytes : (k n : ℕ) → n < 256 ^ k → from_le_bytes (to_le_bytes k n) ≡ n
unfolding to_le_bytes from_le_bytes
from_le_bytes-to_le_bytes zero n h = omega arith
from_le_bytes-to_le_bytes (suc k) n h =
    omega
      (arith, pow-suc 256 k, from_le_bytes-to_le_bytes k (n / 256) (omega (arith, pow-suc 256 k)))

take_front : (xs ys : Bytes) (n : ℕ) → length xs ≡ n → take n (xs ++ ys) ≡ xs
take_front xs ys n e = rw (← e) (take-append_length xs ys)

drop_front : (xs ys : Bytes) (n : ℕ) → length xs ≡ n → drop n (xs ++ ys) ≡ ys
drop_front xs ys n e = rw (← e) (drop-append_length xs ys)

-- The parser behind `n` more bytes.
abbrev pub at : ℕ → Bytes → Parser
at pos rest = record { pos = pos; rest = rest }

pub tag_fixed64 :
    (f n pos : ℕ) (rest : Bytes)
    → f < 2 ^ 29
    → n < 2 ^ 64
    → field_of (f * 8 + 1) (at pos (to_le_bytes 8 n ++ rest))
      ≡ ok (some (f, fixed64 n, at (pos + 8) rest))
tag_fixed64 f n pos rest hf hn =
    rw
      (
        take_front (to_le_bytes 8 n) rest 8 (length-to_le_bytes 8 n),
        drop_front (to_le_bytes 8 n) rest 8 (length-to_le_bytes 8 n),
        from_le_bytes-to_le_bytes 8 n (omega arith),
        length-append (to_le_bytes 8 n) rest,
        length-to_le_bytes 8 n,
      )
      (ground arith)

pub tag_fixed32 :
    (f n pos : ℕ) (rest : Bytes)
    → f < 2 ^ 29
    → n < 2 ^ 32
    → field_of (f * 8 + 5) (at pos (to_le_bytes 4 n ++ rest))
      ≡ ok (some (f, fixed32 n, at (pos + 4) rest))
tag_fixed32 f n pos rest hf hn =
    rw
      (
        take_front (to_le_bytes 4 n) rest 4 (length-to_le_bytes 4 n),
        drop_front (to_le_bytes 4 n) rest 4 (length-to_le_bytes 4 n),
        from_le_bytes-to_le_bytes 4 n (omega arith),
        length-append (to_le_bytes 4 n) rest,
        length-to_le_bytes 4 n,
      )
      (ground arith)

pub tag_varint :
    (f n pos : ℕ) (rest : Bytes)
    → f < 2 ^ 29
    → n < 2 ^ 64
    → field_of (f * 8) (at pos (put_varint 9 n ++ rest))
      ≡ ok (some (f, varint n, at (pos + length (put_varint 9 n)) rest))
tag_varint f n pos rest hf hn = rw (read_varint-put_varint n pos rest hn) (ground arith)

pub tag_bytes :
    (f pos : ℕ) (b rest : Bytes)
    → f < 2 ^ 29
    → pos + length (put_varint 9 (length b)) + length b < 2 ^ 64
    → field_of (f * 8 + 2) (at pos (put_varint 9 (length b) ++ (b ++ rest)))
      ≡ ok (some (f, bytes b, at (pos + length (put_varint 9 (length b)) + length b) rest))
tag_bytes f pos b rest hf fits =
    rw
      (
        read_varint-put_varint (length b) pos (b ++ rest) (omega arith),
        take-append_length b rest,
        drop-append_length b rest,
        length-append b rest,
      )
      (ground arith)

pub key_read :
    (tag pos : ℕ) (rest : Bytes)
    → tag < 2 ^ 64
    → next_field (at pos (put_varint 9 tag ++ rest))
      ≡ field_of tag (at (pos + length (put_varint 9 tag)) rest)
unfolding next_field
key_read tag pos rest h = rw (read_varint-put_varint tag pos rest h)
