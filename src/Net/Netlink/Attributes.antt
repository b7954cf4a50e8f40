-- ===== src/Net/Netlink/Attributes.antt =====
-- The attributes of a netlink message, read as the kernel's documentation describes them.
use z8s.Base.{
  ℕ, zero, suc, ◌+◌, ◌-◌, ◌*◌, ◌/◌, ◌%◌, ◌^◌, ◌<◌, ◌≡◌, refl, Bool, false, ◌||◌, Option, none, some,
  List, [], ◌∷◌, ◌++◌, arith, ltb, if◌then◌else◌, length, take, drop, length-append,
}
use z8s.Base.{length-append, take-append_length}
use z8s.Net.Netlink.{Bytes, read16, nlattr, padded}

-- An attribute is its length in two bytes, these four bytes included, its type, and its value; the next
-- one begins at a multiple of four.
abbrev pub push {ℓ} : {A : Type ℓ} → A → Option (List A) → Option (List A)
push a none = none
push a (some as') = some (a ∷ as')

abbrev is_short : Bytes → Bool
is_short bs = ltb (read16 bs 0) 4 || ltb (length bs) (read16 bs 0)

unfoldable pub walk : ℕ → Bytes → Option (List (ℕ × Bytes))
walk fuel [] = some []
walk zero (b ∷ bs) = none
walk (suc n) (b ∷ bs) =
    let len = read16 (b ∷ bs) 0 in
    let rest = walk n (drop (padded len) (b ∷ bs)) in
    if is_short (b ∷ bs)
    then none
    else push (read16 (b ∷ bs) 2, take (len - 4) (drop 4 (b ∷ bs))) rest

-- A value that fills its attribute, and an attribute type of 16 bits.
pub record Fits (nla_type : ℕ) (value : Bytes) : Type 0 where
  pub is_type : nla_type < 2 ^ 16
  pub is_aligned : length value % 4 ≡ 0
  pub is_short : length value + 4 < 2 ^ 16

read-ne16 : (n : ℕ) → n < 2 ^ 16 → n % 256 + 256 * (n / 256 % 256) ≡ n
read-ne16 n h = omega arith

long_enough :
    (a b c d : ℕ) (value rest : Bytes) (n : ℕ)
    → n ≡ length value + 4
    → (ltb n 4 || ltb (length (a ∷ b ∷ c ∷ d ∷ (value ++ rest))) n) ≡ false
long_enough a b c d value rest n e = ground (arith, length-append value rest, e)

drop-append_length : (value rest : Bytes) → drop (length value) (value ++ rest) ≡ rest
drop-append_length [] rest = refl
drop-append_length (b ∷ value) rest = drop-append_length value rest

-- Reading an attribute gives its type and its value, and goes on behind it.
pub walk-nlattr :
    (n t : ℕ) (value rest : Bytes)
    → Fits t value
    → walk (suc n) (nlattr t value ++ rest) ≡ push (t, value) (walk n rest)
unfolding walk nlattr
walk-nlattr n t value rest f = rw (read-ne16 (length value + 4) f.is_short) (
    rw (read-ne16 t f.is_type) (
      rw
        (long_enough ((length value + 4) % 256) ((length value + 4) / 256 % 256) (t % 256)
          (t / 256 % 256) value rest (length value + 4) refl)
        (rw (next) (
          rw (size)
            (rw (take-append_length value rest) (rw (drop-append_length value rest) refl))))))
  where
    next : padded (length value + 4) ≡ suc (suc (suc (suc (length value))))
    next = omega (arith, f.is_aligned)

    size : length value + 4 - 4 ≡ length value
    size = omega arith
