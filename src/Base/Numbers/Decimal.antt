-- ===== src/Base/Numbers/Decimal.antt =====
-- Decimal numbers read back.
use z8s.Base.{
  ℕ, zero, suc, ◌+◌, ◌-◌, ◌*◌, ◌/◌, ◌%◌, ◌^◌, ◌≤◌, ◌<◌, max, ◌≡◌, refl, ◌∙◌, ◌≢◌, inl, inr, true,
  false, ◌&&◌, Option, none, some, [], ◌∷◌, ◌++◌, arith, ltb, leb, if◌then◌else◌, Bool-cases,
  All-append,
}
use native.Mathlib.Nat.{pow-suc}
use z8s.Base.Text.{Text}
use z8s.Base.Text.Split.{Lacks}
use z8s.Base.Numbers.{is_digit, digits, parse_uint, decimal_digits, decimal}

abbrev next_digit : ℕ → ℕ → Option ℕ → Option ℕ
next_digit max c none = none
next_digit max c (some m) =
    if is_digit c && leb (m * 10 + (c - b'0')) max then some (m * 10 + (c - b'0')) else none

digits-append :
    (max acc c : ℕ) (s : Text)
    → digits max acc (s ++ (c ∷ [])) ≡ next_digit max c (digits max acc s)
unfolding digits
digits-append max acc c [] = refl
digits-append max acc c (x ∷ s) =
    elim (Bool-cases (is_digit x && leb (acc * 10 + (x - b'0')) max)) [
      | inl good ↦ rw good (digits-append max (acc * 10 + (x - b'0')) c s)
      | inr bad ↦ rw bad
    ]

digits-decimal :
    (max fuel n : ℕ) → n < 10 ^ fuel → n ≤ max → digits max 0 (decimal_digits fuel n) ≡ some n
unfolding decimal_digits
digits-decimal max zero n h le = let z : n ≡ 0 = omega arith in rw z (unfold digits in refl)
digits-decimal max (suc fuel) n h le = elim (Bool-cases (ltb n 10)) [
  | inl small ↦ rw small (unfold digits in ground (arith, small))
  | inr big ↦
      rw
        (
          big,
          digits-append max 0 (b'0' + n % 10) (decimal_digits fuel (n / 10)),
          digits-decimal max fuel (n / 10) (omega (arith, pow-suc 10 fuel)) (omega arith),
        )
        (ground arith)
]

-- A text that begins with a digit.
abbrev Leads : Text → Type 0
Leads [] = ⊥
Leads (c ∷ s) = is_digit c ≡ true

Leads-append : (s t : Text) → Leads s → Leads (s ++ t)
Leads-append [] t h = absurd h
Leads-append (c ∷ s) t h = h

decimal_digits-Leads : (fuel n : ℕ) → n < 10 ^ suc fuel → Leads (decimal_digits (suc fuel) n)
unfolding decimal_digits
decimal_digits-Leads zero n h =
    let small : ltb n 10 ≡ true = ground (arith, h) in rw small (ground (arith, small))
decimal_digits-Leads (suc fuel) n h = elim (Bool-cases (ltb n 10)) [
  | inl small ↦ rw small (ground (arith, small))
  | inr big ↦ rw big (
      Leads-append (decimal_digits (suc fuel) (n / 10)) ((b'0' + n % 10) ∷ [])
        (decimal_digits-Leads fuel (n / 10) (omega (arith, pow-suc 10 (suc fuel)))))
]

parse_uint-digits : (max : ℕ) (s : Text) → Leads s → parse_uint max s ≡ digits max 0 s
unfolding parse_uint
parse_uint-digits max [] h = absurd h
parse_uint-digits max (c ∷ []) h = ground (arith, h)
parse_uint-digits max (c ∷ d ∷ s) h = ground (arith, h)

-- A number of at most twenty digits and at most `max` is read back.
pub parse_uint-decimal : (max n : ℕ) → n < 10 ^ 20 → n ≤ max → parse_uint max (decimal n) ≡ some n
unfolding decimal
parse_uint-decimal max n h le =
    parse_uint-digits max (decimal_digits 20 n) (decimal_digits-Leads 19 n h)
    ∙ digits-decimal max 20 n h le

digit_ne : (c d : ℕ) → is_digit c ≡ false → d < 10 → b'0' + d ≢ c
digit_ne c d h lt e = ground (arith, h, e)

decimal_digits-Lacks : (c fuel n : ℕ) → is_digit c ≡ false → Lacks c (decimal_digits fuel n)
unfolding decimal_digits
decimal_digits-Lacks c zero n h = tt
decimal_digits-Lacks c (suc fuel) n h = elim (Bool-cases (ltb n 10)) [
  | inl small ↦ rw small (digit_ne c n h (ground (arith, small)), tt)
  | inr big ↦ rw big (
      All-append (λ x. x ≢ c) (decimal_digits fuel (n / 10)) ((b'0' + n % 10) ∷ [])
        (decimal_digits-Lacks c fuel (n / 10) h) (digit_ne c (n % 10) h (omega arith), tt))
]

-- A decimal number is written with digits only.
pub decimal-Lacks : (c n : ℕ) → is_digit c ≡ false → Lacks c (decimal n)
unfolding decimal
decimal-Lacks c n h = decimal_digits-Lacks c 20 n h
