-- ===== src/Net/Netlink/Answers.antt =====
-- src/netmux/netlink.rs: which answers of the kernel are read out of their range.
use z8s.Base.{
  ℕ, zero, suc, ◌+◌, ◌*◌, ◌≤◌, ◌<◌, ◌≡◌, refl, ap, ◌≢◌, ◌↔◌, not, ◌||◌, inl, inr, Option, none,
  some, [], ◌∷◌, arith, ltb, leb, ◌==◌, if◌then◌else◌, Bool-cases, length,
}
use z8s.Base.Checked.{Checked, ok, overflow, ◌>>=◌}
use z8s.Net.Netlink.{
  Bytes, byte_or_zero, read16, read32, index, ne16_at, ne32_at, nlmsg_error, ifindex_of,
  index_or_none,
}

-- An answer that is no error and ends within its interface index.
abbrev pub IsCut : Bytes → Type 0
IsCut resp = (20 ≤ length resp) × (length resp < 24) × (read16 resp 4 ≢ nlmsg_error)

-- A byte is read if it is there, and reading it panics if it is not.
index_there : (bs : Bytes) (i : ℕ) → i < length bs → index bs i ≡ ok (byte_or_zero bs i)
index_there [] i h = absurd (omega (arith, h))
index_there (b ∷ bs) zero h = refl
index_there (b ∷ bs) (suc i) h = index_there bs i (omega (arith, h))

index_behind : (bs : Bytes) (i : ℕ) → length bs ≤ i → index bs i ≡ overflow
index_behind [] i h = refl
index_behind (b ∷ bs) zero h = absurd (omega (arith, h))
index_behind (b ∷ bs) (suc i) h = index_behind bs i (omega (arith, h))

ne16_there : (bs : Bytes) (i : ℕ) → i + 1 < length bs → ne16_at bs i ≡ ok (read16 bs i)
ne16_there bs i h =
    rw (index_there bs i (omega (arith, h)), index_there bs (i + 1) (omega (arith, h))) refl

ne32_there : (bs : Bytes) (i : ℕ) → i + 3 < length bs → ne32_at bs i ≡ ok (read32 bs i)
ne32_there bs i h =
    rw (ne16_there bs i (omega (arith, h)), ne16_there bs (i + 2) (omega (arith, h))) refl

abbrev four : Checked ℕ → Checked ℕ → Checked ℕ → Checked ℕ → Checked ℕ
four a b c d = (a >>= λ x. b >>= λ y. ok (x + 256 * y)) >>= λ u.
    (c >>= λ x. d >>= λ y. ok (x + 256 * y)) >>= λ v. ok (u + 65536 * v)

four_cut : (a b c d : Checked ℕ) → d ≡ overflow → four a b c d ≡ overflow
four_cut overflow b c d e = refl
four_cut (ok x) overflow c d e = refl
four_cut (ok x) (ok y) overflow d e = refl
four_cut (ok x) (ok y) (ok z) d e = ap (four (ok x) (ok y) (ok z)) e

-- Four bytes of which the last is not there.
ne32_behind : (bs : Bytes) (i : ℕ) → length bs ≤ i + 3 → ne32_at bs i ≡ overflow
ne32_behind bs i h =
    four_cut (index bs i) (index bs (i + 1)) (index bs (i + 2)) (index bs (i + 2 + 1))
      (index_behind bs (i + 2 + 1) (omega (arith, h)))

abbrev found : ℕ → ℕ → ℕ → Checked (Option ℕ)
found size msg_type idx =
    if not (leb 20 size) || msg_type == nlmsg_error
    then ok none
    else if ltb size 24
    then overflow
    else ok (index_or_none idx)

found_cut :
    (size msg_type idx : ℕ)
    → found size msg_type idx ≡ overflow
    → (20 ≤ size) × (size < 24) × (msg_type ≢ nlmsg_error)
found_cut size msg_type idx e = (ground arith, ground arith, λ p. ground arith)

cut_found :
    (size msg_type idx : ℕ)
    → 20 ≤ size
    → size < 24
    → msg_type ≢ nlmsg_error
    → found size msg_type idx ≡ overflow
cut_found size msg_type idx h l ne = ground arith

-- What an answer that holds the index says.
abbrev pub Says : ℕ → ℕ → ℕ → ℕ → Type 0
Says size msg_type idx i = (i ≡ idx) × (0 < i) × (24 ≤ size) × (msg_type ≢ nlmsg_error)

found_index :
    (size msg_type idx i : ℕ) → found size msg_type idx ≡ ok (some i) → Says size msg_type idx i
found_index size msg_type idx i e = (ground arith, ground arith, ground arith, λ p. ground arith)

index_found :
    (size msg_type idx i : ℕ) → Says size msg_type idx i → found size msg_type idx ≡ ok (some i)
index_found size msg_type idx i (e, pos, h, ne) = ground arith

-- The bytes that the code reads decide as the numbers in them.
ifindex_of-found :
    (resp : Bytes) → ifindex_of resp ≡ found (length resp) (read16 resp 4) (read32 resp 20)
unfolding ifindex_of
ifindex_of-found resp = elim (Bool-cases (leb 20 (length resp))) [
  | inr short ↦ rw short refl
  | inl long ↦ elim (Bool-cases (ltb (length resp) 24)) [
    | inl cut ↦
        rw
          (
            long,
            cut,
            ne16_there resp 4 (ground (arith, long)),
            ne32_behind resp 20 (ground (arith, cut)),
          )
          refl
    | inr whole ↦
        rw
          (
            long,
            whole,
            ne16_there resp 4 (ground (arith, long)),
            ne32_there resp 20 (ground (arith, whole)),
          )
          refl
  ]
]

-- Looking up an interface panics exactly at an answer of 20 to 23 bytes that is no error, of which it
-- reads the bytes 20 to 23. It finds an index exactly in an answer of 24 bytes or more that is no
-- error, if the number in these bytes is not 0; the index is that number.
pub ifindex_of_lem :
    (resp : Bytes) (i : ℕ)
    → ((ifindex_of resp ≡ overflow) ↔ IsCut resp)
      × ((ifindex_of resp ≡ ok (some i)) ↔ Says (length resp) (read16 resp 4) (read32 resp 20) i)
ifindex_of_lem resp i = rw (ifindex_of-found resp) (
  (
    found_cut (length resp) (read16 resp 4) (read32 resp 20),
    λ (h, l, ne). cut_found (length resp) (read16 resp 4) (read32 resp 20) h l ne,
  ),
  (
    found_index (length resp) (read16 resp 4) (read32 resp 20) i,
    index_found (length resp) (read16 resp 4) (read32 resp 20) i,
  ),
)
