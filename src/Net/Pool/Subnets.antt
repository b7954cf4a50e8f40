-- ===== src/Net/Pool/Subnets.antt =====
-- `allocate_subnet` of src/netmux/pool.rs: the block it finds, and that it finds one if there is one.
use z8s.Base.Powers.{two_pow_pos}
use z8s.Base.{
  ℕ, zero, suc, ◌+◌, ◌-◌, ◌%◌, ◌^◌, ◌≤◌, ◌<◌, ◌≡◌, refl, true, false, not, ◌&&◌, Option, none, some,
  List, [], ◌∷◌, ltb, ◌==◌, if◌then◌else◌, length, take, arith, Bool-cases, inl, inr, dec_lt,
  Option-cases,
}
use z8s.Base.Set
use z8s.Base.Set.{IsAscending, Above, contains-Above}
use z8s.Base.Set.Ranges.{in_range, remove_range, contains-remove_range, remove_range-Above}
use z8s.Base.Checked.{Checked, ok, u32_size, add32_ok, sub32_ok, shl1_ok}
use z8s.Net.Ipv4.{Ipv4Cidr}
use z8s.Net.Pool.{IpPool, consecutive, find_block, take_block, allocate_subnet}

-- All of the `n` numbers from `a` on are in the list.
abbrev pub HasRange : ℕ → ℕ → List ℕ → Type 0
HasRange n a xs = (i : ℕ) → i < n → Set.contains xs (a + i) ≡ true

-- A window that counts up from `a` holds its numbers.
window_holds :
    (n a : ℕ) (xs : List ℕ)
    → n ≤ length xs
    → consecutive a (take n xs) ≡ true
    → (i : ℕ) → i < n
    → Set.contains xs (a + i) ≡ true
unfolding consecutive
window_holds zero a xs l e i h = absurd (omega arith)
window_holds (suc n) a [] l e i h = absurd (omega arith)
window_holds (suc n) a (x ∷ xs) l e zero h = ground arith
window_holds (suc n) a (x ∷ xs) l e (suc i) h =
    let shift : a + suc i ≡ suc a + i = omega arith in
    rw shift
      (ground (arith, window_holds n (suc a) xs (omega arith) (ground arith) i (omega arith)))

HasRange-tail :
    (n a x : ℕ) (xs : List ℕ) → x < suc a → HasRange (suc n) a (x ∷ xs) → HasRange n (suc a) xs
HasRange-tail n a x xs lt h i hi =
    let shift : a + suc i ≡ suc a + i = omega arith in
    ground (arith, rw shift at (h (suc i) (omega arith)))

-- In an ascending list that starts no earlier, the numbers from `a` on stand in front.
window_found :
    (n a : ℕ) (xs : List ℕ)
    → Above a xs
    → HasRange n a xs
    → (n ≤ length xs) × (consecutive a (take n xs) ≡ true)
unfolding consecutive
window_found zero a xs p h = (omega arith, refl)
window_found (suc n) a [] p h = absurd (ground (arith, h 0 (omega arith)))
window_found (suc n) a (x ∷ xs) (p, r) h =
    ground (arith, first, window_found n (suc a) xs (rw first at r) tail)
  where
    first : x ≡ a
    first = ground (arith, h 0 (omega arith), contains-Above (suc x) (a + 0) xs r)

    tail : HasRange n (suc a) xs
    tail = HasRange-tail n a x xs (omega (arith, first)) h

pub find_block_sound :
    (size start : ℕ) (xs : List ℕ)
    → find_block size xs ≡ some start
    → (start % size ≡ 0) × HasRange size start xs
unfolding find_block
find_block_sound size start [] e = absurd (ground arith)
find_block_sound size start (x ∷ xs) e = elim (Bool-cases (ltb (length (x ∷ xs)) size)) [
  | inl short ↦ absurd (ground arith)
  | inr long ↦ elim (Bool-cases (x % size == 0 && consecutive x (take size (x ∷ xs)))) [
    | inl found ↦
        let same : x ≡ start = ground arith in
        rw (← same) (ground arith, window_holds size x (x ∷ xs) (ground arith) (ground arith))
    | inr other ↦
        let (aligned, held) = find_block_sound size start xs (ground arith) in
        (aligned, λ i hi. ground (arith, held i hi))
  ]
]

-- Later blocks of an ascending list lie in its tail.
HasRange-after :
    (size b x : ℕ) (xs : List ℕ) → x < b → HasRange size b (x ∷ xs) → HasRange size b xs
HasRange-after size b x xs lt h i hi = ground (arith, h i hi)

length-ge_range : (n b low : ℕ) (xs : List ℕ) → Above low xs → HasRange n b xs → n ≤ length xs
length-ge_range n b low [] p h = elim (dec_lt 0 n) [
  | yes pos ↦ absurd (ground (arith, h 0 pos))
  | no none_left ↦ omega arith
]
length-ge_range n b low (x ∷ xs) (p, r) h = elim (dec_lt x b) [
  | yes lt ↦ omega (arith, length-ge_range n b (suc x) xs r (HasRange-after n b x xs lt h))
  | no ge ↦ (window_found n b (x ∷ xs) (omega arith, r) h).0
]

-- An aligned block that the head of the list does not start lies after the head.
after_head :
    (size b x low : ℕ) (xs : List ℕ)
    → 0 < size
    → Above low (x ∷ xs)
    → b % size ≡ 0
    → HasRange size b (x ∷ xs)
    → (x % size == 0 && consecutive x (take size (x ∷ xs))) ≡ false
    → x < b
after_head size b x low xs pos (p, r) al h other = elim (dec_lt x b) [
  | yes lt ↦ lt
  | no ge ↦
      let same : x ≡ b = omega (arith, x_le) in
      let h' : HasRange size x (x ∷ xs) = λ i hi. ground (arith, same, h i hi) in
      let (l, e) = window_found size x (x ∷ xs) (omega arith, r) h' in
      absurd (ground (arith, al, same))
]
  where
    x_le : x ≤ b
    x_le = ground (arith, h 0 (omega arith), contains-Above x (b + 0) (x ∷ xs) (omega arith, r))

-- A block found is the lowest of all aligned blocks, and none is missed.
pub find_block_complete :
    (size b low : ℕ) (xs : List ℕ)
    → 0 < size
    → Above low xs
    → b % size ≡ 0
    → HasRange size b xs
    → (start : ℕ) × (find_block size xs ≡ some start) × (start ≤ b)
unfolding find_block
find_block_complete size b low [] pos p al h = absurd (ground (arith, h 0 (omega arith)))
find_block_complete size b low (x ∷ xs) pos (p, r) al h =
    elim (Bool-cases (x % size == 0 && consecutive x (take size (x ∷ xs)))) [
      | inl found ↦ (x, ground (arith, long), x_le)
      | inr other ↦
          let lt : x < b = after_head size b x low xs pos (p, r) al h other in
          let (start, e, le) =
            find_block_complete size b (suc x) xs pos r al (HasRange-after size b x xs lt h) in
          (start, ground (arith, long), le)
    ]
  where
    long : size ≤ length (x ∷ xs)
    long = length-ge_range size b low (x ∷ xs) (p, r) h

    x_le : x ≤ b
    x_le = ground (arith, h 0 (omega arith), contains-Above x (b + 0) (x ∷ xs) (omega arith, r))

-- What `allocate_subnet` answers for blocks of `size` addresses.
abbrev pub TakesBlock : ℕ → ℕ → IpPool → Option Ipv4Cidr × IpPool → Type 0
TakesBlock prefix size p (none, p') = (p' ≡ p) × ((b : ℕ) → b % size ≡ 0 → ¬ HasRange size b p.free)
TakesBlock prefix size p (some c, p') =
    (c.prefix ≡ prefix)
    × (c.network % size ≡ 0)
    × HasRange size c.network p.free
    × ((b : ℕ) → b % size ≡ 0 → HasRange size b p.free → c.network ≤ b)
    × ((x : ℕ)
        → Set.contains p'.free x ≡ (not (in_range size c.network x) && Set.contains p.free x))
    × IsAscending p'.free
    × (p'.cidr ≡ p.cidr)

-- The last part of `allocate_subnet`, for blocks of `size` addresses.
abbrev take_if_long : IpPool → ℕ → ℕ → Checked (Option Ipv4Cidr × IpPool)
take_if_long p prefix size =
    if ltb (length p.free) size
    then ok (none, p)
    else take_block p prefix size (find_block size p.free)

long_refused :
    (p : IpPool) (prefix size : ℕ)
    → find_block size p.free ≡ none
    → take_if_long p prefix size ≡ ok (none, p)
long_refused p prefix size e = rw e (ground arith)

abbrev taken : IpPool → ℕ → ℕ → IpPool
taken p size start = record p { free = remove_range size start p.free }

long_taken :
    (p : IpPool) (prefix size start : ℕ)
    → size ≤ length p.free
    → start + size < u32_size
    → find_block size p.free ≡ some start
    → take_if_long p prefix size
      ≡ ok (some (record { network = start; prefix = prefix }), taken p size start)
long_taken p prefix size start long top e =
    let back : start + size - start ≡ size = omega arith in
    rw (e, add32_ok start size top, back) (ground arith)

none_missed :
    (size : ℕ) (free : List ℕ)
    → 0 < size
    → IsAscending free
    → find_block size free ≡ none
    → (b : ℕ) → b % size ≡ 0
    → ¬ HasRange size b free
none_missed size free pos asc e b al h =
    let (start, f, le) = find_block_complete size b 0 free pos asc al h in cc

lowest_found :
    (size start : ℕ) (free : List ℕ)
    → 0 < size
    → IsAscending free
    → find_block size free ≡ some start
    → (b : ℕ) → b % size ≡ 0
    → HasRange size b free
    → start ≤ b
lowest_found size start free pos asc e b al h =
    let (start', f, le) = find_block_complete size b 0 free pos asc al h in ground arith

-- A free list with room above: every address has `size` more below 2 ^ 32.
abbrev pub LeavesRoom : ℕ → List ℕ → Type 0
LeavesRoom size free = (x : ℕ) → Set.contains free x ≡ true → x + size < u32_size

take_if_long-TakesBlock :
    (p : IpPool) (prefix size : ℕ)
    → 0 < size
    → IsAscending p.free
    → LeavesRoom size p.free
    → (r : Option Ipv4Cidr × IpPool) × (take_if_long p prefix size ≡ ok r)
      × TakesBlock prefix size p r
take_if_long-TakesBlock p prefix size pos asc room = elim (Option-cases (find_block size p.free)) [
  | inl e ↦ ((none, p), long_refused p prefix size e, (refl, none_missed size p.free pos asc e))
  | inr (start, e) ↦
      let (al, h) = find_block_sound size start p.free e in
      let first : Set.contains p.free start ≡ true = ground (arith, h 0 pos) in
      let long : size ≤ length p.free = length-ge_range size start 0 p.free asc h in
      (
        (some (record { network = start; prefix = prefix }), taken p size start),
        long_taken p prefix size start long (room start first) e,
        (
          refl,
          al,
          h,
          lowest_found size start p.free pos asc e,
          λ x. contains-remove_range size start 0 x p.free asc,
          remove_range-Above size start 0 p.free asc,
          refl,
        ),
      )
]

-- On an ascending free list below the top block of the address space, `allocate_subnet` does not
-- panic at a prefix from 1 to 32. It takes the lowest aligned block whose addresses are all free
-- and takes exactly these off the free list; where there is no such block, it answers `None` and
-- changes nothing.
pub allocate_subnet_lem :
    (p : IpPool) (prefix : ℕ)
    → IsAscending p.free
    → 1 ≤ prefix
    → prefix ≤ 32
    → LeavesRoom (2 ^ (32 - prefix)) p.free
    → (r : Option Ipv4Cidr × IpPool) × (allocate_subnet p prefix ≡ ok r)
      × TakesBlock prefix (2 ^ (32 - prefix)) p r
unfolding allocate_subnet
allocate_subnet_lem p prefix asc lo hi room =
    let (r, e, t) =
      take_if_long-TakesBlock p prefix (2 ^ (32 - prefix)) (two_pow_pos (32 - prefix)) asc room in
    (r, rw (sub32_ok 32 prefix hi, shl1_ok (32 - prefix) (omega arith)) e, t)
