-- ===== src/Net/Pool/Laws.antt =====
-- What the operations of src/netmux/pool.rs on single addresses do to the free set.
use z8s.Base.Powers.{two_pow-ge_four}
use z8s.Base.{
  ℕ, zero, suc, ◌+◌, ◌-◌, ◌^◌, ◌≤◌, ◌≡◌, refl, ap, ◌∙◌, Bool, true, not, ◌&&◌, ◌||◌, Option, none,
  some, List, [], ◌∷◌, leb, ◌==◌, if◌then◌else◌, arith, dec_lt,
}
use z8s.Base.Set
use z8s.Base.Set.{
  IsAscending, Above, Above-mono, insert, insert-Above, contains-insert, length-insert,
  contains-Above,
}
use z8s.Base.Set.Ranges.{in_range, insert_range, contains-insert_range, insert_range-Above}
use z8s.Base.Checked.{ok, u32_size, sub32_ok, shl1_ok, add32_ok}
use z8s.Net.Ipv4.{Ipv4Cidr}
use z8s.Net.Ipv4.Parsing.{Fits, bits}
use z8s.Net.Pool.{IpPool, fill, new, allocate, release, count_free}

pub fill-insert_range :
    (n i base : ℕ) (free : List ℕ)
    → base + i + n ≤ u32_size
    → fill n i base free ≡ ok (insert_range n (base + i) free)
unfolding fill insert_range
fill-insert_range zero i base free h = refl
fill-insert_range (suc n) i base free h =
    let shift : base + suc i ≡ suc (base + i) = omega arith in
    rw (add32_ok base i (omega arith)) (
      fill-insert_range n (suc i) base (insert (base + i) free) (omega arith)
      ∙ ap (λ a. ok (insert_range n a (insert (base + i) free))) shift)

-- The addresses of a CIDR that a pod can have: all in a block of one or two; in a larger one not
-- the first two and not the last.
abbrev pub usable : Ipv4Cidr → ℕ → Bool
usable c x =
    if leb 31 c.prefix
    then in_range (2 ^ bits c) c.network x
    else in_range (2 ^ bits c - 3) (c.network + 2) x

-- The free list that `new` starts with.
abbrev initial_free : Ipv4Cidr → List ℕ
initial_free c =
    if leb 31 c.prefix
    then insert_range (2 ^ bits c) (c.network + 0) []
    else insert_range (2 ^ bits c - 1 - 2) (c.network + 2) []

new-initial_free : (c : Ipv4Cidr) → Fits c → new c ≡ ok (record { cidr = c; free = initial_free c })
unfolding new
new-initial_free c f =
    rw (sub32_ok 32 c.prefix f.prefix_le, shl1_ok (bits c) (omega (arith, f.prefix_pos)))
      (elim (dec_lt c.prefix 31) [
        | yes h ↦
            ground (
              arith,
              fill-insert_range (2 ^ bits c - 1 - 2) 2 c.network [],
              two_pow-ge_four (bits c),
            )
        | no h ↦ ground (arith, fill-insert_range (2 ^ bits c) 0 c.network [])
      ])

contains-initial_free : (c : Ipv4Cidr) (x : ℕ) → Set.contains (initial_free c) x ≡ usable c x
contains-initial_free c x = ground (
  arith,
  contains-insert_range (2 ^ bits c) (c.network + 0) x [],
  contains-insert_range (2 ^ bits c - 1 - 2) (c.network + 2) x [],
)

initial_free-IsAscending : (c : Ipv4Cidr) → IsAscending (initial_free c)
initial_free-IsAscending c = ground (
  arith,
  insert_range-Above (2 ^ bits c) (c.network + 0) 0 [],
  insert_range-Above (2 ^ bits c - 1 - 2) (c.network + 2) 0 [],
)

-- A new pool over a CIDR that fits never panics, keeps the CIDR, and has exactly the usable
-- addresses free, in ascending order.
pub new-usable :
    (c : Ipv4Cidr)
    → Fits c
    → (p : IpPool) × (new c ≡ ok p)
      × (p.cidr ≡ c)
      × IsAscending p.free
      × ((x : ℕ) → Set.contains p.free x ≡ usable c x)
new-usable c f = (
  record { cidr = c; free = initial_free c },
  new-initial_free c f,
  refl,
  initial_free-IsAscending c,
  contains-initial_free c,
)

-- What `allocate` answers on an ascending free list.
abbrev pub Allocates : IpPool → Option ℕ × IpPool → Type 0
Allocates p (none, p') = (p.free ≡ []) × (p' ≡ p)
Allocates p (some ip, p') =
    (Set.contains p.free ip ≡ true)
    × ((x : ℕ) → Set.contains p.free x ≡ true → ip ≤ x)
    × ((x : ℕ) → Set.contains p'.free x ≡ (not (ip == x) && Set.contains p.free x))
    × (count_free p ≡ count_free p' + 1)
    × IsAscending p'.free
    × (p'.cidr ≡ p.cidr)

pop_least :
    (ip : ℕ) (rest : List ℕ)
    → IsAscending (ip ∷ rest)
    → (x : ℕ) → Set.contains rest x ≡ (not (ip == x) && Set.contains (ip ∷ rest) x)
pop_least ip rest h x = ground (arith, contains-Above (suc ip) x rest h.1)

allocate_list :
    (c : Ipv4Cidr) (free : List ℕ)
    → IsAscending free
    → Allocates (record { cidr = c; free = free }) (allocate (record { cidr = c; free = free }))
unfolding allocate count_free
allocate_list c [] h = (refl, refl)
allocate_list c (ip ∷ rest) h = (
  ground arith,
  λ x e. contains-Above ip x (ip ∷ rest) (omega arith, h.1) e,
  pop_least ip rest h,
  omega arith,
  Above-mono 0 (suc ip) rest (omega arith) h.1,
  refl,
)

-- `allocate` fails exactly on an empty free list, where it changes nothing. Otherwise it hands out
-- the least free address and takes that address alone off the list.
pub allocate_lem : (p : IpPool) → IsAscending p.free → Allocates p (allocate p)
allocate_lem p h = allocate_list p.cidr p.free h

-- `release` makes the address free, whatever its CIDR, and changes no other address. The free list
-- stays ascending, and grows by one unless the address was free before.
pub release_lem :
    (p : IpPool) (ip : ℕ)
    → IsAscending p.free
    → IsAscending (release p ip).free
      × ((x : ℕ) → Set.contains (release p ip).free x ≡ (ip == x || Set.contains p.free x))
      × (count_free (release p ip)
          ≡ (if Set.contains p.free ip then count_free p else suc (count_free p)))
unfolding release count_free
release_lem p ip h = (
  insert-Above 0 ip p.free (omega arith) h,
  λ x. contains-insert ip x p.free,
  length-insert ip 0 p.free h,
)

release_list :
    (c : Ipv4Cidr) (free : List ℕ) (ip : ℕ) (p' : IpPool)
    → IsAscending free
    → allocate (record { cidr = c; free = free }) ≡ (some ip, p')
    → release p' ip ≡ record { cidr = c; free = free }
unfolding allocate release insert
release_list c [] ip p' h e = ground arith
release_list c (a ∷ []) ip p' h e = ground arith
release_list c (a ∷ b ∷ rest) ip p' h e = ground arith

-- Giving an address straight back restores the pool.
pub release-allocate :
    (p : IpPool) (ip : ℕ) (p' : IpPool)
    → IsAscending p.free
    → allocate p ≡ (some ip, p')
    → release p' ip ≡ p
release-allocate p ip p' h e = release_list p.cidr p.free ip p' h e
