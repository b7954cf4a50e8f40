-- ===== src/Net/Pool.antt =====
-- src/netmux/pool.rs: the allocator of addresses. The free list is a `BTreeSet<u32>`.
pub mod Laws
pub mod Subnets
pub mod Expansion
pub mod Leases
mod Runs
use z8s.Base.{
  ℕ, zero, suc, ◌+◌, ◌-◌, ◌%◌, ◌≡◌, Bool, true, false, ◌&&◌, Option, none, some, List, [], ◌∷◌, ltb,
  leb, ◌==◌, if◌then◌else◌, length, take,
}
use z8s.Base.Set.{insert}
use z8s.Base.Set.Ranges.{remove_range}
use z8s.Base.Checked.{Checked, ok, overflow, ◌>>=◌, add32, sub32, shl1}
use z8s.Net.Ipv4.{Ipv4Cidr}

pub record IpPool : Type 0 where
  pub cidr : Ipv4Cidr
  pub free : List ℕ

-- `for i in i..i + n { free.insert(base + i); }`
unfoldable pub fill : ℕ → ℕ → ℕ → List ℕ → Checked (List ℕ)
fill zero i base free = ok free
fill (suc n) i base free = add32 base i >>= λ a. fill n (suc i) base (insert a free)

-- `IpPool::new`.
unfoldable pub new : Ipv4Cidr → Checked IpPool
new cidr = do
  bits ← sub32 32 cidr.prefix
  total ← shl1 bits
  free ←
      if leb 31 cidr.prefix
      then fill total 0 cidr.network []
      else fill (total - 1 - 2) 2 cidr.network []
  ok (record { cidr = cidr; free = free })

abbrev pop_first : Ipv4Cidr → List ℕ → Option ℕ × IpPool
pop_first cidr [] = (none, record { cidr = cidr; free = [] })
pop_first cidr (ip ∷ rest) = (some ip, record { cidr = cidr; free = rest })

-- `IpPool::allocate`.
unfoldable pub allocate : IpPool → Option ℕ × IpPool
allocate p = pop_first p.cidr p.free

-- `IpPool::release`.
unfoldable pub release : IpPool → ℕ → IpPool
release p ip = record p { free = insert ip p.free }

-- `IpPool::count_free`.
unfoldable pub count_free : IpPool → ℕ
count_free p = length p.free

-- `IpPool::expand`: the new pool, and whether the result is `Ok`.
unfoldable pub expand : IpPool → Ipv4Cidr → Checked (IpPool × Bool)
expand p new_cidr = do
  old_bits ← sub32 32 p.cidr.prefix
  old_size ← shl1 old_bits
  bits ← sub32 32 new_cidr.prefix
  new_size ← shl1 bits
  next ← add32 p.cidr.network old_size
  if next == new_cidr.network
      then (fill new_size 0 new_cidr.network p.free >>= λ free. ok (record p { free = free }, true))
      else ok (p, false)

-- `window.iter().enumerate().all(|(i, &v)| v == start + i)`
unfoldable pub consecutive : ℕ → List ℕ → Bool
consecutive start [] = true
consecutive start (v ∷ vs) = v == start && consecutive (suc start) vs

-- The loop over `windows(subnet_size)`. The size is a power of two, so `start & (size - 1)` is the
-- remainder.
unfoldable pub find_block : ℕ → List ℕ → Option ℕ
unfolding consecutive
find_block size [] = none
find_block size (start ∷ rest) =
    let later = find_block size rest in
    if ltb (length (start ∷ rest)) size
    then none
    else if start % size == 0 && consecutive start (take size (start ∷ rest))
    then some start
    else later

abbrev pub take_block : IpPool → ℕ → ℕ → Option ℕ → Checked (Option Ipv4Cidr × IpPool)
take_block p prefix size none = ok (none, p)
take_block p prefix size (some start) = do
  end ← add32 start size
  ok (
    some (record { network = start; prefix = prefix }),
    record p { free = remove_range (end - start) start p.free },
  )

-- `IpPool::allocate_subnet`.
unfoldable pub allocate_subnet : IpPool → ℕ → Checked (Option Ipv4Cidr × IpPool)
allocate_subnet p subnet_prefix = do
  bits ← sub32 32 subnet_prefix
  size ← shl1 bits
  if ltb (length p.free) size
      then ok (none, p)
      else take_block p subnet_prefix size (find_block size p.free)
