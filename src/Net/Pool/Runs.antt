-- ===== src/Net/Pool/Runs.antt =====
-- Concrete runs of `IpPool`, and the theorems at concrete inputs.
use z8s.Base.{◌-◌, ◌^◌, ◌≡◌, refl, Option, none, some, [], ◌∷◌, arith}
use z8s.Base.Set
use z8s.Base.Set.{IsAscending}
use z8s.Base.Set.Ranges.{in_range}
use z8s.Base.Checked.{ok, add32, sub32, shl1}
use z8s.Net.Ipv4.{Ipv4Cidr}
use z8s.Net.Pool.{IpPool, fill, new, allocate, allocate_subnet, find_block}
use z8s.Net.Pool.Subnets.{TakesBlock, allocate_subnet_lem}
use z8s.Net.Pool.Leases.{here, next, take, IsSound, leases-IsSound}

-- Blocks of eight addresses from 16 on.
abbrev first_eight : Ipv4Cidr
first_eight = record { network = 16; prefix = 29 }

abbrev next_eight : Ipv4Cidr
next_eight = record { network = 24; prefix = 29 }

abbrev third_eight : Ipv4Cidr
third_eight = record { network = 32; prefix = 29 }

abbrev fresh : IpPool
fresh = record { cidr = first_eight; free = 18 ∷ 19 ∷ 20 ∷ 21 ∷ 22 ∷ [] }

abbrev used : IpPool
used = record { cidr = first_eight; free = 19 ∷ 20 ∷ 21 ∷ 22 ∷ [] }

new_runs : new first_eight ≡ ok fresh
unfolding new sub32 shl1 add32 Set.insert fill
new_runs = refl

new_two :
    new (record { network = 6; prefix = 31 })
    ≡ ok (record { cidr = record { network = 6; prefix = 31 }; free = 6 ∷ 7 ∷ [] })
unfolding new sub32 shl1 add32 Set.insert fill
new_two = refl

allocate_runs : allocate fresh ≡ (some 18, used)
unfolding allocate
allocate_runs = refl

-- The block of four from 16 on lacks 16, and the one from 20 on lacks 23.
subnet_runs : allocate_subnet fresh 30 ≡ ok (none, fresh)
unfolding allocate_subnet sub32 shl1 add32 find_block Set.Ranges.remove_range
subnet_runs = refl

allocate_subnet_lem_example :
    (r : Option Ipv4Cidr × IpPool) × (allocate_subnet fresh 31 ≡ ok r)
    × TakesBlock 31 (2 ^ (32 - 31)) fresh r
allocate_subnet_lem_example =
    allocate_subnet_lem fresh 31 (omega arith) (omega arith) (omega arith) (λ x h. ground arith)

-- A pool from which everything was handed out.
abbrev drained : IpPool
drained = record { cidr = first_eight; free = [] }

leases-IsSound_example : IsSound first_eight (record { pool = used; held = 18 ∷ [] })
leases-IsSound_example =
    leases-IsSound first_eight fresh (record { pool = used; held = 18 ∷ [] }) (omega arith) new_runs
      (next here (take 18 used allocate_runs))
