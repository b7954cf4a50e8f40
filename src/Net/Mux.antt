-- ===== src/Net/Mux.antt =====
-- src/netmux/mod.rs: the pod network's pools. The kernel's answers to the veth and route calls are
-- arguments.
pub mod Release
pub mod Attach
pub mod Veth
mod Runs
use z8s.Base.{
  ℕ, zero, suc, ◌+◌, ◌-◌, ◌*◌, ◌/◌, ◌%◌, ◌^◌, ◌≤◌, ◌<◌, min, max, ◌≡◌, refl, sym, ap, ◌∙◌, ◌≢◌, ◌↔◌,
  ◌⊎◌, inl, inr, Bool, true, false, not, ◌&&◌, ◌||◌, Option, none, some, List, [], ◌∷◌, ◌++◌, map,
  arith, dec_lt, ltb, leb, ◌==◌, if◌then◌else◌, Bool-cases, Option-cases, unwrap_or, is_some,
  length, get_elem?, take, drop, length-append, any, all, All,
}
use z8s.Base.Text.{Text}
use z8s.Base.Dict
use z8s.Base.Dict.{Dict}
use z8s.Base.Checked.{Checked, ok, overflow, ◌>>=◌, add32}
use z8s.Net.Ipv4.{Ipv4Cidr, parse, contains}
use z8s.Net.Pool
use z8s.Net.Pool.{IpPool}

pub record NetMux : Type 0 where
  pub pool : IpPool
  pub subnet_pools : Dict IpPool
  pub prefix : ℕ
  pub gateway : ℕ

abbrev from_cidr : Option Ipv4Cidr → Checked (Option NetMux)
from_cidr none = ok none
from_cidr (some cidr) = do
  gateway ← add32 cidr.network 1
  pool ← Pool.new cidr
  ok (some (record { pool = pool; subnet_pools = []; prefix = cidr.prefix; gateway = gateway }))

-- `NetMux::new`, with `derive_gateway`.
unfoldable pub new : Text → Checked (Option NetMux)
new pod_cidr = parse pod_cidr >>= from_cidr

-- `allocate_ip`.
unfoldable pub allocate_ip : NetMux → Option ℕ × NetMux
allocate_ip m = let (ip, pool) = Pool.allocate m.pool in (ip, record m { pool = pool })

-- The loop of `release_ip` over the subnet pools: the first whose CIDR has the address takes it.
unfoldable pub release_subnets : ℕ → Dict IpPool → Checked (Dict IpPool)
release_subnets ip [] = ok []
release_subnets ip ((name, p) ∷ pools) =
    let later = release_subnets ip pools in
    contains p.cidr ip >>= λ here.
    if here
    then ok ((name, Pool.release p ip) ∷ pools)
    else (later >>= λ rest. ok ((name, p) ∷ rest))

-- `release_ip`.
unfoldable pub release_ip : NetMux → ℕ → Checked NetMux
release_ip m ip = do
  pools ← release_subnets ip m.subnet_pools
  ok (record m { pool = Pool.release m.pool ip; subnet_pools = pools })

abbrev registered : NetMux → Text → Option Ipv4Cidr → Checked (NetMux × Bool)
registered m name none = ok (m, false)
registered m name (some cidr) = do
  pool ← Pool.new cidr
  ok (record m { subnet_pools = Dict.put name pool m.subnet_pools }, true)

-- `register_subnet_cidr`: the new state, and whether the result is `Ok`.
unfoldable pub register_subnet_cidr : NetMux → Text → Text → Checked (NetMux × Bool)
register_subnet_cidr m name cidr_str = parse cidr_str >>= registered m name

abbrev allocate_from : NetMux → Text → Option IpPool → Option ℕ × NetMux
allocate_from m name none = (none, m)
allocate_from m name (some p) =
    let (ip, p') = Pool.allocate p in
    (ip, record m { subnet_pools = Dict.put name p' m.subnet_pools })

-- The first step of `attach_pod`: an address of the named subnet, or of the pod CIDR.
unfoldable pub pick_ip : NetMux → Option Text → Option ℕ × NetMux
pick_ip m none = allocate_ip m
pick_ip m (some name) = allocate_from m name (Dict.get name m.subnet_pools)

-- The kernel's answers: the interface indices of a new veth pair, and whether the host side came
-- up and got its route.
pub record Links : Type 0 where
  pub create_pod_veth : Option (ℕ × ℕ)
  pub bring_up_veth : Bool
  pub add_pod_host_route : Bool

abbrev Attached : Type 0
Attached = NetMux × Option (ℕ × ℕ × ℕ)

-- `rollback_veth` gives the address back; what it asks of the kernel cannot fail it.
abbrev rollback_veth : NetMux → ℕ → Checked Attached
rollback_veth m ip = release_ip m ip >>= λ m'. ok (m', none)

abbrev link_pod : NetMux → ℕ → Links → Option (ℕ × ℕ) → Checked Attached
link_pod m ip k none = ok (m, none)
link_pod m ip k (some (host_idx, peer_idx)) =
    if not k.bring_up_veth
    then rollback_veth m ip
    else if not k.add_pod_host_route
    then rollback_veth m ip
    else ok (m, some (ip, host_idx, peer_idx))

abbrev attach_with : Links → Option ℕ × NetMux → Checked Attached
attach_with k (none, m) = ok (m, none)
attach_with k (some ip, m) = link_pod m ip k k.create_pod_veth

-- `attach_pod`: the new state, and the address with the interface indices if the result is `Ok`.
unfoldable pub attach_pod : NetMux → Option Text → Links → Checked Attached
unfolding pick_ip
attach_pod m subnet k = attach_with k (pick_ip m subnet)

-- `detach_pod`: failures of the kernel calls are only logged.
unfoldable pub detach_pod : NetMux → ℕ → Checked NetMux
detach_pod m pod_ip = release_ip m pod_ip
