-- ===== src/Net/Mux/Attach.antt =====
-- `attach_pod` of src/netmux/mod.rs, where the kernel refuses a step.
use z8s.Base.{ℕ, ◌+◌, ◌≡◌, false, ◌&&◌, none, some, arith, if◌then◌else◌}
use z8s.Base.Set
use z8s.Base.Set.{IsAscending}
use z8s.Base.Checked.{ok}
use z8s.Net.Pool
use z8s.Net.Pool.{IpPool, count_free}
use z8s.Net.Pool.Laws.{Allocates, allocate_lem, release-allocate}
use z8s.Net.Mux.{NetMux, Links, allocate_ip, release_ip, attach_pod}
use z8s.Net.Mux.Release.{AreParsed, NoneHolds, release_subnets_none}

module _ (m : NetMux) (ip : ℕ) (p' : IpPool) (asc : IsAscending m.pool.free)
    (taken : Pool.allocate m.pool ≡ (some ip, p')) where
  rolled_back :
      AreParsed m.subnet_pools
      → NoneHolds ip m.subnet_pools
      → release_ip (record m { pool = p' }) ip ≡ ok m
  unfolding release_ip
  rolled_back v h =
      rw (release_subnets_none ip m.subnet_pools v h, release-allocate m.pool ip p' asc taken)

  -- Where no subnet has the address, a pod that asks for no subnet and whose new veth does not
  -- come up or gets no route leaves the network's state exactly as it was; one whose kernel calls
  -- all succeed gets the least free address.
  pub attach_all_or_nothing :
      (k : Links) (host_idx peer_idx : ℕ)
      → AreParsed m.subnet_pools
      → NoneHolds ip m.subnet_pools
      → k.create_pod_veth ≡ some (host_idx, peer_idx)
      → attach_pod m none k ≡ (
          if k.bring_up_veth && k.add_pod_host_route
          then ok (record m { pool = p' }, some (ip, host_idx, peer_idx))
          else ok (m, none))
  unfolding attach_pod allocate_ip
  attach_all_or_nothing k host_idx peer_idx v h e = rw (taken, e) (ground (arith, rolled_back v h))

  -- Where the veth pair cannot be created, the pod is refused and its address is lost: it is no
  -- longer free, and one address less is.
  pub attach_leaks :
      (k : Links)
      → k.create_pod_veth ≡ none
      → (m' : NetMux) × (attach_pod m none k ≡ ok (m', none))
        × (Set.contains m'.pool.free ip ≡ false)
        × (count_free m.pool ≡ count_free m'.pool + 1)
  unfolding attach_pod allocate_ip
  attach_leaks k e =
      let a : Allocates m.pool (some ip, p') = rw taken at (allocate_lem m.pool asc) in
      (record m { pool = p' }, rw (taken, e), ground (arith, a.2 ip), a.3)
