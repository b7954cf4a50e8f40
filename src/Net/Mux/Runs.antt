-- ===== src/Net/Mux/Runs.antt =====
-- Concrete runs of `NetMux`, and the theorems at concrete inputs.
use z8s.Base.{◌≡◌, refl, true, false, none, some, [], ◌∷◌}
use z8s.Base.Text.{codes}
use z8s.Base.Checked.{ok}
use z8s.Net.Ipv4.{parse, mask_off}
use z8s.Net.Pool
use z8s.Net.Pool.{IpPool, count_free}
use z8s.Net.Mux.{NetMux, Links}
use z8s.Net.Mux.Veth.{veth_name_from_uid, clean_orphan_veths}

abbrev pod_pool : IpPool
pod_pool = record { cidr = record { network = 16; prefix = 28 }; free = 18 ∷ 19 ∷ [] }

-- A subnet carved out of the pod CIDR, whose address 26 was handed out.
abbrev web_pool : IpPool
web_pool = record { cidr = record { network = 24; prefix = 29 }; free = 27 ∷ [] }

abbrev mux : NetMux
mux = record {
  pool = pod_pool;
  subnet_pools = (codes "web", web_pool) ∷ [];
  prefix = 28;
  gateway = 17;
}

abbrev rest_pool : IpPool
rest_pool = record pod_pool { free = 19 ∷ [] }

allocated : Pool.allocate pod_pool ≡ (some 18, rest_pool)
unfolding Pool.allocate
allocated = refl

abbrev no_route : Links
no_route = record {
  create_pod_veth = some (7, 8);
  bring_up_veth = true;
  add_pod_host_route = false;
}

abbrev no_veth : Links
no_veth = record { create_pod_veth = none; bring_up_veth = true; add_pod_host_route = true }

web_cidr : parse (codes "10.42.0.0/29") ≡ ok (some (record { network = 170524672; prefix = 29 }))
unfolding parse mask_off
web_cidr = refl

-- Two pods without any further hexadecimal digit in their names have one interface name.
names_collide :
    (veth_name_from_uid (codes "Pod/default/nginx") ≡ codes "veth-ddefa")
    × (veth_name_from_uid (codes "Pod/default/mysql") ≡ codes "veth-ddefa")
unfolding veth_name_from_uid
names_collide = (refl, refl)

-- At startup no pod is active, and every interface of the kind is deleted.
all_cleaned :
    clean_orphan_veths (some ((codes "veth-ddefa", 4) ∷ (codes "veth-1", 9) ∷ [])) []
    ≡ some (4 ∷ 9 ∷ [])
unfolding clean_orphan_veths
all_cleaned = refl
