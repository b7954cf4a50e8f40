-- ===== src/Config/Runs.antt =====
-- Concrete runs of the allocation of service addresses.
use z8s.Base.{◌+◌, ◌*◌, ◌^◌, ◌≡◌, refl, some, none, ◌∷◌, [], arith}
use z8s.Base.Text.{codes, text_eq}
use z8s.Base.Numbers.{decimal}
use z8s.Base.Checked.{ok, overflow, shl1}
use z8s.Config.{Config, alloc_cluster_ip, default_config}
use z8s.Config.Args
use z8s.Config.Args.{from_args, parse_cidr, trim_dots}
use z8s.Config.Given.{IsGivable, args_of, settings, from_args-settings}

abbrev cfg : Config
cfg = record {
  api_port = 7443;
  service_cidr_base = 10 * 2 ^ 24 + 96 * 2 ^ 16;
  service_cidr_prefix = 16;
  cluster_domain = codes "cluster.local";
  dns_port = some 5353;
  manifests_dir = codes "/srv/manifests";
  data_dir = none;
  pod_cidr = codes "10.42.0.0/16";
  vnet_cidr_size = 24;
  node_name = codes "node-a";
  node_ip = codes "192.168.1.2";
  peers = (codes "node-b", codes "10.0.0.2:6443") ∷ (codes "node-c", codes "10.0.0.3:6443") ∷ [];
  join_token = some (codes "secret");
}

-- The counter starts at 1. After a full round the index is 0, which is the network's own address.
addresses :
    (alloc_cluster_ip cfg 1 ≡ ok (codes "10.96.0.1", 2))
    × (alloc_cluster_ip cfg 65534 ≡ ok (codes "10.96.0.0", 65535))
    × (alloc_cluster_ip (record cfg { service_cidr_prefix = 0 }) 1 ≡ overflow)
unfolding alloc_cluster_ip decimal shl1
addresses = (refl, refl, refl)

network : parse_cidr (codes "10.42.0.0/16") ≡ some (170524672, 16)
unfolding parse_cidr
network = refl

cfg-IsGivable : IsGivable cfg
cfg-IsGivable = record {
  api_port_short = omega arith;
  base_short = omega arith;
  prefix_fits = omega arith;
  no_dot = unfold trim_dots in refl;
  pod_network = (170524672, 16);
  pod_parses = network;
  size_short = omega arith;
  dns_short = omega arith;
  peers_fit = omega arith;
}

from_args-settings_example :
    from_args (args_of (settings cfg)) (default_config (some (codes "node-a")) none) ≡ Args.ok cfg
from_args-settings_example = from_args-settings cfg (some (codes "node-a")) none cfg-IsGivable

-- An option without its value is ignored, and an unknown one ends the process.
odd_arguments :
    (from_args (codes "--port" ∷ []) cfg ≡ Args.ok cfg)
    × (from_args (codes "join" ∷ codes "ws://10.0.0.1:6443/ws/db" ∷ []) cfg ≡ Args.exit 1)
unfolding from_args text_eq
odd_arguments = (refl, refl)
