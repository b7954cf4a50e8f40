-- ===== src/Config.antt =====
-- src/config.rs: the configuration, and the addresses of services.
pub mod Args
pub mod Given
mod Runs
use z8s.Base.{
  ℕ, zero, suc, ◌+◌, ◌-◌, ◌*◌, ◌/◌, ◌%◌, ◌^◌, ◌≤◌, ◌<◌, min, max, ◌≡◌, refl, sym, ap, ◌∙◌, ◌≢◌, ◌↔◌,
  ◌⊎◌, inl, inr, Bool, true, false, not, ◌&&◌, ◌||◌, Option, none, some, List, [], ◌∷◌, ◌++◌, map,
  arith, dec_lt, ltb, leb, ◌==◌, if◌then◌else◌, Bool-cases, Option-cases, unwrap_or, is_some,
  length, get_elem?, take, drop, length-append, any, all, All, All-append,
}
use z8s.Base.{bit_or}
use z8s.Base.Text.{Text, codes}
use z8s.Net.Ipv4.{from_octets}
use z8s.Base.Numbers.{decimal}
use z8s.Base.Checked.{Checked, ok, ◌>>=◌, shl1}

-- `service_cidr_base` is the u32 value of its four bytes.
pub record Config : Type 0 where
  pub api_port : ℕ
  pub service_cidr_base : ℕ
  pub service_cidr_prefix : ℕ
  pub cluster_domain : Text
  pub dns_port : Option ℕ
  pub manifests_dir : Text
  pub data_dir : Option Text
  pub pod_cidr : Text
  pub vnet_cidr_size : ℕ
  pub node_name : Text
  pub node_ip : Text
  pub peers : List (Text × Text)
  pub join_token : Option Text

-- `Config::default`, with what the environment says of the host's name and address.
unfoldable pub default_config : Option Text → Option Text → Config
default_config hostname node_ip = record {
  api_port = 6443;
  service_cidr_base = from_octets 10 96 0 0;
  service_cidr_prefix = 16;
  cluster_domain = codes "cluster.local";
  dns_port = none;
  manifests_dir = codes "/etc/z8s/manifests";
  data_dir = none;
  pod_cidr = codes "10.100.0.0/16";
  vnet_cidr_size = 20;
  node_name = unwrap_or hostname (codes "node-0");
  node_ip = unwrap_or node_ip (codes "127.0.0.1");
  peers = [];
  join_token = none;
}

-- `{}.{}.{}.{}` of the four bytes of an address.
abbrev pub dotted : ℕ → Text
dotted ip =
    decimal (ip / 2 ^ 24 % 256)
    ++ (b'.'
        ∷ (decimal (ip / 2 ^ 16 % 256)
            ++ (b'.' ∷ (decimal (ip / 2 ^ 8 % 256) ++ (b'.' ∷ decimal (ip % 256))))))

-- `alloc_cluster_ip`: the address for a value of the counter, and the counter's next value.
unfoldable pub alloc_cluster_ip : Config → ℕ → Checked (Text × ℕ)
alloc_cluster_ip cfg counter = do
  hosts ← shl1 (32 - cfg.service_cidr_prefix)
  let max_hosts = hosts - 2
  let idx = counter % max max_hosts 1
  ok (dotted (bit_or cfg.service_cidr_base idx), (counter + 1) % 2 ^ 32)
