-- ===== src/Net/Services.antt =====
-- src/components/network/service.rs: `NetworkManager`, over the resource store, the running
-- containers and the nftables engine.
pub mod Addressed
pub mod Backends
pub mod Removal
pub mod Growth
pub mod Kinds
pub mod Routing
mod Runs
use z8s.Base.{
  ℕ, zero, suc, ◌+◌, ◌-◌, ◌*◌, ◌/◌, ◌%◌, ◌^◌, ◌≤◌, ◌<◌, min, max, ◌≡◌, refl, sym, ap, ◌∙◌, ◌≢◌, ◌↔◌,
  ◌⊎◌, inl, inr, Bool, true, false, not, ◌&&◌, ◌||◌, Option, none, some, List, [], ◌∷◌, ◌++◌, map,
  arith, dec_lt, ltb, leb, ◌==◌, if◌then◌else◌, Bool-cases, Option-cases, unwrap_or, is_some,
  length, get_elem?, take, drop, length-append, any, all, All, All-append,
}
use z8s.Base.Text.{Text, codes, text_eq, starts_with}
use z8s.Base.Text.Split.{rsplit_once}
use z8s.Base.Numbers.{decimal, decimal_int, parse_uint}
use z8s.Base.Int.{ℤ, pos, negsuc, as_u16}
use z8s.Base.Dict
use z8s.Base.Dict.{Dict}
use z8s.Net.Ipv4.{parse_addr, from_octets}
use z8s.Net.Nft.{Kernel, NftEngine, add_dnat, add_nodeport_dnat, remove_dnat}
use z8s.Resource.{
  AnyResource, Pod, Service, ServiceSpec, ServicePort, IntOrString, int, string, Container,
  ContainerPort, pod, service, namespace, name, extract_containers,
}
use z8s.Resource.Store.{ResourceStore, ResourceTracker, get_by_kind}
use z8s.Scheduler.Process.{RunningContainer, pod_ip}
use z8s.Compute.Deployment.{labels_match, has_value}

-- The set of proxies holds its keys once each.
pub record NetworkManager : Type 0 where
  pub proxies : Dict (Unit {0})
  pub nft : NftEngine

abbrev pub named : Text → ContainerPort → Option ℕ → Option ℕ
named n p rest = if has_value p.name n then some (p.container_port % 2 ^ 16) else rest

abbrev pub port_named : Text → List ContainerPort → Option ℕ → Option ℕ
port_named n [] rest = rest
port_named n (p ∷ ports) rest = named n p (port_named n ports rest)

abbrev pub among : Text → List Container → Option ℕ → Option ℕ
among n [] rest = rest
among n (c ∷ containers) rest = port_named n (unwrap_or c.ports []) (among n containers rest)

unfoldable pub resolve_among : Text → Text → List ResourceTracker → Option ℕ
resolve_among ns n [] = parse_uint 65535 n
resolve_among ns n (t ∷ ts) =
    let rest = resolve_among ns n ts in
    if text_eq (namespace t.resource) ns then among n (extract_containers t.resource) rest else rest

-- `resolve_named_port`: any pod of the namespace serves.
unfoldable pub resolve_named_port : ResourceStore → Text → Text → Option ℕ
unfolding resolve_among
resolve_named_port store ns n = resolve_among ns n (get_by_kind (codes "Pod") store)

abbrev pub push_backend : ℕ → Option ℕ → List (ℕ × ℕ) → List (ℕ × ℕ)
push_backend port none backends = backends
push_backend port (some ip) backends = (ip, port) ∷ backends

-- What a tracker adds to the backends in front of those of the others.
abbrev pub backend_of :
    Dict RunningContainer → Dict Text → Text → ℕ → AnyResource → List (ℕ × ℕ) → List (ℕ × ℕ)
backend_of running selector ns port (pod p) rest =
    if text_eq (unwrap_or p.metadata.namespace (codes "default")) ns
    then (if labels_match selector (unwrap_or p.metadata.labels [])
        then push_backend port (pod_ip (unwrap_or p.metadata.name []) running) rest
        else rest)
    else rest
backend_of running selector ns port _ rest = rest

unfoldable pub backends_among :
    Dict RunningContainer → Dict Text → Text → ℕ → List ResourceTracker → List (ℕ × ℕ)
backends_among running selector ns port [] = []
backends_among running selector ns port (t ∷ ts) =
    backend_of running selector ns port t.resource (backends_among running selector ns port ts)

-- `resolve_backend_pods`.
unfoldable pub resolve_backend_pods :
    ResourceStore → Dict RunningContainer → Dict Text → Text → ℕ → List (ℕ × ℕ)
unfolding backends_among
resolve_backend_pods store running selector ns port =
    backends_among running selector ns port (get_by_kind (codes "Pod") store)

-- `proxies.remove(&key)` and `proxies.insert(key)`.
abbrev pub note_proxy : Text → Dict (Unit {0}) → Dict (Unit {0})
note_proxy key proxies = Dict.put key tt (Dict.remove key proxies)

abbrev pub default_ip : ℕ
default_ip = from_octets 10 96 0 1

-- `format!("{}/{}", ns, name)`.
abbrev pub service_key : Text → Text → Text
service_key ns n = ns ++ (b'/' ∷ n)

abbrev pub clusterip_key : Text → ℤ → Text
clusterip_key key port = key ++ (codes ":clusterip:" ++ decimal_int port)

abbrev pub nodeport_key : Text → ℕ → Text
nodeport_key key node_port = key ++ (codes ":nodeport:" ++ decimal node_port)

abbrev pub is_headless : Text → Bool
is_headless cluster_ip = text_eq cluster_ip [] || text_eq cluster_ip (codes "None")

abbrev pub has_nodeport : Text → Bool
has_nodeport svc_type =
    text_eq svc_type (codes "NodePort") || text_eq svc_type (codes "LoadBalancer")

abbrev pub selector_of : Option ServiceSpec → Dict Text
selector_of none = []
selector_of (some spec) = unwrap_or spec.selector []

abbrev pub has_entries : Dict Text → Bool
has_entries [] = false
has_entries (entry ∷ selector) = true

module _ (k : Kernel) (store : ResourceStore) (running : Dict RunningContainer) where
  -- The container port behind a service port.
  unfoldable pub container_port : Text → ServicePort → IntOrString → ℕ
  container_port ns p (int n) = as_u16 n
  container_port ns p (string n) = unwrap_or (resolve_named_port store ns n) (as_u16 p.port)

  unfoldable pub target_of : Text → ServicePort → ℕ
  unfolding container_port
  target_of ns p = container_port ns p (unwrap_or p.target_port (int p.port))

  unfoldable pub backends_of : Dict Text → Text → ServicePort → List (ℕ × ℕ)
  backends_of selector ns p = resolve_backend_pods store running selector ns (target_of ns p)

  -- The first half of the loop's body. An error of the engine is only logged.
  unfoldable pub bind_clusterip :
      Text → Dict Text → Text → Text → ServicePort → NetworkManager → NetworkManager
  bind_clusterip key selector ns cluster_ip p m = if is_headless cluster_ip then m else (record m {
    proxies = note_proxy (clusterip_key key p.port) m.proxies;
    nft =
        (add_dnat k (unwrap_or (parse_addr cluster_ip) default_ip) (as_u16 p.port)
          (backends_of selector ns p) m.nft).0;
  })

  abbrev pub publish :
      Text → Dict Text → Text → Text → ServicePort → Option ℤ → NetworkManager → NetworkManager
  publish key selector ns cluster_ip p none m = m
  publish key selector ns cluster_ip p (some n) m = record m {
    proxies = note_proxy (nodeport_key key (as_u16 n)) m.proxies;
    nft =
        (add_nodeport_dnat k (as_u16 n) (backends_of selector ns p)
          (add_dnat k (unwrap_or (parse_addr cluster_ip) default_ip) (as_u16 p.port)
            (backends_of selector ns p) m.nft).0).0;
  }

  -- The second half.
  unfoldable pub bind_nodeport :
      Text → Dict Text → Text → Text → Text → ServicePort → NetworkManager → NetworkManager
  bind_nodeport key selector ns cluster_ip svc_type p m =
      if has_nodeport svc_type then publish key selector ns cluster_ip p p.node_port m else m

  unfoldable pub bind_ports :
      Text → Dict Text → Text → Text → Text → List ServicePort → NetworkManager → NetworkManager
  bind_ports key selector ns cluster_ip svc_type [] m = m
  bind_ports key selector ns cluster_ip svc_type (p ∷ ports) m =
      bind_ports key selector ns cluster_ip svc_type ports (
        bind_nodeport key selector ns cluster_ip svc_type p
          (bind_clusterip key selector ns cluster_ip p m))

  abbrev pub sync_spec : Text → Text → ServiceSpec → Dict Text → NetworkManager → NetworkManager
  sync_spec key ns spec [] m = m
  sync_spec key ns spec (entry ∷ selector) m =
      bind_ports key (entry ∷ selector) ns (unwrap_or spec.cluster_ip [])
        (unwrap_or spec.type_ (codes "ClusterIP")) (unwrap_or spec.ports []) m

  abbrev pub sync_with : Text → Text → Option ServiceSpec → NetworkManager → NetworkManager
  sync_with key ns none m = m
  sync_with key ns (some spec) m = sync_spec key ns spec (unwrap_or spec.selector []) m

  -- `sync_service_proxies`, which is `sync_service` too.
  unfoldable pub sync_service_proxies : Service → NetworkManager → NetworkManager
  unfolding bind_ports bind_clusterip bind_nodeport
  sync_service_proxies svc m =
      sync_with
        (service_key (unwrap_or svc.metadata.namespace (codes "default"))
          (unwrap_or svc.metadata.name []))
        (unwrap_or svc.metadata.namespace (codes "default")) svc.spec m

  abbrev pub sync_if : Text → Dict Text → AnyResource → NetworkManager → NetworkManager
  sync_if ns pod_labels (service svc) m =
      if text_eq (unwrap_or svc.metadata.namespace (codes "default")) ns
        && (has_entries (selector_of svc.spec) && labels_match (selector_of svc.spec) pod_labels)
      then sync_service_proxies svc m
      else m
  sync_if ns pod_labels _ m = m

  unfoldable pub sync_all :
      Text → Dict Text → List ResourceTracker → NetworkManager → NetworkManager
  sync_all ns pod_labels [] m = m
  sync_all ns pod_labels (t ∷ ts) m = sync_all ns pod_labels ts (sync_if ns pod_labels t.resource m)

  -- `sync_services_for_labels`.
  unfoldable pub sync_services_for_labels : Text → Dict Text → NetworkManager → NetworkManager
  unfolding sync_all
  sync_services_for_labels ns pod_labels m =
      sync_all ns pod_labels (get_by_kind (codes "Service") store) m

-- What stands behind the last colon, or all of it.
abbrev pub last_part : Text → Text
last_part key = elim (rsplit_once b':' key) [ none ↦ key | some (_, part) ↦ part ]

abbrev pub keys_with : Text → Dict (Unit {0}) → List Text
keys_with prefix [] = []
keys_with prefix ((key, _) ∷ proxies) =
    let rest = keys_with prefix proxies in if starts_with key prefix then key ∷ rest else rest

abbrev pub cluster_ip_of : Option ServiceSpec → Option Text
cluster_ip_of none = none
cluster_ip_of (some spec) = spec.cluster_ip

abbrev pub addr_of : Option Text → Option ℕ
addr_of none = none
addr_of (some cluster_ip) = parse_addr cluster_ip

module _ (k : Kernel) (store : ResourceStore) where
  abbrev pub withdraw_at : Option ℕ → Option ℕ → NftEngine → NftEngine
  withdraw_at (some ip) (some port) e = (remove_dnat k ip port e).0
  withdraw_at _ _ e = e

  abbrev pub withdraw : Text → AnyResource → NftEngine → NftEngine
  withdraw key (service svc) e =
      withdraw_at (addr_of (cluster_ip_of svc.spec)) (parse_uint 65535 (last_part key)) e
  withdraw key _ e = e

  unfoldable pub withdraw_all : Text → Text → Text → List ResourceTracker → NftEngine → NftEngine
  withdraw_all ns n key [] e = e
  withdraw_all ns n key (t ∷ ts) e = withdraw_all ns n key ts (
      if text_eq (namespace t.resource) ns && text_eq (name t.resource) n
      then withdraw key t.resource e
      else e)

  unfoldable pub remove_keys : Text → Text → List Text → NetworkManager → NetworkManager
  unfolding withdraw_all
  remove_keys ns n [] m = m
  remove_keys ns n (key ∷ keys) m = remove_keys ns n keys (record m {
    proxies = Dict.remove key m.proxies;
    nft = withdraw_all ns n key (get_by_kind (codes "Service") store) m.nft;
  })

  -- `remove_service`.
  unfoldable pub remove_service : Text → Text → NetworkManager → NetworkManager
  unfolding remove_keys
  remove_service ns n m = remove_keys ns n (keys_with (service_key ns n) m.proxies) m

  -- `on_delete`.
  unfoldable pub on_delete : AnyResource → NetworkManager → NetworkManager
  unfolding remove_service
  on_delete r m = remove_service (namespace r) (name r) m

-- `on_apply`.
unfoldable pub on_apply :
    Kernel → ResourceStore → Dict RunningContainer → AnyResource → NetworkManager → NetworkManager
unfolding sync_service_proxies
on_apply k store running (service svc) m = sync_service_proxies k store running svc m
on_apply k store running _ m = m
