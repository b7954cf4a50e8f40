-- ===== src/Resource.antt =====
-- src/types.rs: the resources and what identifies them. Of the Kubernetes types, which are
-- third-party code, the records hold the fields that the modelled code reads or writes.
mod Types
pub mod Keys
pub mod Quantity
pub mod Store
pub mod Yaml
pub use Types.*
use z8s.Base.{
  ℕ, zero, suc, ◌+◌, ◌-◌, ◌*◌, ◌/◌, ◌%◌, ◌^◌, ◌≤◌, ◌<◌, min, max, ◌≡◌, refl, sym, ap, ◌∙◌, ◌≢◌, ◌↔◌,
  ◌⊎◌, inl, inr, Bool, true, false, not, ◌&&◌, ◌||◌, Option, none, some, List, [], ◌∷◌, ◌++◌, map,
  arith, dec_lt, ltb, leb, ◌==◌, if◌then◌else◌, Bool-cases, Option-cases, unwrap_or, is_some,
  length, get_elem?, take, drop, length-append, any, all, All, All-append,
}
use z8s.Base.Text.{Text, codes}
use z8s.Base.Dict.{Dict}
use z8s.Base.Int.{ℤ}

pub data AnyResource : Type 0 where
  pod : Pod → AnyResource
  deployment : Deployment → AnyResource
  service : Service → AnyResource
  config_map : ConfigMap → AnyResource
  secret : Secret → AnyResource
  persistent_volume : PersistentVolume → AnyResource
  persistent_volume_claim : PersistentVolumeClaim → AnyResource
  vnet : VNet → AnyResource
  subnet : Subnet → AnyResource
  nsg : Nsg → AnyResource
  route_table : Plain → AnyResource
  ingress : Ingress → AnyResource
  network_policy : NetworkPolicy → AnyResource

-- `AnyResource::metadata`.
unfoldable pub metadata : AnyResource → ObjectMeta
metadata (pod r) = r.metadata
metadata (deployment r) = r.metadata
metadata (service r) = r.metadata
metadata (config_map r) = r.metadata
metadata (secret r) = r.metadata
metadata (persistent_volume r) = r.metadata
metadata (persistent_volume_claim r) = r.metadata
metadata (vnet r) = r.metadata
metadata (subnet r) = r.metadata
metadata (nsg r) = r.metadata
metadata (route_table r) = r.metadata
metadata (ingress r) = r.metadata
metadata (network_policy r) = r.metadata

-- `AnyResource::kind`.
unfoldable pub kind : AnyResource → Text
kind (pod _) = codes "Pod"
kind (deployment _) = codes "Deployment"
kind (service _) = codes "Service"
kind (config_map _) = codes "ConfigMap"
kind (secret _) = codes "Secret"
kind (persistent_volume _) = codes "PersistentVolume"
kind (persistent_volume_claim _) = codes "PersistentVolumeClaim"
kind (vnet _) = codes "VNet"
kind (subnet _) = codes "Subnet"
kind (nsg _) = codes "NSG"
kind (route_table _) = codes "RouteTable"
kind (ingress _) = codes "Ingress"
kind (network_policy _) = codes "NetworkPolicy"

-- `AnyResource::name`.
unfoldable pub name : AnyResource → Text
unfolding metadata
name r = unwrap_or (metadata r).name (codes "<unnamed>")

-- `AnyResource::namespace`.
unfoldable pub namespace : AnyResource → Text
unfolding metadata
namespace (persistent_volume _) = []
namespace r = unwrap_or (metadata r).namespace (codes "default")

-- `AnyResource::uid`: `{kind}/{namespace}/{name}`.
unfoldable pub uid : AnyResource → Text
uid r = kind r ++ (b'/' ∷ (namespace r ++ (b'/' ∷ name r)))

abbrev pod_containers : Option PodSpec → List Container
pod_containers none = []
pod_containers (some s) = s.containers ++ unwrap_or s.init_containers []

abbrev template_of : Option DeploymentSpec → Option PodSpec
template_of none = none
template_of (some s) = s.template.spec

-- `extract_containers`.
unfoldable pub extract_containers : AnyResource → List Container
extract_containers (pod p) = pod_containers p.spec
extract_containers (deployment d) = pod_containers (template_of d.spec)
extract_containers _ = []
