-- ===== src/Resource/Types.antt =====
-- The Kubernetes types and those of src/netmux/crds.rs, with the fields that the modelled code reads
-- or writes.
use z8s.Base.{ℕ, Bool, Option, List}
use z8s.Base.Text.{Text}
use z8s.Base.Dict.{Dict}
use z8s.Base.Int.{ℤ}

pub record OwnerReference : Type 0 where
  pub api_version : Text
  pub kind : Text
  pub name : Text
  pub uid : Text
  pub controller : Option Bool
  pub block_owner_deletion : Option Bool

pub record ObjectMeta : Type 0 where
  pub name : Option Text
  pub namespace : Option Text
  pub uid : Option Text
  pub labels : Option (Dict Text)
  pub owner_references : Option (List OwnerReference)

pub record ContainerPort : Type 0 where
  pub name : Option Text
  pub container_port : ℕ

-- `EnvFromSource`, with the names of what it refers to.
pub record EnvFromSource : Type 0 where
  pub prefix : Option Text
  pub config_map_ref : Option Text
  pub secret_ref : Option Text

pub record VolumeMount : Type 0 where
  pub name : Text
  pub mount_path : Text
  pub sub_path : Option Text
  pub read_only : Option Bool

-- `Volume`: the path of `host_path`, whether there is an `empty_dir`, and the names that the other
-- sources hold; that of a secret is optional.
pub record Volume : Type 0 where
  pub name : Text
  pub host_path : Option Text
  pub empty_dir : Bool
  pub config_map : Option Text
  pub secret : Option (Option Text)
  pub persistent_volume_claim : Option Text

pub record Container : Type 0 where
  pub name : Text
  pub volume_mounts : Option (List VolumeMount)
  pub env_from : Option (List EnvFromSource)
  pub image : Option Text
  pub ports : Option (List ContainerPort)

pub record PodSpec : Type 0 where
  pub containers : List Container
  pub init_containers : Option (List Container)
  pub restart_policy : Option Text
  pub volumes : Option (List Volume)

pub record Pod : Type 0 where
  pub metadata : ObjectMeta
  pub spec : Option PodSpec

pub record PodTemplateSpec : Type 0 where
  pub metadata : Option ObjectMeta
  pub spec : Option PodSpec

pub record DeploymentSpec : Type 0 where
  pub replicas : Option ℤ
  pub match_labels : Option (Dict Text)
  pub template : PodTemplateSpec

pub record Deployment : Type 0 where
  pub metadata : ObjectMeta
  pub spec : Option DeploymentSpec

pub data IntOrString : Type 0 where
  int : ℤ → IntOrString
  string : Text → IntOrString

pub record ServicePort : Type 0 where
  pub port : ℤ
  pub target_port : Option IntOrString
  pub node_port : Option ℤ

pub record ServiceSpec : Type 0 where
  pub type_ : Option Text
  pub cluster_ip : Option Text
  pub external_name : Option Text
  pub selector : Option (Dict Text)
  pub ports : Option (List ServicePort)

pub record Service : Type 0 where
  pub metadata : ObjectMeta
  pub spec : Option ServiceSpec

-- `ObjectReference`, and the parts of volumes and claims. A `Quantity` is its text.
pub record ObjectReference : Type 0 where
  pub kind : Option Text
  pub name : Option Text
  pub namespace : Option Text

pub record PersistentVolumeSpec : Type 0 where
  pub host_path : Option Text
  pub claim_ref : Option ObjectReference
  pub capacity : Option (Dict Text)
  pub access_modes : Option (List Text)

pub record PersistentVolume : Type 0 where
  pub metadata : ObjectMeta
  pub spec : Option PersistentVolumeSpec
  pub status_phase : Option (Option Text)

pub record ClaimStatus : Type 0 where
  pub phase : Option Text
  pub capacity : Option (Dict Text)
  pub access_modes : Option (List Text)

pub record ClaimSpec : Type 0 where
  pub volume_name : Option Text
  pub storage_class_name : Option Text
  pub requests : Option (Dict Text)
  pub access_modes : Option (List Text)

pub record PersistentVolumeClaim : Type 0 where
  pub metadata : ObjectMeta
  pub spec : Option ClaimSpec
  pub status : Option ClaimStatus

-- `values` is the field `data`.
pub record ConfigMap : Type 0 where
  pub metadata : ObjectMeta
  pub values : Option (Dict Text)
  pub binary_data : Option (Dict Text)

-- `values` is the field `data`, bytes here, where `string_data` is text.
pub record Secret : Type 0 where
  pub metadata : ObjectMeta
  pub values : Option (Dict Text)
  pub string_data : Option (Dict Text)

-- A resource of which the modelled code reads the metadata alone.
pub record Plain : Type 0 where
  pub metadata : ObjectMeta

-- `LabelSelectorRequirement` and `LabelSelector` of Kubernetes.
pub record LabelSelectorRequirement : Type 0 where
  pub key : Text
  pub operator : Text
  pub values : Option (List Text)

pub record LabelSelector : Type 0 where
  pub match_labels : Option (Dict Text)
  pub match_expressions : Option (List LabelSelectorRequirement)

-- The network kinds of src/netmux/crds.rs, and the parts of ingresses and network policies.
pub record VNetSpec : Type 0 where
  pub cidr : Option Text
  pub internet_access : Bool

pub record VNet : Type 0 where
  pub metadata : ObjectMeta
  pub spec : VNetSpec

pub record SubnetSpec : Type 0 where
  pub vnet : Text
  pub cidr : Text

pub record Subnet : Type 0 where
  pub metadata : ObjectMeta
  pub spec : SubnetSpec

pub record NsgRule : Type 0 where
  pub name : Text
  pub action : Text
  pub src_cidrs : List Text
  pub dst_cidrs : List Text
  pub ports : List Text
  pub protocol : Text
  pub priority : ℕ

pub record NsgSpec : Type 0 where
  pub target_vnets : List Text
  pub rules : List NsgRule

pub record Nsg : Type 0 where
  pub metadata : ObjectMeta
  pub spec : NsgSpec

-- The port is absent, or has a number or not.
pub record IngressBackend : Type 0 where
  pub name : Text
  pub port : Option (Option ℤ)

pub record HttpPath : Type 0 where
  pub service : Option IngressBackend

pub record IngressRule : Type 0 where
  pub host : Option Text
  pub http : Option (List HttpPath)

pub record IngressSpec : Type 0 where
  pub rules : Option (List IngressRule)

pub record Ingress : Type 0 where
  pub metadata : ObjectMeta
  pub spec : Option IngressSpec

pub record IpBlock : Type 0 where
  pub cidr : Text
  pub except : Option (List Text)

pub record PolicyPeer : Type 0 where
  pub pod_selector : Option LabelSelector
  pub namespace_selector : Option LabelSelector
  pub ip_block : Option IpBlock

pub record PolicyRule : Type 0 where
  pub from : Option (List PolicyPeer)

pub record NetworkPolicySpec : Type 0 where
  pub ingress : Option (List PolicyRule)

pub record NetworkPolicy : Type 0 where
  pub metadata : ObjectMeta
  pub spec : Option NetworkPolicySpec
