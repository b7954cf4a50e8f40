-- ===== src/Resource/Yaml.antt =====
-- src/types.rs: the manifests. What serde_yaml makes of a text is a parameter.
use z8s.Base.{
  ◌≡◌, refl, sym, ap, ◌∙◌, inl, inr, true, Option, none, some, List, [], ◌∷◌, map, arith,
  if◌then◌else◌, Bool-cases, unwrap_or,
}
use z8s.Base.Text.{Text, codes, text_eq, text_eq_iff}
use z8s.Resource.{
  AnyResource, kind, pod, deployment, service, config_map, secret, persistent_volume,
  persistent_volume_claim, vnet, subnet, nsg, route_table, ingress, network_policy,
}
use z8s.Resource.Types.{
  Pod, Deployment, Service, ConfigMap, Secret, Plain, PersistentVolume, PersistentVolumeClaim, VNet,
  Subnet, Nsg, Ingress, NetworkPolicy,
}

-- `Deserializer::from_str` with `Value::deserialize` for each document, the text under the key
-- `kind` of a value, and `from_value` for each type.
pub record Yaml (V : Type 0) : Type 0 where
  pub documents : Text → List (Option V)
  pub kind_of : V → Option Text
  pub as_pod : V → Option Pod
  pub as_deployment : V → Option Deployment
  pub as_service : V → Option Service
  pub as_config_map : V → Option ConfigMap
  pub as_secret : V → Option Secret
  pub as_volume : V → Option PersistentVolume
  pub as_claim : V → Option PersistentVolumeClaim
  pub as_vnet : V → Option VNet
  pub as_subnet : V → Option Subnet
  pub as_nsg : V → Option Nsg
  pub as_route_table : V → Option Plain
  pub as_ingress : V → Option Ingress
  pub as_network_policy : V → Option NetworkPolicy

abbrev made {ℓ} : {A : Type ℓ} → (A → AnyResource) → Option A → Option AnyResource
made f none = none
made f (some a) = some (f a)

module _ {V : Type 0} (yaml : Yaml V) where
  -- The `match kind`.
  abbrev pub resource_of : Text → V → Option AnyResource
  resource_of k v =
      if text_eq k (codes "Pod")
      then made pod (yaml.as_pod v)
      else if text_eq k (codes "Deployment")
      then made deployment (yaml.as_deployment v)
      else if text_eq k (codes "Service")
      then made service (yaml.as_service v)
      else if text_eq k (codes "ConfigMap")
      then made config_map (yaml.as_config_map v)
      else if text_eq k (codes "Secret")
      then made secret (yaml.as_secret v)
      else if text_eq k (codes "PersistentVolume")
      then made persistent_volume (yaml.as_volume v)
      else if text_eq k (codes "PersistentVolumeClaim")
      then made persistent_volume_claim (yaml.as_claim v)
      else if text_eq k (codes "VNet")
      then made vnet (yaml.as_vnet v)
      else if text_eq k (codes "Subnet")
      then made subnet (yaml.as_subnet v)
      else if text_eq k (codes "NSG")
      then made nsg (yaml.as_nsg v)
      else if text_eq k (codes "RouteTable")
      then made route_table (yaml.as_route_table v)
      else if text_eq k (codes "Ingress")
      then made ingress (yaml.as_ingress v)
      else if text_eq k (codes "NetworkPolicy")
      then made network_policy (yaml.as_network_policy v)
      else none

  abbrev pub kinded : V → Option Text → Option AnyResource
  kinded v none = none
  kinded v (some k) = resource_of k v

  abbrev pub document : Option V → Option AnyResource
  document none = none
  document (some v) = kinded v (yaml.kind_of v)

  abbrev pub push_resource :
      Option AnyResource → Option (List AnyResource) → Option (List AnyResource)
  push_resource none rest = none
  push_resource (some r) none = none
  push_resource (some r) (some rest) = some (r ∷ rest)

  -- The loop over the documents: the first that fails is the error.
  unfoldable pub parse_documents : List (Option V) → Option (List AnyResource)
  parse_documents [] = some []
  parse_documents (doc ∷ docs) = push_resource (document doc) (parse_documents docs)

  -- `parse_manifest_yaml`.
  unfoldable pub parse_manifest_yaml : Text → Option (List AnyResource)
  unfolding parse_documents
  parse_manifest_yaml text = parse_documents (yaml.documents text)

  -- The kind that a document names.
  abbrev pub named_kind : Option V → Option Text
  named_kind none = none
  named_kind (some v) = yaml.kind_of v

made-kind :
    {A : Type 0} (f : A → AnyResource) (k l : Text) (a : Option A) (r : AnyResource)
    → ((x : A) → kind (f x) ≡ k)
    → text_eq l k ≡ true
    → made f a ≡ some r
    → kind r ≡ l
made-kind f k l none r g e p = absurd (ground arith)
made-kind f k l (some x) r g e p =
    ap (λ o. kind (unwrap_or o r)) (sym p) ∙ g x ∙ sym ((text_eq_iff l k).0 e)

-- One arm of the `match`, and the arms after it.
arm :
    {A : Type 0} (f : A → AnyResource) (k l : Text) (a : Option A) (r : AnyResource)
    {later : Option AnyResource}
    → ((x : A) → kind (f x) ≡ k)
    → (later ≡ some r → kind r ≡ l)
    → (if text_eq l k then made f a else later) ≡ some r
    → kind r ≡ l
arm f k l a r {later} g next p = elim (Bool-cases (text_eq l k)) [
  | inl e ↦ made-kind f k l a r g e (ap (λ b. if b then made f a else later) (sym e) ∙ p)
  | inr e ↦ next (ap (λ b. if b then made f a else later) (sym e) ∙ p)
]

module _ {V : Type 0} (yaml : Yaml V) where
  resource_of-kind :
      (k : Text) (v : V) (r : AnyResource) → resource_of yaml k v ≡ some r → kind r ≡ k
  unfolding kind
  resource_of-kind k v r p =
      arm pod (codes "Pod") k (yaml.as_pod v) r (λ x. refl)
        (arm deployment (codes "Deployment") k (yaml.as_deployment v) r (λ x. refl)
          (arm service (codes "Service") k (yaml.as_service v) r (λ x. refl)
            (arm config_map (codes "ConfigMap") k (yaml.as_config_map v) r (λ x. refl)
              (arm secret (codes "Secret") k (yaml.as_secret v) r (λ x. refl)
                (arm persistent_volume (codes "PersistentVolume") k (yaml.as_volume v) r (λ x. refl)
                  (arm persistent_volume_claim (codes "PersistentVolumeClaim") k (yaml.as_claim v) r
                    (λ x. refl)
                    (arm vnet (codes "VNet") k (yaml.as_vnet v) r (λ x. refl)
                      (arm subnet (codes "Subnet") k (yaml.as_subnet v) r (λ x. refl)
                        (arm nsg (codes "NSG") k (yaml.as_nsg v) r (λ x. refl)
                          (arm route_table (codes "RouteTable") k (yaml.as_route_table v) r
                            (λ x. refl)
                            (arm ingress (codes "Ingress") k (yaml.as_ingress v) r (λ x. refl)
                              (arm network_policy (codes "NetworkPolicy") k
                                (yaml.as_network_policy v) r (λ x. refl)
                                (λ (e : none ≡ some r). absurd (ground arith))))))))))))))
        p

  document-kind :
      (doc : Option V) (r : AnyResource)
      → document yaml doc ≡ some r
      → named_kind yaml doc ≡ some (kind r)
  document-kind none r p = absurd (ground arith)
  document-kind (some v) r p = go (yaml.kind_of v) p
    where
      go : (k : Option Text) → kinded yaml v k ≡ some r → k ≡ some (kind r)
      go none p = absurd (ground arith)
      go (some k) p = ap some (sym (resource_of-kind k v r p))

  parse_documents-kinds :
      (docs : List (Option V)) (rs : List AnyResource)
      → parse_documents yaml docs ≡ some rs
      → map (named_kind yaml) docs ≡ map (λ r. some (kind r)) rs
  unfolding parse_documents
  parse_documents-kinds [] rs p = ap (λ o. map (λ r. some (kind r)) (unwrap_or o [])) p
  parse_documents-kinds (doc ∷ docs) rs p =
      go (document yaml doc) (parse_documents yaml docs) refl
        (λ more e. parse_documents-kinds docs more e) p
    where
      go :
          (o : Option AnyResource) (rest : Option (List AnyResource))
          → document yaml doc ≡ o
          → ((more : List AnyResource)
              → rest ≡ some more
              → map (named_kind yaml) docs ≡ map (λ r. some (kind r)) more)
          → push_resource yaml o rest ≡ some rs
          → named_kind yaml doc ∷ map (named_kind yaml) docs ≡ map (λ r. some (kind r)) rs
      go none rest d e p = absurd (ground arith)
      go (some r) none d e p = absurd (ground arith)
      go (some r) (some more) d e p =
          ap (λ k. k ∷ map (named_kind yaml) docs) (document-kind doc r d)
          ∙ ap (λ ks. some (kind r) ∷ ks) (e more refl)
          ∙ ap (λ o. map (λ q. some (kind q)) (unwrap_or o [])) p

  -- A manifest that is read gives one resource for each of its documents, in their order, each of
  -- the kind that its document names.
  pub parse_manifest_yaml-kinds :
      (text : Text) (rs : List AnyResource)
      → parse_manifest_yaml yaml text ≡ some rs
      → map (named_kind yaml) (yaml.documents text) ≡ map (λ r. some (kind r)) rs
  unfolding parse_manifest_yaml
  parse_manifest_yaml-kinds text rs p = parse_documents-kinds (yaml.documents text) rs p
