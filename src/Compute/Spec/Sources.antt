-- ===== src/Compute/Spec/Sources.antt =====
-- src/components/compute/spec_builder.rs: which config maps and secrets a pod can read.
use z8s.Base.{
  ◌≡◌, refl, ap, ◌≢◌, inl, inr, false, ◌&&◌, Option, none, some, List, [], ◌∷◌, arith, Bool-cases,
  unwrap_or, All,
}
use z8s.Base.Text.{Text, codes, text_eq, text_eq_iff}
use z8s.Base.Dict
use z8s.Base.Dict.{Dict}
use z8s.Resource.{
  AnyResource, metadata, kind, ConfigMap, Secret, Container, EnvFromSource, Pod, pod, deployment,
  service, config_map, secret, persistent_volume, persistent_volume_claim, vnet, subnet, nsg,
  route_table, ingress, network_policy,
}
use z8s.Resource.Store.{ResourceStore, ResourceTracker, get_by_kind, of_kind}
use z8s.Compute.Spec.{
  Entries, lookup, push_map, push_secret, maps_of, secrets_of, fetch_cms_and_secrets, find_ref,
  env_from_each, resolve_env_from,
}

module _ (ns : Text) where
  -- The resource does not say that it is in this namespace.
  abbrev pub Unstated : ResourceTracker → Type 0
  Unstated t = (metadata t.resource).namespace ≢ some ns

  abbrev Elsewhere {ℓ} : {A : Type ℓ} → Entries A → Type 0
  Elsewhere entries = All (λ e. e.0.0 ≢ ns) entries

  lookup-Elsewhere {ℓ} :
      {A : Type ℓ} (name : Text) (entries : Entries A)
      → Elsewhere entries
      → lookup ns name entries ≡ none
  unfolding lookup
  lookup-Elsewhere name [] h = refl
  lookup-Elsewhere name (((n, m), a) ∷ entries) (ne, h) =
      rw (lookup-Elsewhere name entries h) (rw (other) refl)
    where
      other : (text_eq n ns && text_eq m name) ≡ false
      other = ground (arith, text_eq_iff n ns, ne)

  key-Elsewhere : (stated : Option Text) → [] ≢ ns → stated ≢ some ns → unwrap_or stated [] ≢ ns
  key-Elsewhere none some_ns ne e = some_ns e
  key-Elsewhere (some n) some_ns ne e = ne (ap some e)

  values-Unstated :
      (store : ResourceStore) → All (λ e. Unstated e.1) store → All Unstated (Dict.values store)
  unfolding Dict.values
  values-Unstated [] h = tt
  values-Unstated ((k, t) ∷ store) (h, hs) = (h, values-Unstated store hs)

  of_kind-Unstated :
      (k : Text) (ts : List ResourceTracker) → All Unstated ts → All Unstated (of_kind k ts)
  unfolding of_kind
  of_kind-Unstated k [] h = tt
  of_kind-Unstated k (t ∷ ts) (h, hs) = elim (Bool-cases (text_eq (kind t.resource) k)) [
    | inl e ↦ rw e (h, of_kind-Unstated k ts hs)
    | inr e ↦ rw e (of_kind-Unstated k ts hs)
  ]

  push_map-Elsewhere :
      (r : AnyResource) (rest : Entries ConfigMap)
      → [] ≢ ns
      → (metadata r).namespace ≢ some ns
      → Elsewhere rest
      → Elsewhere (push_map r rest)
  unfolding metadata
  push_map-Elsewhere (pod c) rest n ne h = h
  push_map-Elsewhere (deployment c) rest n ne h = h
  push_map-Elsewhere (service c) rest n ne h = h
  push_map-Elsewhere (config_map c) rest n ne h = (key-Elsewhere c.metadata.namespace n ne, h)
  push_map-Elsewhere (secret c) rest n ne h = h
  push_map-Elsewhere (persistent_volume c) rest n ne h = h
  push_map-Elsewhere (persistent_volume_claim c) rest n ne h = h
  push_map-Elsewhere (vnet c) rest n ne h = h
  push_map-Elsewhere (subnet c) rest n ne h = h
  push_map-Elsewhere (nsg c) rest n ne h = h
  push_map-Elsewhere (route_table c) rest n ne h = h
  push_map-Elsewhere (ingress c) rest n ne h = h
  push_map-Elsewhere (network_policy c) rest n ne h = h

  push_secret-Elsewhere :
      (r : AnyResource) (rest : Entries Secret)
      → [] ≢ ns
      → (metadata r).namespace ≢ some ns
      → Elsewhere rest
      → Elsewhere (push_secret r rest)
  unfolding metadata
  push_secret-Elsewhere (pod c) rest n ne h = h
  push_secret-Elsewhere (deployment c) rest n ne h = h
  push_secret-Elsewhere (service c) rest n ne h = h
  push_secret-Elsewhere (config_map c) rest n ne h = h
  push_secret-Elsewhere (secret c) rest n ne h = (key-Elsewhere c.metadata.namespace n ne, h)
  push_secret-Elsewhere (persistent_volume c) rest n ne h = h
  push_secret-Elsewhere (persistent_volume_claim c) rest n ne h = h
  push_secret-Elsewhere (vnet c) rest n ne h = h
  push_secret-Elsewhere (subnet c) rest n ne h = h
  push_secret-Elsewhere (nsg c) rest n ne h = h
  push_secret-Elsewhere (route_table c) rest n ne h = h
  push_secret-Elsewhere (ingress c) rest n ne h = h
  push_secret-Elsewhere (network_policy c) rest n ne h = h

  maps_of-Elsewhere :
      (ts : List ResourceTracker) → [] ≢ ns → All Unstated ts → Elsewhere (maps_of ts)
  unfolding maps_of
  maps_of-Elsewhere [] n h = tt
  maps_of-Elsewhere (t ∷ ts) n (h, hs) =
      push_map-Elsewhere t.resource (maps_of ts) n h (maps_of-Elsewhere ts n hs)

  secrets_of-Elsewhere :
      (ts : List ResourceTracker) → [] ≢ ns → All Unstated ts → Elsewhere (secrets_of ts)
  unfolding secrets_of
  secrets_of-Elsewhere [] n h = tt
  secrets_of-Elsewhere (t ∷ ts) n (h, hs) =
      push_secret-Elsewhere t.resource (secrets_of ts) n h (secrets_of-Elsewhere ts n hs)

  find_ref-Elsewhere {ℓ} :
      {A : Type ℓ} (entries : Entries A) (name : Option Text)
      → Elsewhere entries
      → find_ref ns entries name ≡ none
  find_ref-Elsewhere entries none h = refl
  find_ref-Elsewhere entries (some name) h = lookup-Elsewhere name entries h

  env_from_each-Elsewhere :
      (cms : Entries ConfigMap) (secrets : Entries Secret) (srcs : List EnvFromSource)
      → Elsewhere cms
      → Elsewhere secrets
      → env_from_each ns cms secrets srcs ≡ []
  unfolding env_from_each
  env_from_each-Elsewhere cms secrets [] hc hs = refl
  env_from_each-Elsewhere cms secrets (src ∷ srcs) hc hs =
      rw (find_ref-Elsewhere cms src.config_map_ref hc) (
        rw (find_ref-Elsewhere secrets src.secret_ref hs)
          (env_from_each-Elsewhere cms secrets srcs hc hs))

-- A container takes no variable from any config map or secret if none in the store states the
-- namespace of its pod, which is `default` for a pod that states none: one that is in `default`
-- because it states no namespace is not found.
pub resolve_env_from_lem :
    (c : Container) (p : Pod) (store : ResourceStore)
    → [] ≢ unwrap_or p.metadata.namespace (codes "default")
    → All (λ e. Unstated (unwrap_or p.metadata.namespace (codes "default")) e.1) store
    → resolve_env_from c p (fetch_cms_and_secrets store).0 (fetch_cms_and_secrets store).1 ≡ []
unfolding resolve_env_from fetch_cms_and_secrets get_by_kind
resolve_env_from_lem c p store n h =
    let ns = unwrap_or p.metadata.namespace (codes "default") in
    let hs : All (Unstated ns) (Dict.values store) = values-Unstated ns store h in
    env_from_each-Elsewhere ns _ _ (unwrap_or c.env_from [])
      (maps_of-Elsewhere ns _ n (of_kind-Unstated ns (codes "ConfigMap") (Dict.values store) hs))
      (secrets_of-Elsewhere ns _ n (of_kind-Unstated ns (codes "Secret") (Dict.values store) hs))
