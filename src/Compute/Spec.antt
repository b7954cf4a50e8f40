-- ===== src/Compute/Spec.antt =====
-- src/components/compute/spec_builder.rs: the environment that a container takes from config maps and
-- secrets.
mod Sources
pub mod Volumes
pub mod Paths
mod Runs
use z8s.Base.{
  ℕ, zero, suc, ◌+◌, ◌-◌, ◌*◌, ◌/◌, ◌%◌, ◌^◌, ◌≤◌, ◌<◌, min, max, ◌≡◌, refl, sym, ap, ◌∙◌, ◌≢◌, ◌↔◌,
  ◌⊎◌, inl, inr, Bool, true, false, not, ◌&&◌, ◌||◌, Option, none, some, List, [], ◌∷◌, ◌++◌, map,
  arith, dec_lt, ltb, leb, ◌==◌, if◌then◌else◌, Bool-cases, Option-cases, unwrap_or, is_some,
  length, get_elem?, take, drop, length-append, any, all, All, All-append,
}
use z8s.Base.Text.{Text, codes, text_eq}
use z8s.Base.Text.Utf8.{from_utf8}
use z8s.Base.Dict.{Dict}
use z8s.Resource.{
  AnyResource, ObjectMeta, ConfigMap, Secret, Container, EnvFromSource, Pod, config_map, secret,
}
use z8s.Resource.Store.{ResourceStore, ResourceTracker, get_by_kind}

-- The entries that are collected into a `HashMap` by namespace and name, in their order.
abbrev pub Entries {ℓ} : Type ℓ → Type ℓ
Entries A = List ((Text × Text) × A)

abbrev pub later_or {ℓ} : {A : Type ℓ} → Option A → Bool → A → Option A
later_or (some b) same a = some b
later_or none same a = if same then some a else none

-- `map.get(&(ns, name))`: of equal keys the last one that was inserted.
unfoldable pub lookup {ℓ} : {A : Type ℓ} → Text → Text → Entries A → Option A
lookup ns name [] = none
lookup ns name (((n, m), a) ∷ entries) =
    later_or (lookup ns name entries) (text_eq n ns && text_eq m name) a

abbrev pub key_of : ObjectMeta → Text × Text
key_of m = (unwrap_or m.namespace [], unwrap_or m.name [])

abbrev pub push_map : AnyResource → Entries ConfigMap → Entries ConfigMap
push_map (config_map cm) rest = (key_of cm.metadata, cm) ∷ rest
push_map _ rest = rest

abbrev pub push_secret : AnyResource → Entries Secret → Entries Secret
push_secret (secret s) rest = (key_of s.metadata, s) ∷ rest
push_secret _ rest = rest

unfoldable pub maps_of : List ResourceTracker → Entries ConfigMap
maps_of [] = []
maps_of (t ∷ ts) = push_map t.resource (maps_of ts)

unfoldable pub secrets_of : List ResourceTracker → Entries Secret
secrets_of [] = []
secrets_of (t ∷ ts) = push_secret t.resource (secrets_of ts)

-- `fetch_cms_and_secrets`.
unfoldable pub fetch_cms_and_secrets : ResourceStore → Entries ConfigMap × Entries Secret
unfolding maps_of secrets_of
fetch_cms_and_secrets store = (
  maps_of (get_by_kind (codes "ConfigMap") store),
  secrets_of (get_by_kind (codes "Secret") store),
)

-- The variables of text entries, and of those of bytes that are UTF-8.
abbrev pub text_vars : Text → Option (Dict Text) → List (Text × Text)
text_vars prefix values = map (λ e. (prefix ++ e.0, e.1)) (unwrap_or values [])

abbrev pub push_var : Text → Option Text → List (Text × Text) → List (Text × Text)
push_var k none rest = rest
push_var k (some v) rest = (k, v) ∷ rest

unfoldable pub byte_vars : Text → Dict Text → List (Text × Text)
byte_vars prefix [] = []
byte_vars prefix ((k, v) ∷ values) = push_var (prefix ++ k) (from_utf8 v) (byte_vars prefix values)

abbrev pub map_vars : Text → Option ConfigMap → List (Text × Text)
map_vars prefix none = []
map_vars prefix (some cm) = text_vars prefix cm.values

abbrev pub secret_vars : Text → Option Secret → List (Text × Text)
secret_vars prefix none = []
secret_vars prefix (some s) =
    byte_vars prefix (unwrap_or s.values []) ++ text_vars prefix s.string_data

-- What a reference by name finds, if there is a reference.
abbrev pub find_ref {ℓ} : {A : Type ℓ} → Text → Entries A → Option Text → Option A
find_ref ns entries none = none
find_ref ns entries (some name) = lookup ns name entries

unfoldable pub env_from_each :
    Text → Entries ConfigMap → Entries Secret → List EnvFromSource → List (Text × Text)
unfolding lookup byte_vars
env_from_each ns cms secrets [] = []
env_from_each ns cms secrets (src ∷ srcs) =
    let prefix = unwrap_or src.prefix [] in
    map_vars prefix (find_ref ns cms src.config_map_ref)
    ++ (secret_vars prefix (find_ref ns secrets src.secret_ref)
        ++ env_from_each ns cms secrets srcs)

-- `resolve_env_from`.
unfoldable pub resolve_env_from :
    Container → Pod → Entries ConfigMap → Entries Secret → List (Text × Text)
unfolding env_from_each
resolve_env_from c p cms secrets =
    env_from_each (unwrap_or p.metadata.namespace (codes "default")) cms secrets
      (unwrap_or c.env_from [])
