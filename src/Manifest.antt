-- ===== src/Manifest.antt =====
-- src/manifest/watcher.rs: the manifests that are read at startup and on the file system's events. What
-- the file system holds and reports is an argument.
mod Paths
pub mod Watching
pub mod Marks
pub mod Read
mod Runs
unfoldable pub use Paths.{is_yaml}
use z8s.Base.{
  ℕ, zero, suc, ◌+◌, ◌-◌, ◌*◌, ◌/◌, ◌%◌, ◌^◌, ◌≤◌, ◌<◌, min, max, ◌≡◌, refl, sym, ap, ◌∙◌, ◌≢◌, ◌↔◌,
  ◌⊎◌, inl, inr, Bool, true, false, not, ◌&&◌, ◌||◌, Option, none, some, List, [], ◌∷◌, ◌++◌, map,
  arith, dec_lt, ltb, leb, ◌==◌, if◌then◌else◌, Bool-cases, Option-cases, unwrap_or, is_some,
  length, get_elem?, take, drop, length-append, any, all, All, All-append,
}
use z8s.Base.Text.{Text, codes, text_eq}
use z8s.Base.Text.Trim.{trim}
use z8s.Resource.{
  AnyResource, ObjectMeta, pod, deployment, service, config_map, secret, persistent_volume,
  persistent_volume_claim, vnet, subnet, nsg, route_table, ingress, network_policy,
}
use z8s.Resource.Store.{ResourceStore, apply}
use z8s.Resource.Yaml.{Yaml, parse_manifest_yaml}

-- `namespace.get_or_insert_with(|| "default")`.
abbrev pub with_default : ObjectMeta → ObjectMeta
with_default m = record m { namespace = some (unwrap_or m.namespace (codes "default")) }

-- `set_default_namespace`.
unfoldable pub set_default_namespace : AnyResource → AnyResource
set_default_namespace (pod r) = pod (record r { metadata = with_default r.metadata })
set_default_namespace (deployment r) = deployment (record r { metadata = with_default r.metadata })
set_default_namespace (service r) = service (record r { metadata = with_default r.metadata })
set_default_namespace (config_map r) = config_map (record r { metadata = with_default r.metadata })
set_default_namespace (secret r) = secret (record r { metadata = with_default r.metadata })
set_default_namespace (persistent_volume r) =
    persistent_volume (record r { metadata = with_default r.metadata })
set_default_namespace (persistent_volume_claim r) =
    persistent_volume_claim (record r { metadata = with_default r.metadata })
set_default_namespace (vnet r) = vnet (record r { metadata = with_default r.metadata })
set_default_namespace (subnet r) = subnet (record r { metadata = with_default r.metadata })
set_default_namespace (nsg r) = nsg (record r { metadata = with_default r.metadata })
set_default_namespace (route_table r) =
    route_table (record r { metadata = with_default r.metadata })
set_default_namespace (ingress r) = ingress (record r { metadata = with_default r.metadata })
set_default_namespace (network_policy r) =
    network_policy (record r { metadata = with_default r.metadata })

-- The store that the watcher changes, and `processed`.
pub record ManifestWatcher : Type 0 where
  pub store : ResourceStore
  pub processed : List Text

-- What the file system has under a path, and when a resource is applied.
pub record Files : Type 0 where
  pub read_to_string : Text → Option Text
  pub now : AnyResource → ℕ

abbrev pub is_processed : Text → ManifestWatcher → Bool
is_processed path w = any (λ p. text_eq p path) w.processed

-- `processed.insert(path)`.
abbrev pub mark : Text → ManifestWatcher → ManifestWatcher
mark path w = if is_processed path w then w else record w { processed = path ∷ w.processed }

-- The loop over the resources of a manifest.
unfoldable pub apply_each : Files → List AnyResource → ResourceStore → ResourceStore
unfolding set_default_namespace
apply_each fs [] store = store
apply_each fs (r ∷ rs) store =
    let r' = set_default_namespace r in apply_each fs rs (apply (fs.now r') r' store)

abbrev pub is_empty : Text → Bool
is_empty [] = true
is_empty (c ∷ s) = false

-- An event of the file system with its paths.
pub data Event : Type 0 where
  created modified removed : List Text → Event
  other failed : Event

abbrev pub apply_parsed :
    Files → Text → Option (List AnyResource) → ManifestWatcher → ManifestWatcher × Bool
apply_parsed fs path none w = (w, false)
apply_parsed fs path (some rs) w = (mark path (record w { store = apply_each fs rs w.store }), true)

module _ {V : Type 0} (yaml : Yaml V) where
  abbrev pub process_text : Files → Text → Option Text → ManifestWatcher → ManifestWatcher × Bool
  process_text fs path none w = (w, false)
  process_text fs path (some content) w =
      if is_empty (trim content)
      then (w, true)
      else apply_parsed fs path (parse_manifest_yaml yaml content) w

  -- `process_file`: the new state, and whether the result is `Ok`.
  unfoldable pub process_file : Files → Text → ManifestWatcher → ManifestWatcher × Bool
  unfolding apply_each parse_manifest_yaml trim
  process_file fs path w = process_text fs path (fs.read_to_string path) w

  -- The loop of `load_dir_recursive` over the paths that were collected: a failure is only logged.
  unfoldable pub load_paths : Files → List Text → ManifestWatcher → ManifestWatcher
  unfolding process_file
  load_paths fs [] w = w
  load_paths fs (path ∷ paths) w = load_paths fs paths (process_file fs path w).0

  -- `EventKind::Create`.
  unfoldable pub on_created : Files → List Text → ManifestWatcher → ManifestWatcher
  unfolding process_file is_yaml
  on_created fs [] w = w
  on_created fs (path ∷ paths) w =
      on_created fs paths
        (if not (is_yaml path) || is_processed path w then w else (process_file fs path w).0)

  -- `EventKind::Modify`.
  unfoldable pub on_modified : Files → List Text → ManifestWatcher → ManifestWatcher
  unfolding process_file is_yaml
  on_modified fs [] w = w
  on_modified fs (path ∷ paths) w =
      on_modified fs paths (if not (is_yaml path) then w else (process_file fs path w).0)

  -- `EventKind::Remove` only logs, and so do an error and any other event.
  unfoldable pub on_event : Files → Event → ManifestWatcher → ManifestWatcher
  unfolding on_created on_modified
  on_event fs (created paths) w = on_created fs paths w
  on_event fs (modified paths) w = on_modified fs paths w
  on_event fs (removed paths) w = w
  on_event fs other w = w
  on_event fs failed w = w

  unfoldable pub on_events : List (Files × Event) → ManifestWatcher → ManifestWatcher
  unfolding on_event
  on_events [] w = w
  on_events ((fs, e) ∷ es) w = on_events es (on_event fs e w)

  -- `start_watching`, over the events that arrive.
  unfoldable pub start_watching : List (Files × Event) → ManifestWatcher → ManifestWatcher
  unfolding on_events
  start_watching es w = on_events es (record w { processed = [] })
