-- ===== src/Manifest/Watching.antt =====
-- src/manifest/watcher.rs: what the watcher never takes away from the store.
use z8s.Base.{
  ℕ, ◌≡◌, refl, sym, inl, inr, Bool, true, false, not, ◌||◌, Option, none, some, List, [], ◌∷◌,
  if◌then◌else◌, Bool-cases, is_some, All,
}
use z8s.Base.Text.{Text, text_eq}
use z8s.Base.Text.Trim.{trim}
use mathlib.Core.Path.{subst}
use z8s.Base.Dict
use z8s.Base.Dict.{get-put}
use z8s.Resource.{
  AnyResource, metadata, uid, pod, deployment, service, config_map, secret, persistent_volume,
  persistent_volume_claim, vnet, subnet, nsg, route_table, ingress, network_policy,
}
use z8s.Resource.Store.{ResourceStore, ResourceTracker, apply, keep_state, new_tracker}
use z8s.Resource.Yaml.{Yaml, parse_manifest_yaml}
use z8s.Manifest.{
  ManifestWatcher, Files, Event, created, modified, removed, other, failed, set_default_namespace,
  apply_each, apply_parsed, process_text, process_file, load_paths, on_created, on_modified,
  on_event, on_events, start_watching, is_processed, mark, is_empty, is_yaml,
}

store-mark : (path : Text) (w : ManifestWatcher) → (mark path w).store ≡ w.store
store-mark path w = elim (Bool-cases (is_processed path w)) [
  | inl e ↦ rw e refl
  | inr e ↦ rw e refl
]

-- What holds of the store and is kept by every resource that a manifest brings is kept throughout.
module _ {V : Type 0} (yaml : Yaml V) (P : ResourceStore → Type 0)
    (step : (now : ℕ) (r : AnyResource) (s : ResourceStore)
      → P s
      → P (apply now (set_default_namespace r) s)) where
  apply_each-keeps :
      (fs : Files) (rs : List AnyResource) (s : ResourceStore) → P s → P (apply_each fs rs s)
  unfolding apply_each
  apply_each-keeps fs [] s p = p
  apply_each-keeps fs (r ∷ rs) s p =
      apply_each-keeps fs rs (apply (fs.now (set_default_namespace r)) (set_default_namespace r) s)
        (step (fs.now (set_default_namespace r)) r s p)

  apply_parsed-keeps :
      (fs : Files) (path : Text) (parsed : Option (List AnyResource)) (w : ManifestWatcher)
      → P w.store
      → P ((apply_parsed fs path parsed w).0.store)
  apply_parsed-keeps fs path none w p = p
  apply_parsed-keeps fs path (some rs) w p =
      let w' : ManifestWatcher = record w { store = apply_each fs rs w.store } in
      subst P (sym (store-mark path w')) (apply_each-keeps fs rs w.store p)

  process_file-keeps :
      (fs : Files) (path : Text) (w : ManifestWatcher)
      → P w.store
      → P ((process_file yaml fs path w).0.store)
  unfolding process_file
  process_file-keeps fs path w p = go (fs.read_to_string path)
    where
      go : (found : Option Text) → P ((process_text yaml fs path found w).0.store)
      go none = p
      go (some content) = elim (Bool-cases (is_empty (trim content))) [
        | inl e ↦ rw e p
        | inr e ↦ rw e (apply_parsed-keeps fs path (parse_manifest_yaml yaml content) w p)
      ]

  load_paths-keeps :
      (fs : Files) (paths : List Text) (w : ManifestWatcher)
      → P w.store
      → P ((load_paths yaml fs paths w).store)
  unfolding load_paths
  load_paths-keeps fs [] w p = p
  load_paths-keeps fs (path ∷ paths) w p =
      load_paths-keeps fs paths (process_file yaml fs path w).0 (process_file-keeps fs path w p)

  skip-keeps :
      (b : Bool) (fs : Files) (path : Text) (w : ManifestWatcher)
      → P w.store
      → P ((if b then w else (process_file yaml fs path w).0).store)
  skip-keeps true fs path w p = p
  skip-keeps false fs path w p = process_file-keeps fs path w p

  on_created-keeps :
      (fs : Files) (paths : List Text) (w : ManifestWatcher)
      → P w.store
      → P ((on_created yaml fs paths w).store)
  unfolding on_created
  on_created-keeps fs [] w p = p
  on_created-keeps fs (path ∷ paths) w p =
      on_created-keeps fs paths _
        (skip-keeps (not (is_yaml path) || is_processed path w) fs path w p)

  on_modified-keeps :
      (fs : Files) (paths : List Text) (w : ManifestWatcher)
      → P w.store
      → P ((on_modified yaml fs paths w).store)
  unfolding on_modified
  on_modified-keeps fs [] w p = p
  on_modified-keeps fs (path ∷ paths) w p =
      on_modified-keeps fs paths _ (skip-keeps (not (is_yaml path)) fs path w p)

  on_event-keeps :
      (fs : Files) (e : Event) (w : ManifestWatcher) → P w.store → P ((on_event yaml fs e w).store)
  unfolding on_event
  on_event-keeps fs (created paths) w p = on_created-keeps fs paths w p
  on_event-keeps fs (modified paths) w p = on_modified-keeps fs paths w p
  on_event-keeps fs (removed paths) w p = p
  on_event-keeps fs other w p = p
  on_event-keeps fs failed w p = p

  on_events-keeps :
      (es : List (Files × Event)) (w : ManifestWatcher)
      → P w.store
      → P ((on_events yaml es w).store)
  unfolding on_events
  on_events-keeps [] w p = p
  on_events-keeps ((fs, e) ∷ es) w p =
      on_events-keeps es (on_event yaml fs e w) (on_event-keeps fs e w p)

  watched-keeps :
      (fs : Files) (paths : List Text) (es : List (Files × Event)) (w : ManifestWatcher)
      → P w.store
      → P ((start_watching yaml es (load_paths yaml fs paths w)).store)
  unfolding start_watching
  watched-keeps fs paths es w p =
      on_events-keeps es (record (load_paths yaml fs paths w) { processed = [] })
        (load_paths-keeps fs paths w p)

-- The resource says in which namespace it is.
abbrev pub IsNamespaced : AnyResource → Type 0
IsNamespaced r = is_some (metadata r).namespace ≡ true

abbrev pub AllNamespaced : ResourceStore → Type 0
AllNamespaced s = All (λ e. IsNamespaced e.1.resource) s

set_default_namespace-IsNamespaced : (r : AnyResource) → IsNamespaced (set_default_namespace r)
unfolding metadata set_default_namespace
set_default_namespace-IsNamespaced (pod r) = refl
set_default_namespace-IsNamespaced (deployment r) = refl
set_default_namespace-IsNamespaced (service r) = refl
set_default_namespace-IsNamespaced (config_map r) = refl
set_default_namespace-IsNamespaced (secret r) = refl
set_default_namespace-IsNamespaced (persistent_volume r) = refl
set_default_namespace-IsNamespaced (persistent_volume_claim r) = refl
set_default_namespace-IsNamespaced (vnet r) = refl
set_default_namespace-IsNamespaced (subnet r) = refl
set_default_namespace-IsNamespaced (nsg r) = refl
set_default_namespace-IsNamespaced (route_table r) = refl
set_default_namespace-IsNamespaced (ingress r) = refl
set_default_namespace-IsNamespaced (network_policy r) = refl

put-AllNamespaced :
    (k : Text) (t : ResourceTracker) (s : ResourceStore)
    → IsNamespaced t.resource
    → AllNamespaced s
    → AllNamespaced (Dict.put k t s)
unfolding Dict.put
put-AllNamespaced k t [] n h = (n, tt)
put-AllNamespaced k t ((j, u) ∷ s) n (h, hs) = elim (Bool-cases (text_eq j k)) [
  | inl e ↦ rw e (n, hs)
  | inr e ↦ rw e (h, put-AllNamespaced k t s n hs)
]

resource-keep_state :
    (old : Option ResourceTracker) (t : ResourceTracker) → (keep_state old t).resource ≡ t.resource
resource-keep_state none t = refl
resource-keep_state (some o) t = refl

apply-AllNamespaced :
    (now : ℕ) (r : AnyResource) (s : ResourceStore)
    → AllNamespaced s
    → AllNamespaced (apply now (set_default_namespace r) s)
unfolding apply
apply-AllNamespaced now r s h =
    let r' = set_default_namespace r in
    put-AllNamespaced (uid r') _ s
      (subst IsNamespaced (sym (resource-keep_state (Dict.get (uid r') s) (new_tracker now r')))
        (set_default_namespace-IsNamespaced r))
      h

abbrev pub Present : Text → ResourceStore → Type 0
Present k s = is_some (Dict.get k s) ≡ true

apply-Present :
    (k : Text) (now : ℕ) (r : AnyResource) (s : ResourceStore)
    → Present k s
    → Present k (apply now (set_default_namespace r) s)
unfolding apply
apply-Present k now r s h = elim (Bool-cases (text_eq (uid (set_default_namespace r)) k)) [
  | inl e ↦ rw (get-put (uid (set_default_namespace r)) k _ s) (rw e refl)
  | inr e ↦ rw (get-put (uid (set_default_namespace r)) k _ s) (rw e h)
]

-- Whatever manifests are read at startup and whatever events follow: if every resource in the store
-- states its namespace, then every one does afterwards, and no key ever leaves the store, also when
-- the file that brought its resource is removed.
pub watched_store :
    {V : Type 0} (yaml : Yaml V) (fs : Files) (paths : List Text) (es : List (Files × Event))
    (w : ManifestWatcher) (k : Text)
    → AllNamespaced w.store
    → Present k w.store
    → AllNamespaced (start_watching yaml es (load_paths yaml fs paths w)).store
      × Present k (start_watching yaml es (load_paths yaml fs paths w)).store
watched_store yaml fs paths es w k stated there = (
  watched-keeps yaml AllNamespaced apply-AllNamespaced fs paths es w stated,
  watched-keeps yaml (Present k) (apply-Present k) fs paths es w there,
)
