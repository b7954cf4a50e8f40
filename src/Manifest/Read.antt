-- ===== src/Manifest/Read.antt =====
-- src/manifest/watcher.rs: what the reading of a file does, and when it is not read.
use z8s.Base.{
  if◌then◌else◌, ◌≡◌, refl, sym, ap, ◌∙◌, ◌≢◌, inl, inr, true, false, some, List, [], ◌∷◌, ◌++◌,
  Bool-cases, All,
}
use z8s.Base.Text.{Text}
use z8s.Base.Text.Trim.{trim}
use mathlib.Core.Path.{subst}
use z8s.Resource.Store.Held.{Holds, apply-Holds, keeps-Holds}
use z8s.Resource.{
  AnyResource, metadata, uid, namespace, name, kind, pod, deployment, service, config_map, secret,
  persistent_volume, persistent_volume_claim, vnet, subnet, nsg, route_table, ingress,
  network_policy,
}
use z8s.Resource.Store.{ResourceStore}
use z8s.Resource.Yaml.{Yaml, parse_manifest_yaml}
use z8s.Manifest.Marks.{is_processed-mark, events-keep}
use z8s.Manifest.{
  Event, on_events, start_watching, ManifestWatcher, Files, created, set_default_namespace,
  apply_each, apply_parsed, process_file, on_created, on_event, is_processed, mark, is_empty,
  is_yaml,
}

-- The namespace that is filled in is the one that the key had already.
uid-set_default_namespace : (r : AnyResource) → uid (set_default_namespace r) ≡ uid r
unfolding uid kind name namespace metadata set_default_namespace
uid-set_default_namespace (pod r) = refl
uid-set_default_namespace (deployment r) = refl
uid-set_default_namespace (service r) = refl
uid-set_default_namespace (config_map r) = refl
uid-set_default_namespace (secret r) = refl
uid-set_default_namespace (persistent_volume r) = refl
uid-set_default_namespace (persistent_volume_claim r) = refl
uid-set_default_namespace (vnet r) = refl
uid-set_default_namespace (subnet r) = refl
uid-set_default_namespace (nsg r) = refl
uid-set_default_namespace (route_table r) = refl
uid-set_default_namespace (ingress r) = refl
uid-set_default_namespace (network_policy r) = refl

apply_each-Holds :
    (fs : Files) (rs : List AnyResource) (r : AnyResource) (s : ResourceStore)
    → All (λ q. uid q ≢ uid r) rs
    → Holds (set_default_namespace r) s
    → Holds (set_default_namespace r) (apply_each fs rs s)
unfolding apply_each
apply_each-Holds fs [] r s others held = held
apply_each-Holds fs (q ∷ rs) r s (ne, others) held = apply_each-Holds fs rs r _ others (
    keeps-Holds (fs.now (set_default_namespace q)) (set_default_namespace r)
      (set_default_namespace q) s
      (λ e. absurd (ne (sym (uid-set_default_namespace q) ∙ e ∙ uid-set_default_namespace r))) held)

apply_each-append :
    (fs : Files) (qs : List AnyResource) (r : AnyResource) (rs : List AnyResource)
    (s : ResourceStore)
    → All (λ q. uid q ≢ uid r) rs
    → Holds (set_default_namespace r) (apply_each fs (qs ++ (r ∷ rs)) s)
unfolding apply_each
apply_each-append fs [] r rs s others =
    apply_each-Holds fs rs r _ others
      (apply-Holds (fs.now (set_default_namespace r)) (set_default_namespace r) s)
apply_each-append fs (q ∷ qs) r rs s others = apply_each-append fs qs r rs _ others

store-mark : (path : Text) (w : ManifestWatcher) → w.store ≡ (mark path w).store
store-mark path w = elim (Bool-cases (is_processed path w)) [
  | inl e ↦ rw e refl
  | inr e ↦ rw e refl
]

module _ {V : Type 0} (yaml : Yaml V) where
  process_file-eq :
      (fs : Files) (path content : Text) (rs : List AnyResource) (w : ManifestWatcher)
      → fs.read_to_string path ≡ some content
      → is_empty (trim content) ≡ false
      → parse_manifest_yaml yaml content ≡ some rs
      → process_file yaml fs path w
        ≡ (mark path (record w { store = apply_each fs rs w.store }), true)
  unfolding process_file
  process_file-eq fs path content rs w found text parsed =
      rw found (rw text (ap (λ o. apply_parsed fs path o w) parsed))

  -- A watcher that knows no path.
  abbrev pub forgetful : ManifestWatcher → ManifestWatcher
  forgetful w = record w { processed = [] }

  read_again :
      (later : Files) (path : Text) (v : ManifestWatcher)
      → start_watching yaml ((later, created (path ∷ [])) ∷ []) v
        ≡ (if is_yaml path then (process_file yaml later path (forgetful v)).0 else forgetful v)
  unfolding start_watching on_events on_event on_created
  read_again later path v = elim (Bool-cases (is_yaml path)) [
    | inl y ↦ rw y refl
    | inr y ↦ rw y refl
  ]

  -- A file that is found, is not blank and can be parsed is read without an error. Each resource
  -- in it that is the last of its key is then in the store, in the namespace `default` if it says
  -- none. After any further events of the running watcher a `Create` event for the path is ignored.
  -- When the watching starts, the paths that were read before are forgotten: a `Create` event for
  -- one of them, if it is a YAML file, makes it read again.
  pub process_file_lem :
      (fs : Files) (path content : Text) (qs : List AnyResource) (r : AnyResource)
      (rs : List AnyResource) (w : ManifestWatcher)
      → fs.read_to_string path ≡ some content
      → is_empty (trim content) ≡ false
      → parse_manifest_yaml yaml content ≡ some (qs ++ (r ∷ rs))
      → All (λ q. uid q ≢ uid r) rs
      → ((process_file yaml fs path w).1 ≡ true)
        × Holds (set_default_namespace r) (process_file yaml fs path w).0.store
        × ((es : List (Files × Event)) (later : Files)
            → on_event yaml later
                (created (path ∷ []))
                (on_events yaml es (process_file yaml fs path w).0)
              ≡ on_events yaml es (process_file yaml fs path w).0)
        × ((later : Files)
            → start_watching yaml
                ((later, created (path ∷ [])) ∷ [])
                (process_file yaml fs path w).0
              ≡ (if is_yaml path
                  then (process_file yaml later path (forgetful (process_file yaml fs path w).0)).0
                  else forgetful (process_file yaml fs path w).0))
  unfolding on_event on_created
  process_file_lem fs path content qs r rs w found text parsed last =
      let w' : ManifestWatcher = record w { store = apply_each fs (qs ++ (r ∷ rs)) w.store } in
      let e : process_file yaml fs path w ≡ (mark path w', true) =
        process_file-eq fs path content (qs ++ (r ∷ rs)) w found text parsed in
      rw e (
        refl,
        subst (Holds (set_default_namespace r)) (store-mark path w')
            (apply_each-append fs qs r rs w.store last),
        λ es later.
            ignored later (on_events yaml es (mark path w'))
              (events-keep yaml path es (mark path w') (is_processed-mark path w')),
        λ later. read_again later path (mark path w'),
      )
    where
      ignored :
          (later : Files) (v : ManifestWatcher)
          → is_processed path v ≡ true
          → on_event yaml later (created (path ∷ [])) v ≡ v
      ignored later v e = elim (Bool-cases (is_yaml path)) [
        | inl y ↦ rw y (rw e refl)
        | inr y ↦ rw y refl
      ]
