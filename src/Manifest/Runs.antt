-- ===== src/Manifest/Runs.antt =====
-- Manifests of one pod, and the theorems at them.
use z8s.Base.{◌≡◌, refl, true, false, none, some, List, [], ◌∷◌, if◌then◌else◌}
use z8s.Base.Text.{Text, codes, text_eq}
use z8s.Base.Text.Trim.{trim}
use z8s.Base.Dict
use z8s.Base.Dict.{get-put}
use z8s.Resource.Store.Held.{Holds}
use z8s.Resource.{metadata, pod}
use z8s.Resource.Store.{pending}
use z8s.Resource.Yaml.{Yaml, parse_manifest_yaml}
use z8s.Manifest.{
  ManifestWatcher, Files, created, modified, removed, set_default_namespace, process_file,
  load_paths, Event, on_event, on_events, start_watching, is_empty, is_yaml,
}
use z8s.Resource.{Pod}
use z8s.Manifest.Read.{process_file_lem, forgetful}
use z8s.Manifest.Watching.{watched_store, AllNamespaced, Present}

-- A pod that says no namespace.
abbrev web : Pod
web = record {
  metadata = record {
    name = some (codes "web");
    namespace = none;
    uid = none;
    labels = none;
    owner_references = none;
  };
  spec = none;
}

-- A reader for which every text is one document, the name of a pod.
abbrev pods : Yaml Text
pods = record {
  documents = λ text. some text ∷ [];
  kind_of = λ v. some (codes "Pod");
  as_pod = λ v. some (record web { metadata = record (web.metadata) { name = some v } });
  as_deployment = λ v. none;
  as_service = λ v. none;
  as_config_map = λ v. none;
  as_secret = λ v. none;
  as_volume = λ v. none;
  as_claim = λ v. none;
  as_vnet = λ v. none;
  as_subnet = λ v. none;
  as_nsg = λ v. none;
  as_route_table = λ v. none;
  as_ingress = λ v. none;
  as_network_policy = λ v. none;
}

abbrev files : Files
files = record { read_to_string = λ path. some (codes "web"); now = λ r. 5 }

abbrev empty : ManifestWatcher
empty = record { store = []; processed = [] }

abbrev path : Text
path = codes "/etc/z8s/web.yaml"

extensions_read :
    (is_yaml path ≡ true)
    × (is_yaml (codes "/etc/web.yml/") ≡ true)
    × (is_yaml (codes "/etc/.yaml") ≡ false)
    × (is_yaml (codes "/etc/web.yaml.bak") ≡ false)
unfolding is_yaml text_eq
extensions_read = (refl, refl, refl, refl)

is_parsed : parse_manifest_yaml pods (codes "web") ≡ some (pod web ∷ [])
unfolding parse_manifest_yaml text_eq
is_parsed = refl

is_text : is_empty (trim (codes "web")) ≡ false
unfolding trim
is_text = refl

process_file_lem_example :
    ((process_file pods files path empty).1 ≡ true)
    × Holds (set_default_namespace (pod web)) (process_file pods files path empty).0.store
    × ((es : List (Files × Event)) (later : Files)
        → on_event pods later
            (created (path ∷ []))
            (on_events pods es (process_file pods files path empty).0)
          ≡ on_events pods es (process_file pods files path empty).0)
    × ((later : Files)
        → start_watching pods
            ((later, created (path ∷ [])) ∷ [])
            (process_file pods files path empty).0
          ≡ (if is_yaml path
              then (process_file pods later path
                  (forgetful pods (process_file pods files path empty).0)).0
              else forgetful pods (process_file pods files path empty).0))
process_file_lem_example =
    process_file_lem pods files path (codes "web") [] (pod web) [] empty refl is_text is_parsed tt

-- A store with one pod that says its namespace.
abbrev known : ManifestWatcher
known = record {
  store =
      (
        codes "Pod/default/db",
        record {
          resource = pod (record web {
            metadata = record (web.metadata) { namespace = some (codes "default") };
          });
          state = pending;
          last_updated = 1;
        },
      )
      ∷ [];
  processed = [];
}

known_is_there : Present (codes "Pod/default/db") known.store
unfolding Dict.get text_eq
known_is_there = refl

known_is_namespaced : AllNamespaced known.store
unfolding metadata
known_is_namespaced = (refl, tt)

watched_store_example :
    AllNamespaced
      (start_watching pods
        ((files, removed (path ∷ [])) ∷ (files, modified (path ∷ [])) ∷ [])
        (load_paths pods files (path ∷ []) known)).store
    × Present
        (codes "Pod/default/db")
        (start_watching pods
          ((files, removed (path ∷ [])) ∷ (files, modified (path ∷ [])) ∷ [])
          (load_paths pods files (path ∷ []) known)).store
watched_store_example =
    watched_store pods files (path ∷ [])
      ((files, removed (path ∷ [])) ∷ (files, modified (path ∷ [])) ∷ []) known
      (codes "Pod/default/db") known_is_namespaced known_is_there
