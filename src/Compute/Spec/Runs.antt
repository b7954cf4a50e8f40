-- ===== src/Compute/Spec/Runs.antt =====
-- A config map with and without a namespace, and a pod that takes its environment from it.
use z8s.Base.{◌≡◌, refl, ◌≢◌, Option, none, some, [], ◌∷◌, arith}
use z8s.Base.Text.{Text, codes, text_eq}
use z8s.Base.Dict
use z8s.Resource.{ObjectMeta, kind, ConfigMap, Container, Pod, config_map}
use z8s.Resource.Store.{ResourceStore, get_by_kind, pending}
use z8s.Compute.Spec.{fetch_cms_and_secrets, resolve_env_from}

abbrev named : Text → Option Text → ObjectMeta
named name ns = record {
  name = some name;
  namespace = ns;
  uid = none;
  labels = none;
  owner_references = none;
}

abbrev settings : Option Text → ConfigMap
settings ns = record {
  metadata = named (codes "settings") ns;
  values = some ((codes "mode", codes "fast") ∷ []);
  binary_data = none;
}

abbrev store_of : Option Text → ResourceStore
store_of ns =
    (
      codes "ConfigMap/default/settings",
      record { resource = config_map (settings ns); state = pending; last_updated = 1 },
    )
    ∷ []

abbrev web : Container
web = record {
  name = codes "web";
  volume_mounts = none;
  env_from = some (
      record {
        prefix = some (codes "X_");
        config_map_ref = some (codes "settings");
        secret_ref = none;
      }
      ∷ []);
  image = none;
  ports = none;
}

abbrev web_pod : Pod
web_pod = record { metadata = named (codes "web") none; spec = none }

-- With its namespace the config map is found, without it not.
vars_found :
    let found = fetch_cms_and_secrets (store_of (some (codes "default"))) in
    resolve_env_from web web_pod found.0 found.1 ≡ (codes "X_mode", codes "fast") ∷ []
unfolding resolve_env_from fetch_cms_and_secrets get_by_kind kind text_eq Dict.values
vars_found = refl

unstated : none ≢ some (codes "default")
unstated e = absurd (ground arith)
