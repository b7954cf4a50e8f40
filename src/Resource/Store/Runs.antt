-- ===== src/Resource/Store/Runs.antt =====
-- Concrete runs of the store, and the theorems at concrete inputs.
use z8s.Base.{◌≡◌, refl, ◌↔◌, none, some, [], ◌∷◌, arith, if◌then◌else◌}
use z8s.Base.Text.{codes, text_eq}
use z8s.Base.Text.Split.{Lacks}
use z8s.Base.Dict
use z8s.Base.Dict.{Dict}
use z8s.Resource.{AnyResource, ObjectMeta, pod, config_map, kind, name, namespace, uid}
use z8s.Resource.Keys.{uid-eq_iff}
use z8s.Resource.Store.{
  ResourceStore, running, succeeded, apply, delete, get, update_state, get_by_kind,
}
use z8s.Resource.Store.Laws.{store_changes, state_or_pending, restate}

abbrev meta : ObjectMeta
meta = record {
  name = some (codes "web");
  namespace = none;
  uid = none;
  labels = none;
  owner_references = none;
}

abbrev web_pod : AnyResource
web_pod = pod (record { metadata = meta; spec = none })

abbrev web_config : AnyResource
web_config = config_map (record { metadata = meta; values = none; binary_data = none })

web_key : uid web_pod ≡ codes "Pod/default/web"
unfolding uid kind name namespace
web_key = refl

no_slash : Lacks b'/' (namespace web_pod)
unfolding namespace
no_slash = omega arith

no_slash_either : Lacks b'/' (namespace web_config)
unfolding namespace
no_slash_either = omega arith

uid-eq_iff_example : (uid web_pod ≡ uid web_config) ↔ (
    (kind web_pod ≡ kind web_config)
    × (namespace web_pod ≡ namespace web_config)
    × (name web_pod ≡ name web_config))
uid-eq_iff_example = uid-eq_iff web_pod web_config no_slash no_slash_either

abbrev store : ResourceStore
store =
    (codes "Pod/default/web", record { resource = web_pod; state = running; last_updated = 3 }) ∷ []

-- Applying the pod again keeps its state.
applied_again :
    apply 5 web_pod store
    ≡ (codes "Pod/default/web", record { resource = web_pod; state = running; last_updated = 5 })
      ∷ []
unfolding apply uid kind name namespace Dict.get Dict.put text_eq
applied_again = refl

pods_found :
    get_by_kind (codes "Pod") (apply 6 web_config store)
    ≡ record { resource = web_pod; state = running; last_updated = 3 } ∷ []
unfolding get_by_kind apply uid kind name namespace Dict.get Dict.put Dict.values text_eq
pods_found = refl

store_changes_example :
    (get (uid web_pod) (apply 5 web_pod store) ≡ (
      if text_eq (uid web_pod) (uid web_pod)
      then some (record {
        resource = web_pod;
        state = state_or_pending (get (uid web_pod) store);
        last_updated = 5;
      })
      else get (uid web_pod) store))
    × (get (uid web_pod) (delete web_pod store)
        ≡ (if text_eq (uid web_pod) (uid web_pod) then none else get (uid web_pod) store))
    × (get (uid web_pod) (update_state 5 (codes "Pod/default/web") succeeded store) ≡ (
        if text_eq (codes "Pod/default/web") (uid web_pod)
        then restate 5 succeeded (get (codes "Pod/default/web") store)
        else get (uid web_pod) store))
store_changes_example =
    store_changes 5 web_pod (codes "Pod/default/web") (uid web_pod) succeeded store
