-- ===== src/Compute/Deployment.antt =====
-- src/components/compute/deployment.rs. The outcome of starting a pod's containers and the parts of
-- names that are drawn at random are arguments; the time of a change to the store is one as well.
pub mod Pods
pub mod Counting
pub mod Excess
pub mod Growth
pub mod Finding
pub mod Shrinking
pub mod Scaling
pub mod Settling
mod Runs
use z8s.Base.{
  ℕ, zero, suc, ◌+◌, ◌-◌, ◌*◌, ◌/◌, ◌%◌, ◌^◌, ◌≤◌, ◌<◌, min, max, ◌≡◌, refl, sym, ap, ◌∙◌, ◌≢◌, ◌↔◌,
  ◌⊎◌, inl, inr, Bool, true, false, not, ◌&&◌, ◌||◌, Option, none, some, List, [], ◌∷◌, ◌++◌, map,
  arith, dec_lt, ltb, leb, ◌==◌, if◌then◌else◌, Bool-cases, Option-cases, unwrap_or, is_some,
  length, get_elem?, take, drop, length-append, any, all, All, All-append,
}
use z8s.Base.Text.{Text, codes, text_eq, starts_with}
use z8s.Base.Int.{ℤ, pos, negsuc}
use z8s.Base.Dict
use z8s.Base.Dict.{Dict}
use z8s.Resource.{
  AnyResource, ObjectMeta, OwnerReference, Pod, PodSpec, PodTemplateSpec, Deployment,
  DeploymentSpec, pod, deployment, name, uid,
}
use z8s.Resource.Store.{
  ResourceStore, ResourceTracker, ResourceState, running, failed, terminated, apply, delete, get,
  get_by_kind, update_state,
}

abbrev pub has_value : Option Text → Text → Bool
has_value none v = false
has_value (some w) v = text_eq w v

-- `labels_match`.
unfoldable pub labels_match : Dict Text → Dict Text → Bool
labels_match [] labels = true
labels_match ((key, value) ∷ selector) labels =
    has_value (Dict.get key labels) value && labels_match selector labels

abbrev is_true : Option Bool → Bool
is_true none = false
is_true (some b) = b

abbrev pub is_controller : Text → OwnerReference → Bool
is_controller deploy_name r =
    is_true r.controller && (text_eq r.kind (codes "Deployment") && text_eq r.name deploy_name)

abbrev pub refers_to : Text → Option (List OwnerReference) → Bool
refers_to deploy_name none = false
refers_to deploy_name (some refs) = any (is_controller deploy_name) refs

abbrev pub named_for : Text → Option Text → Bool
named_for deploy_name none = false
named_for deploy_name (some n) = starts_with n (deploy_name ++ codes "-pod-")

-- `pod_owned_by_deployment`.
unfoldable pub pod_owned_by_deployment : Pod → Text → Bool
pod_owned_by_deployment p deploy_name =
    refers_to deploy_name p.metadata.owner_references || named_for deploy_name p.metadata.name

-- `Default::default()` of the metadata.
abbrev pub default_meta : ObjectMeta
default_meta = record {
  name = none;
  namespace = none;
  uid = none;
  labels = none;
  owner_references = none;
}

-- `labels.extend(selector)`.
unfoldable pub extend : Dict Text → Dict Text → Dict Text
extend labels [] = labels
extend labels ((k, v) ∷ more) = extend (Dict.put k v labels) more

-- `create_pod_from_template`, for a deployment that has a spec.
unfoldable pub create_pod_from_template : Deployment → DeploymentSpec → Text → Pod
unfolding extend
create_pod_from_template deploy spec pod_name =
    let metadata = unwrap_or spec.template.metadata default_meta in
    record {
      metadata = record metadata {
        name = some pod_name;
        owner_references = some (
            record {
              api_version = codes "apps/v1";
              kind = codes "Deployment";
              name = unwrap_or deploy.metadata.name (codes "deployment");
              uid = unwrap_or deploy.metadata.uid [];
              controller = some true;
              block_owner_deletion = some true;
            }
            ∷ []);
        labels = some (extend (unwrap_or metadata.labels []) (unwrap_or spec.match_labels []));
      };
      spec = spec.template.spec;
    }

-- `as usize` of an i32.
abbrev pub as_usize : ℤ → ℕ
as_usize (pos n) = n
as_usize (negsuc n) = 2 ^ 64 - n - 1

-- Whether a resource is a pod of the deployment.
abbrev pub is_match : Text → Text → Dict Text → AnyResource → Bool
is_match deploy_name ns match_labels (pod p) =
    pod_owned_by_deployment p deploy_name
    && (labels_match match_labels (unwrap_or p.metadata.labels [])
        && has_value p.metadata.namespace ns)
is_match deploy_name ns match_labels _ = false

unfoldable pub matching : Text → Text → Dict Text → List ResourceTracker → List Text
matching deploy_name ns match_labels [] = []
matching deploy_name ns match_labels (t ∷ ts) =
    let rest = matching deploy_name ns match_labels ts in
    if is_match deploy_name ns match_labels t.resource then name t.resource ∷ rest else rest

-- The pod that a round of the loop creates, with the namespace of the deployment.
abbrev pub new_pod : Deployment → DeploymentSpec → Text → Text → Pod
new_pod deploy spec ns pod_name =
    let p = create_pod_from_template deploy spec pod_name in
    record p { metadata = record p.metadata { namespace = some ns } }

-- `{name}-pod-{random}`.
abbrev pub pod_name_for : Text → Text → Text
pod_name_for deploy_name random = deploy_name ++ (codes "-pod-" ++ random)

-- What follows the start of a pod: the other rounds, or the loop ends with the failure.
abbrev pub after_start :
    Text
    → ResourceStore × List Text
    → (Text → ResourceStore)
    → Option Text
    → ResourceStore × List Text
after_start pod_name later fail none = (later.0, pod_name ∷ later.1)
after_start pod_name later fail (some e) = (fail e, [])

module _ (now : ℕ) (starts : Text → Option Text) (randoms : ℕ → Text) (deploy : Deployment)
    (spec : DeploymentSpec) (deploy_name ns : Text) where
  -- The loop that creates pods: `missing` are the rounds until there are enough, if no start fails.
  -- The store, and the names of the pods that were started.
  unfoldable pub create_pods : ℕ → ResourceStore → ResourceStore × List Text
  create_pods zero store = (store, [])
  create_pods (suc missing) store =
      let pod_name = pod_name_for deploy_name (randoms missing) in
      let resource = pod (new_pod deploy spec ns pod_name) in
      let applied = apply now resource store in
      let later = create_pods missing (update_state now (uid resource) running applied) in
      after_start pod_name later (λ e. update_state now (uid resource) (failed e) applied)
        (starts pod_name)

-- `stop_pod` and `delete` of the first pod with the name.
abbrev pub remove_found : ℕ → Option ResourceTracker → ResourceStore → ResourceStore
remove_found now none store = store
remove_found now (some t) store =
    delete t.resource (update_state now (uid t.resource) terminated store)

unfoldable pub find_name : Text → List ResourceTracker → Option ResourceTracker
find_name n [] = none
find_name n (t ∷ ts) =
    let rest = find_name n ts in if text_eq (name t.resource) n then some t else rest

-- The loop that removes pods, over the names that `pop` takes off the end.
unfoldable pub remove_pods : ℕ → List Text → ResourceStore → ResourceStore
unfolding find_name
remove_pods now [] store = store
remove_pods now (n ∷ excess) store =
    remove_pods now excess (remove_found now (find_name n (get_by_kind (codes "Pod") store)) store)

unfoldable pub reversed : List Text → List Text
reversed [] = []
reversed (n ∷ ns) = reversed ns ++ (n ∷ [])

-- The rest of `reconcile_impl`, for a deployment that has a spec; `randoms` has the part drawn for each round.
unfoldable pub reconcile :
    ℕ
    → (Text → Option Text)
    → (ℕ → Text)
    → Deployment
    → DeploymentSpec
    → ResourceStore
    → ResourceStore
unfolding matching create_pods remove_pods reversed
reconcile now starts randoms deploy spec store =
    let deploy_name = unwrap_or deploy.metadata.name (codes "unknown") in
    let ns = unwrap_or deploy.metadata.namespace (codes "default") in
    let replicas = as_usize (unwrap_or spec.replicas (pos 1)) in
    let match_labels = unwrap_or spec.match_labels [] in
    let found = matching deploy_name ns match_labels (get_by_kind (codes "Pod") store) in
    let (grown, created) =
      create_pods now starts randoms deploy spec deploy_name ns (replicas - length found) store in
    let pods = found ++ created in
    remove_pods now (take (length pods - replicas) (reversed pods)) grown

abbrev pub reconcile_spec :
    ℕ
    → (Text → Option Text)
    → (ℕ → Text)
    → Deployment
    → Option DeploymentSpec
    → ResourceStore
    → ResourceStore × Bool
reconcile_spec now starts randoms deploy none store = (store, false)
reconcile_spec now starts randoms deploy (some spec) store =
    (reconcile now starts randoms deploy spec store, true)

-- `reconcile_impl`: the store, and whether it succeeded.
unfoldable pub reconcile_impl :
    ℕ → (Text → Option Text) → (ℕ → Text) → AnyResource → ResourceStore → ResourceStore × Bool
unfolding reconcile
reconcile_impl now starts randoms (deployment d) store =
    reconcile_spec now starts randoms d d.spec store
reconcile_impl now starts randoms _ store = (store, true)

abbrev pub on_tracker :
    ℕ
    → (Text → Option Text)
    → (ℕ → Text)
    → Option ResourceTracker
    → ResourceStore
    → ResourceStore × Bool
on_tracker now starts randoms none store = (store, true)
on_tracker now starts randoms (some t) store = reconcile_impl now starts randoms t.resource store

-- `on_apply`.
unfoldable pub on_apply :
    ℕ → (Text → Option Text) → (ℕ → Text) → AnyResource → ResourceStore → ResourceStore × Bool
unfolding reconcile_impl
on_apply now starts randoms r store = on_tracker now starts randoms (get (uid r) store) store
