-- ===== src/Compute/Deployment/Runs.antt =====
-- Concrete runs of the deployment controller, and the theorems at concrete inputs.
use z8s.Base.{
  ℕ, zero, suc, ◌-◌, ◌≡◌, ◌≢◌, refl, true, false, arith, take, Option, none, some, [], ◌∷◌,
  if◌then◌else◌, unwrap_or, length,
}
use z8s.Base.Text.{Text, codes, text_eq, starts_with}
use z8s.Base.Int.{pos}
use z8s.Base.Dict
use z8s.Base.Dict.{Dict}
use z8s.Resource.{Deployment, DeploymentSpec, pod, deployment, uid, kind, name, namespace, metadata}
use z8s.Resource.Store.{
  ResourceStore, ResourceTracker, running, pending, get, get_by_kind, of_kind, apply, delete,
  update_state,
}
use z8s.Compute.Deployment.{
  default_meta, reconcile, create_pods, create_pod_from_template, matching, remove_pods, find_name,
  reversed, pod_owned_by_deployment, labels_match, extend, new_pod, reconcile_impl, on_apply,
}
use z8s.Compute.Deployment.Pods.{IsMap}
use z8s.Resource.Store.Laws.{IsKeyed}
use z8s.Compute.Deployment.Counting.{picked}
use z8s.Compute.Deployment.Growth.{AreUnused}
use z8s.Compute.Deployment.Excess.{AreDistinct}
use z8s.Compute.Deployment.Finding.{pod_names}
use z8s.Compute.Deployment.Settling.{replicas_of, counted, after, reconcile_impl_lem}

abbrev web : Deployment
web = record {
  metadata = record default_meta { name = some (codes "web"); namespace = some (codes "prod") };
  spec = none;
}

abbrev web_spec : DeploymentSpec
web_spec = record {
  replicas = some (pos 2);
  match_labels = some ((codes "app", codes "web") ∷ []);
  template = record { metadata = none; spec = none };
}

-- The first pod of two starts, and the second one fails.
abbrev starts : Text → Option Text
starts n = if text_eq n (codes "web-pod-b") then none else some (codes "no image")

abbrev randoms : ℕ → Text
randoms zero = codes "a"
randoms (suc n) = codes "b"

one_key : IsMap (unwrap_or web_spec.match_labels [])
one_key = (tt, tt)

-- Reconciling twice: two pods are there after the first time, and none is added the second time.
abbrev always : Text → Option Text
always n = none

abbrev once : ResourceStore
once = reconcile 5 always randoms web web_spec []

two_pods : length once ≡ 2
unfolding reconcile create_pods create_pod_from_template matching remove_pods find_name reversed
    pod_owned_by_deployment labels_match extend uid kind name namespace metadata get_by_kind of_kind
    apply delete update_state Dict.get Dict.put Dict.remove Dict.values text_eq starts_with
two_pods = refl

settled : reconcile 6 always randoms web web_spec once ≡ once
unfolding reconcile create_pods create_pod_from_template matching remove_pods find_name reversed
    pod_owned_by_deployment labels_match extend uid kind name namespace metadata get_by_kind of_kind
    apply delete update_state Dict.get Dict.put Dict.remove Dict.values text_eq starts_with
settled = refl

-- Scaling down from two pods to one: the first one stays.
abbrev one_spec : DeploymentSpec
one_spec = record web_spec { replicas = some (pos 1) }

abbrev one_web : Deployment
one_web = record web { spec = some one_spec }

abbrev running_pod : Text → ResourceTracker
running_pod n = record {
  resource = pod (new_pod web web_spec (codes "prod") n);
  state = running;
  last_updated = 3;
}

abbrev two_running : ResourceStore
two_running =
    (codes "Pod/prod/web-pod-a", running_pod (codes "web-pod-a"))
    ∷ (codes "Pod/prod/web-pod-b", running_pod (codes "web-pod-b"))
    ∷ []

other_key : codes "Pod/prod/web-pod-a" ≢ codes "Pod/prod/web-pod-b"
other_key e = absurd (ground (arith, e))

two_running-IsKeyed : IsKeyed two_running
unfolding uid kind name namespace metadata create_pod_from_template
two_running-IsKeyed = (refl, (other_key, tt), (refl, tt, tt))

other_name : codes "web-pod-a" ≢ codes "web-pod-b"
other_name e = absurd (ground (arith, e))

two_running-AreDistinct : AreDistinct (pod_names two_running)
unfolding picked kind name metadata create_pod_from_template text_eq
two_running-AreDistinct = ((other_name, tt), (tt, tt))

nothing_drawn :
    AreUnused randoms one_web one_spec
      (codes "web")
      (codes "prod")
      (replicas_of one_web one_spec - length (counted one_web one_spec two_running))
      two_running
unfolding matching get_by_kind of_kind kind name metadata create_pod_from_template text_eq
    Dict.values pod_owned_by_deployment labels_match extend Dict.get Dict.put starts_with
nothing_drawn =
    (λ i below. absurd (omega (arith, below)), λ i j below. absurd (omega (arith, below)))

reconcile_impl_lem_example :
    (reconcile_impl 5 always randoms (deployment one_web) two_running
      ≡ (after one_web one_spec 5 always randoms two_running, true))
    × (take
          (length (counted one_web one_spec two_running))
          (counted one_web one_spec (after one_web one_spec 5 always randoms two_running))
        ≡ take (replicas_of one_web one_spec) (counted one_web one_spec two_running))
    × (length (counted one_web one_spec (after one_web one_spec 5 always randoms two_running))
        ≡ replicas_of one_web one_spec)
    × (reconcile_impl 6 starts randoms
          (deployment one_web)
          (after one_web one_spec 5 always randoms two_running)
        ≡ (after one_web one_spec 5 always randoms two_running, true))
reconcile_impl_lem_example =
    reconcile_impl_lem one_web one_spec 5 6 always starts randoms randoms two_running refl one_key
      (λ n. refl) two_running-IsKeyed two_running-AreDistinct nothing_drawn

first_stays :
    counted one_web one_spec
      (on_apply 5 always randoms (deployment one_web) (
        (
          codes "Deployment/prod/web",
          record { resource = deployment one_web; state = pending; last_updated = 1 },
        )
        ∷ two_running)).0
    ≡ codes "web-pod-a" ∷ []
unfolding on_apply reconcile_impl reconcile create_pods create_pod_from_template matching
    remove_pods find_name reversed pod_owned_by_deployment labels_match extend uid kind name
    namespace metadata get get_by_kind of_kind apply delete update_state Dict.get Dict.put
    Dict.remove Dict.values text_eq starts_with
first_stays = refl

failing :
    on_apply 5 always randoms (deployment web) (
      (
        codes "Deployment/prod/web",
        record { resource = deployment web; state = pending; last_updated = 1 },
      )
      ∷ [])
    ≡ (
      (
        codes "Deployment/prod/web",
        record { resource = deployment web; state = pending; last_updated = 1 },
      )
          ∷ [],
      false,
    )
unfolding on_apply reconcile_impl uid kind name namespace metadata get Dict.get text_eq
failing = refl
