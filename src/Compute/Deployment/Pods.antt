-- ===== src/Compute/Deployment/Pods.antt =====
-- src/components/compute/deployment.rs: the pods that are created are the ones that are counted.
use z8s.Base.{
  ◌≡◌, refl, sym, ap, ◌∙◌, ◌≢◌, Bool, true, false, ◌||◌, [], ◌∷◌, ◌++◌, arith, unwrap_or, All,
}
use z8s.Base.Text.{Text, codes, text_eq_iff, text_eq_refl, starts_with, starts_with-append}
use z8s.Base.Dict
use z8s.Base.Dict.{Dict, get-put}
use mathlib.Core.List.{append_assoc}
use z8s.Resource.{Deployment, DeploymentSpec, pod}
use z8s.Compute.Deployment.{
  labels_match, pod_owned_by_deployment, refers_to, extend, create_pod_from_template, default_meta,
  is_match, new_pod, pod_name_for,
}

-- No key stands twice.
abbrev pub IsMap : Dict Text → Type 0
IsMap [] = Unit
IsMap ((k, v) ∷ d) = All (λ e. k ≢ e.0) d × IsMap d

get-extend :
    (k : Text) (labels more : Dict Text)
    → All (λ e. k ≢ e.0) more
    → Dict.get k (extend labels more) ≡ Dict.get k labels
unfolding extend
get-extend k labels [] h = refl
get-extend k labels ((j, v) ∷ more) (ne, h) =
    get-extend k (Dict.put j v labels) more h
    ∙ get-put j k v labels
    ∙ ground (arith, text_eq_iff j k, ne)

-- What a map was extended by matches it.
extend-matches :
    (labels more : Dict Text) → IsMap more → labels_match more (extend labels more) ≡ true
unfolding labels_match extend
extend-matches labels [] h = refl
extend-matches labels ((k, v) ∷ more) (fresh, h) =
    rw
      (
        get-extend k (Dict.put k v labels) more fresh,
        get-put k k v labels,
        text_eq_refl k,
        text_eq_refl v,
      )
      (extend-matches (Dict.put k v labels) more h)

either : (a b : Bool) → b ≡ true → a || b ≡ true
either true b h = refl
either false b h = h

-- A pod that the loop creates is one of the deployment.
pub new_pod-is_match :
    (deploy : Deployment) (spec : DeploymentSpec) (deploy_name ns random : Text)
    → IsMap (unwrap_or spec.match_labels [])
    → is_match deploy_name ns
        (unwrap_or spec.match_labels [])
        (pod (new_pod deploy spec ns (pod_name_for deploy_name random)))
      ≡ true
unfolding pod_owned_by_deployment create_pod_from_template
new_pod-is_match deploy spec deploy_name ns random h =
    let named : starts_with (pod_name_for deploy_name random) (deploy_name ++ codes "-pod-")
        ≡ true =
      ap (λ s. starts_with s (deploy_name ++ codes "-pod-"))
        (sym (append_assoc deploy_name (codes "-pod-") random))
      ∙ starts_with-append (deploy_name ++ codes "-pod-") random in
    let labels : Dict Text = unwrap_or (unwrap_or spec.template.metadata default_meta).labels [] in
    rw
      (
        either
            (refers_to deploy_name
              (new_pod deploy spec ns (pod_name_for deploy_name random)).metadata.owner_references)
            _ named,
        extend-matches labels (unwrap_or spec.match_labels []) h,
        text_eq_refl ns,
      )
      refl
