-- ===== src/Compute/Pod/Routed.antt =====
-- src/components/compute/pod.rs, src/components/mod.rs and src/components/network/service.rs together.
use z8s.Base.{ℕ, ◌≡◌, ap, Bool, true, some, [], unwrap_or}
use z8s.Base.Text.{codes}
use z8s.Base.Dict
use z8s.Base.Dict.{Dict}
use z8s.Resource.{AnyResource, Pod, Service, ServiceSpec, ServicePort, pod, kind}
use z8s.Resource.Store.{ResourceTracker}
use z8s.Net.Nft.{Kernel}
use z8s.Net.Nft.Sent.{Accepts}
use z8s.Net.Services.Routing.{LeadsTo, IsUp, Selects, sync_services-LeadsTo}
use z8s.Components
use z8s.Components.{ComponentRegistry}
use z8s.Compute.Pod.{World, ns_of, sync_for, pod_resource, on_apply, sync_started}

module _ (k : Kernel) (start_pod : AnyResource → World → World × Bool)
    (stop_pod : AnyResource → World → World) (registry : ComponentRegistry World) where
  applied_by :
      (w w' : World) (q : Pod)
      → Dict.get (codes "Pod") registry ≡ some (pod_resource k start_pod stop_pod)
      → start_pod (pod q) w ≡ (w', true)
      → Components.on_apply World registry [] (pod q) w ≡ sync_for k start_pod stop_pod q w'
  unfolding Components.on_apply Components.dispatch_created on_apply kind
  applied_by w w' q found started =
      rw found (ap (λ x. (sync_started k start_pod stop_pod (pod q) x).0) started)

  -- If the registry has the component of the pods, and starting a pod succeeds, after which the
  -- pod is tracked and an address is found for its name, then applying the pod through the registry
  -- has sent the kernel, if that takes every batch, a rule from every port of every tracked service
  -- of the pod's namespace that selects it, and that is not headless, to that address and the port
  -- that the target port stands for. The address is that of the first running container that has
  -- one among those whose ids begin with the pod's name and a dash, which need not be the pod's.
  pub applied_pod-LeadsTo :
      Accepts k
      → (w w' : World) (t u : ResourceTracker) (q : Pod) (svc : Service) (spec : ServiceSpec)
        (p : ServicePort) (a : ℕ)
      → Dict.get (codes "Pod") registry ≡ some (pod_resource k start_pod stop_pod)
      → start_pod (pod q) w ≡ (w', true)
      → IsUp k w'.store w'.running t u q svc spec p a
      → Selects k w'.store w'.running t u q svc spec p a
      → LeadsTo k w'.store w'.running
          (unwrap_or spec.cluster_ip [])
          (ns_of q)
          p
          a
          (Components.on_apply World registry [] (pod q) w).net
  applied_pod-LeadsTo accepts w w' t u q svc spec p a found started up sel =
      rw (applied_by w w' q found started)
        (sync_services-LeadsTo k w'.store w'.running t u q svc spec p a accepts up sel w'.net)
