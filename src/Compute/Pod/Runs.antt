-- ===== src/Compute/Pod/Runs.antt =====
-- src/components/compute/pod.rs: a pod that is applied beside its service.
use z8s.Base.{◌≡◌, refl, inl, inr, arith, Bool, true, none, some, List, [], ◌∷◌}
use z8s.Base.Text.{Text, codes, text_eq, starts_with}
use z8s.Base.Int.{pos}
use z8s.Base.Dict
use z8s.Base.Dict.{Dict}
use z8s.Net.Nft.{Kernel, is_ok, done, new}
use z8s.Net.Nft.Sent.{Accepts}
use z8s.Resource.{
  ObjectMeta, AnyResource, Pod, Service, ServiceSpec, ServicePort, pod, service, kind,
}
use z8s.Resource.Store
use z8s.Resource.Store.{ResourceStore, ResourceTracker, get_by_kind}
use z8s.Scheduler.Process.{RunningContainer}
use z8s.Net.Services.Kinds.{IsHeadless}
use z8s.Net.Services.Routing.{LeadsTo, IsUp, Selects}
use z8s.Components
use z8s.Components.{ComponentRegistry, register, on_apply}
use z8s.Components.Dispatch.{register_all, last_of, get-register_all, KeptBy}
use z8s.Compute.Pod.{World, pod_resource, service_resource}
use z8s.Compute.Pod.Routed.{applied_pod-LeadsTo}

abbrev kernel : Kernel
kernel = record { answer = λ h b. done; parse_network = λ s. none }

kernel-Accepts : Accepts kernel
unfolding is_ok
kernel-Accepts h b = refl

abbrev app : Dict Text
app = (codes "app", codes "web") ∷ []

abbrev meta : Text → ObjectMeta
meta n = record {
  name = some n;
  namespace = none;
  uid = none;
  labels = some app;
  owner_references = none;
}

abbrev web_pod : Pod
web_pod = record { metadata = meta (codes "web-0"); spec = none }

abbrev http : ServicePort
http = record { port = pos 80; target_port = none; node_port = none }

abbrev web_spec : ServiceSpec
web_spec = record {
  type_ = none;
  cluster_ip = some (codes "10.96.0.10");
  external_name = none;
  selector = some app;
  ports = some (http ∷ []);
}

abbrev web : Service
web = record { metadata = meta (codes "web"); spec = some web_spec }

abbrev tracked : AnyResource → ResourceTracker
tracked r = record { resource = r; state = Store.running; last_updated = 1 }

abbrev store : ResourceStore
store =
    (codes "Pod/default/web-0", tracked (pod web_pod))
    ∷ (codes "Service/default/web", tracked (service web))
    ∷ []

abbrev container_up : RunningContainer
container_up = record {
  instance = record {
    container_id = codes "web-0-main";
    pid = some 7;
    published_ports = [];
    isolated_net = true;
    pod_ip = some 183762946;
  };
  log_buffer = [];
  ready = true;
}

abbrev up : Dict RunningContainer
up = (codes "web-0-main", container_up) ∷ []

abbrev before : World
before = record {
  store = store;
  running = [];
  net = record { proxies = []; nft = new };
  spawned = [];
}

-- A start that leaves one container running.
abbrev start : AnyResource → World → World × Bool
start r w = (record w { running = up }, true)

abbrev stop : AnyResource → World → World
stop r w = record w { running = [] }

abbrev components : List (Components.Component World)
components = pod_resource kernel start stop ∷ service_resource kernel ∷ []

abbrev registry : ComponentRegistry World
registry =
    (codes "Pod", pod_resource kernel start stop) ∷ (codes "Service", service_resource kernel) ∷ []

pod_registered : Dict.get (codes "Pod") registry ≡ some (pod_resource kernel start stop)
unfolding Dict.get text_eq
pod_registered = refl

web-IsUp :
    IsUp kernel store up
      (tracked (pod web_pod))
      (tracked (service web))
      web_pod
      web
      web_spec
      http
      183762946
unfolding get_by_kind kind text_eq Dict.values starts_with
web-IsUp = (
  inl refl,
  refl,
  record {
    before = [];
    container = (codes "web-0-main", container_up);
    behind = [];
    listed = refl;
    begins = refl;
    address = refl;
    first = tt;
  },
)

not_headless : IsHeadless (codes "10.96.0.10") → ⊥
not_headless (inl e) = absurd (ground (arith, e))
not_headless (inr e) = absurd (ground (arith, e))

web-Selects :
    Selects kernel store up
      (tracked (pod web_pod))
      (tracked (service web))
      web_pod
      web
      web_spec
      http
      183762946
unfolding get_by_kind kind text_eq Dict.values Dict.get
web-Selects = (
  inl refl,
  refl,
  refl,
  refl,
  not_headless,
  inl refl,
  λ (e : app ≡ []). absurd (ground (arith, e)),
  (refl, tt),
)

applied_pod-LeadsTo_example :
    LeadsTo kernel store up
      (codes "10.96.0.10")
      (codes "default")
      http
      183762946
      (on_apply World registry [] (pod web_pod) before).net
applied_pod-LeadsTo_example =
    applied_pod-LeadsTo kernel start stop registry kernel-Accepts before
      (record before { running = up }) (tracked (pod web_pod)) (tracked (service web)) web_pod web
      web_spec http 183762946 pod_registered refl web-IsUp web-Selects

get-register_all_example :
    Dict.get (codes "Pod") (register_all World components [])
    ≡ last_of World (codes "Pod") components (Dict.get (codes "Pod") [])
get-register_all_example = get-register_all World (codes "Pod") components []

-- The services' component leaves the store alone.
abbrev SameStore : World → Type 0
SameStore w = w.store ≡ store

abbrev services_only : ComponentRegistry World
services_only = (codes "Service", service_resource kernel) ∷ []

services-KeptBy : KeptBy World SameStore services_only
services-KeptBy =
    (record { by_reconcile = λ t w p. p; by_apply = λ r w p. p; by_delete = λ r w p. p }, tt)
