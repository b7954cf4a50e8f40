-- ===== src/Net/Services/Runs.antt =====
-- src/components/network/service.rs: a service with one pod.
use z8s.Base.{inr, ℕ, ◌≡◌, refl, ◌↔◌, inl, true, none, some, [], ◌∷◌, if◌then◌else◌}
use z8s.Base.{Has}
use z8s.Base.Text.{Text, codes, text_eq, starts_with}
use z8s.Base.Int.{pos}
use z8s.Base.Dict
use z8s.Base.Dict.{Dict}
use z8s.Net.Nft.{Kernel, is_ok, done, chain_name, new}
use z8s.Net.Nft.Sent.{Accepts}
use z8s.Net.Nft.Growth.{IsRouted, rule_to}
use z8s.Resource.{
  ObjectMeta, AnyResource, Pod, Service, ServiceSpec, ServicePort, int, pod, service, kind,
}
use z8s.Resource.Store.{ResourceStore, ResourceTracker, running, get_by_kind}
use z8s.Scheduler.Process.{RunningContainer, ContainerInstance}
use z8s.Net.Services.{NetworkManager, resolve_backend_pods, remove_service, service_key}
use z8s.Net.Services.Addressed.{IsAddressed}
use z8s.Net.Services.Backends.{Matches, Backend, resolve_backend_pods_iff}
use z8s.Net.Services.Growth.{bound}
use z8s.Net.Services.Removal.{remove_service_lem}
use z8s.Net.Services.Routing.{Targets, headless_nodeport-IsRouted}

-- A kernel that takes everything.
abbrev willing : Kernel
willing = record { answer = λ h b. done; parse_network = λ s. none }

willing-Accepts : Accepts willing
unfolding is_ok
willing-Accepts h b = refl

abbrev app : Dict Text
app = (codes "app", codes "web") ∷ []

abbrev meta : Text → ObjectMeta
meta n = record {
  name = some n;
  namespace = some (codes "prod");
  uid = none;
  labels = some app;
  owner_references = none;
}

abbrev web_pod : Pod
web_pod = record { metadata = meta (codes "web-0"); spec = none }

abbrev http : ServicePort
http = record { port = pos 80; target_port = some (int (pos 8080)); node_port = some (pos 30080) }

abbrev web_spec : ServiceSpec
web_spec = record {
  type_ = some (codes "NodePort");
  cluster_ip = some (codes "10.96.0.10");
  external_name = none;
  selector = some app;
  ports = some (http ∷ []);
}

abbrev web : Service
web = record { metadata = meta (codes "web"); spec = some web_spec }

abbrev tracked : AnyResource → ResourceTracker
tracked r = record { resource = r; state = running; last_updated = 1 }

abbrev store : ResourceStore
store =
    (codes "Pod/prod/web-0", tracked (pod web_pod))
    ∷ (codes "Service/prod/web", tracked (service web))
    ∷ []

abbrev instance_up : ContainerInstance
instance_up = record {
  container_id = codes "web-0-main";
  pid = some 7;
  published_ports = [];
  isolated_net = true;
  pod_ip = some 183762946;
}

abbrev up : Dict RunningContainer
up = (codes "web-0-main", record { instance = instance_up; log_buffer = []; ready = true }) ∷ []

pod_found : Has (tracked (pod web_pod)) (get_by_kind (codes "Pod") store)
unfolding get_by_kind kind text_eq Dict.values
pod_found = inl refl

service_found : Has (tracked (service web)) (get_by_kind (codes "Service") store)
unfolding get_by_kind kind text_eq Dict.values
service_found = inl refl

addressed : IsAddressed (codes "web-0") up 183762946
unfolding starts_with
addressed = record {
  before = [];
  container =
      (codes "web-0-main", record { instance = instance_up; log_buffer = []; ready = true });
  behind = [];
  listed = refl;
  begins = refl;
  address = refl;
  first = tt;
}

matches_app : Matches app app
unfolding Dict.get text_eq
matches_app = (refl, tt)

backend : Backend up app (codes "prod") store 183762946
backend = (
  tracked (pod web_pod),
  pod_found,
  record {
    the_pod = web_pod;
    is_pod = refl;
    in_ns = refl;
    matches = matches_app;
    has_address = addressed;
  },
)

abbrev idle : NetworkManager
idle = record {
  proxies = (codes "prod/web:clusterip:80", tt) ∷ (codes "prod/web-2:clusterip:80", tt) ∷ [];
  nft = new;
}

-- The service web-2 loses its proxy with web.
both_removed : (remove_service willing store (codes "prod") (codes "web") idle).proxies ≡ []
unfolding remove_service starts_with Dict.remove text_eq
both_removed = refl

remove_service_lem_example :
    ((key : Text)
      → Dict.get key (remove_service willing store (codes "prod") (codes "web") idle).proxies ≡ (
          if starts_with key (service_key (codes "prod") (codes "web"))
          then none
          else Dict.get key idle.proxies))
    × ((remove_service willing store (codes "prod") (codes "web") idle).nft.nodeport_jump_track
        ≡ [])
remove_service_lem_example = remove_service_lem willing store (codes "prod") (codes "web") idle

resolve_backend_pods_iff_example :
    Has (183762946, 8080) (resolve_backend_pods store up app (codes "prod") 8080)
    ↔ ((◌≡◌ {A = ℕ} 8080 8080) × Backend up app (codes "prod") store 183762946)
resolve_backend_pods_iff_example =
    resolve_backend_pods_iff up app (codes "prod") store 183762946 8080 8080

headless_nodeport-IsRouted_example :
    (target : ℕ) × Targets willing store up (codes "prod") http http.target_port target
    × IsRouted
        (chain_name 174063617 80)
        (rule_to 174063617 80 183762946 target)
        (bound willing store up
          (codes "prod/db")
          app
          (codes "prod")
          (codes "None")
          (codes "NodePort")
          http
          idle).nft
headless_nodeport-IsRouted_example =
    headless_nodeport-IsRouted willing store up willing-Accepts (codes "prod/db") app (codes "prod")
      (codes "None") (codes "NodePort") http (pos 30080) 183762946 idle (inr refl) (inl refl) refl
      backend
