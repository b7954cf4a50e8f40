-- ===== src/Scheduler/Process/Runs.antt =====
-- Concrete runs of the process tracker, and the theorems at concrete inputs.
use z8s.Base.{
  ℕ, ◌+◌, ◌^◌, ◌<◌, ◌≡◌, refl, true, false, none, some, [], ◌∷◌, inl, arith, unwrap_or, length,
}
use z8s.Base.Text.{Text, codes, text_eq, starts_with}
use z8s.Base.Int.{pos}
use z8s.Base.Dict
use z8s.Base.Dict.{Dict}
use z8s.Base.Checked.{ok}
use z8s.Resource.{Pod, pod, name, metadata}
use z8s.Resource.Store.{ResourceTracker, running, get_all}
use z8s.Scheduler.Process.{RunningContainer}
use z8s.Scheduler.Process.Exits.{Exits, dead_in, handle_exited, handle_exited_containers}
use z8s.Scheduler.Process.Exits.Policy.{IsOwner, Handled, handle_exited_lem}
use z8s.Scheduler.Process.Exits.Removal.{IsTracked, HasRoom, survivor, handle_exited_containers_lem}

abbrev web_pod : Text → Pod
web_pod policy = record {
  metadata = record {
    name = some (codes "web");
    namespace = none;
    uid = none;
    labels = none;
    owner_references = none;
  };
  spec = some (record {
    containers = [];
    init_containers = none;
    restart_policy = some policy;
    volumes = none;
  });
}

abbrev web : ResourceTracker
web = record { resource = pod (web_pod (codes "OnFailure")); state = running; last_updated = 3 }

abbrev container : Text → ℕ → RunningContainer
container id pid = record {
  instance = record {
    container_id = id;
    pid = some pid;
    published_ports = [];
    isolated_net = false;
    pod_ip = none;
  };
  log_buffer = [];
  ready = true;
}

abbrev exits : Exits
exits = record {
  running =
      (codes "web-app", container (codes "web-app") 40)
      ∷ (codes "web-1-app", container (codes "web-1-app") 41)
      ∷ [];
  restart_counts = (codes "web-app", 1) ∷ [];
  store = (codes "Pod/default/web", web) ∷ [];
  restarts = [];
}

owned : IsOwner (codes "web-app") exits.store web (web_pod (codes "OnFailure"))
unfolding get_all Dict.values starts_with name metadata
owned = record {
  before = [];
  behind = [];
  stored = refl;
  is_pod = refl;
  begins = refl;
  no_other = tt;
}

room : unwrap_or (Dict.get (codes "web-app") exits.restart_counts) 0 + 1 < 2 ^ 32
unfolding Dict.get text_eq
room = omega arith

handle_exited_lem_example :
    Handled 9 exits
      (codes "web-app")
      (pos 1)
      web
      (codes "OnFailure")
      (handle_exited 9 exits (codes "web-app", pos 1))
handle_exited_lem_example =
    handle_exited_lem 9 exits (codes "web-app") (pos 1) web (web_pod (codes "OnFailure"))
      (codes "OnFailure") owned (inl (_, refl, refl)) room

tracked : IsTracked exits.running
tracked = (refl, ((λ e. absurd (ground (arith, e))), tt), (refl, tt, tt))

few : length (dead_in ((40, pos 1) ∷ []) (Dict.values exits.running)) < 2 ^ 32
unfolding dead_in Dict.values
few = omega arith

has_room :
    HasRoom (length (dead_in ((40, pos 1) ∷ []) (Dict.values exits.running))) exits.restart_counts
unfolding dead_in Dict.values
has_room = (omega arith, tt)

handle_exited_containers_lem_example :
    (e' : Exits) × (handle_exited_containers 9 ((40, pos 1) ∷ []) exits ≡ ok e')
    × ((k : Text) → Dict.get k e'.running ≡ survivor ((40, pos 1) ∷ []) (Dict.get k exits.running))
handle_exited_containers_lem_example =
    handle_exited_containers_lem 9 ((40, pos 1) ∷ []) exits tracked few has_room

there : Dict.get (codes "web-1-app") exits.running ≡ some (container (codes "web-1-app") 41)
unfolding Dict.get text_eq
there = refl

named : name web.resource ≡ codes "web"
unfolding name metadata
named = refl
