-- ===== src/Scheduler/Process.antt =====
-- src/scheduler/process.rs: `ProcessTracker`, over the containers of src/cri/runtime.rs. The maps
-- are values, and what a spawned task will do is recorded. Signals and log output are left out.
pub mod Backoff
pub mod Exits
pub mod Ids
mod Runs
use z8s.Base.{
  ℕ, zero, suc, ◌+◌, ◌-◌, ◌*◌, ◌/◌, ◌%◌, ◌^◌, ◌≤◌, ◌<◌, min, max, ◌≡◌, refl, sym, ap, ◌∙◌, ◌≢◌, ◌↔◌,
  ◌⊎◌, inl, inr, Bool, true, false, not, ◌&&◌, ◌||◌, Option, none, some, List, [], ◌∷◌, ◌++◌, map,
  arith, dec_lt, ltb, leb, ◌==◌, if◌then◌else◌, Bool-cases, Option-cases, unwrap_or, is_some,
  length, get_elem?, take, drop, length-append, any, all, All, All-append,
}
use z8s.Base.Text.{Text, codes, text_eq, starts_with}
use z8s.Base.Text.Split.{rsplit_once}
use z8s.Base.Numbers.{decimal}
use z8s.Base.Int.{ℤ, pos, negsuc}
use z8s.Base.Dict
use z8s.Base.Dict.{Dict}
use z8s.Base.Checked.{Checked, ok, overflow, ◌>>=◌, add32}
use z8s.Resource.{AnyResource, Pod, PodSpec, pod, name, uid}
use z8s.Resource.Store.{
  ResourceStore, ResourceTracker, ResourceState, pending, succeeded, failed, get_all, update_state,
}

-- `ContainerInstance`, with the fields that the tracker reads.
pub record ContainerInstance : Type 0 where
  pub container_id : Text
  pub pid : Option ℕ
  pub published_ports : List (ℕ × ℕ)
  pub isolated_net : Bool
  pub pod_ip : Option ℕ

pub record RunningContainer : Type 0 where
  pub instance : ContainerInstance
  pub log_buffer : List Text
  pub ready : Bool

-- A map with numbers as keys.
abbrev pub lookup {ℓ} : {V : Type ℓ} → ℕ → List (ℕ × V) → Option V
lookup k [] = none
lookup k ((j, v) ∷ m) = if j == k then some v else lookup k m

-- `format!("{}-", pod_name)`.
abbrev pub prefix_of : Text → Text
prefix_of pod_name = pod_name ++ (b'-' ∷ [])

abbrev pub any_entry : (Text → RunningContainer → Bool) → Dict RunningContainer → Bool
any_entry test [] = false
any_entry test ((cid, rc) ∷ running) = test cid rc || any_entry test running

-- `is_running`.
unfoldable pub is_running : Text → Dict RunningContainer → Bool
is_running pod_name running = any_entry (λ cid rc. starts_with cid (prefix_of pod_name)) running

-- `is_ready`.
unfoldable pub is_ready : Text → Dict RunningContainer → Bool
unfolding is_running
is_ready pod_name running =
    if not (is_running pod_name running)
    then false
    else any_entry (λ cid rc. starts_with cid (prefix_of pod_name) && rc.ready) running

abbrev log_of : Option RunningContainer → List Text
log_of none = []
log_of (some rc) = rc.log_buffer

-- `get_logs`.
unfoldable pub get_logs : Text → Text → Dict RunningContainer → List Text
get_logs pod_name container_name running =
    log_of (Dict.get (pod_name ++ (b'-' ∷ container_name)) running)

-- `pod_restart_counts`.
unfoldable pub pod_restart_counts : Text → Dict ℕ → Dict ℕ
pod_restart_counts pod_name [] = []
pod_restart_counts pod_name ((k, v) ∷ counts) =
    let rest = pod_restart_counts pod_name counts in
    if starts_with k (prefix_of pod_name)
    then (drop (length (prefix_of pod_name)) k, v) ∷ rest
    else rest

-- What stands in front of the last dash, or all of it.
abbrev pub pod_of_id : Text → Text
pod_of_id cid = elim (rsplit_once b'-' cid) [ none ↦ cid | some (pod_name, _) ↦ pod_name ]

abbrev push_ip : Text → Option ℕ → List (Text × ℕ) → List (Text × ℕ)
push_ip cid none ips = ips
push_ip cid (some ip) ips = (pod_of_id cid, ip) ∷ ips

-- `pod_ips`.
unfoldable pub pod_ips : Dict RunningContainer → List (Text × ℕ)
pod_ips [] = []
pod_ips ((cid, rc) ∷ running) = push_ip cid rc.instance.pod_ip (pod_ips running)

abbrev pub or_else : Option ℕ → Option ℕ → Option ℕ
or_else none rest = rest
or_else (some ip) rest = some ip

-- `pod_ip`.
unfoldable pub pod_ip : Text → Dict RunningContainer → Option ℕ
pod_ip pod_name [] = none
pod_ip pod_name ((cid, rc) ∷ running) =
    let rest = pod_ip pod_name running in
    if starts_with cid (prefix_of pod_name) then or_else rc.instance.pod_ip rest else rest

-- `backend_connect_port`.
unfoldable pub backend_connect_port : Text → ℕ → Dict RunningContainer → ℕ
backend_connect_port pod_name container_port [] = container_port
backend_connect_port pod_name container_port ((cid, rc) ∷ running) =
    let rest = backend_connect_port pod_name container_port running in
    if starts_with cid (prefix_of pod_name)
    then (if rc.instance.isolated_net
        then unwrap_or (lookup container_port rc.instance.published_ports) container_port
        else container_port)
    else rest

abbrev ready_of : Option RunningContainer → Bool
ready_of none = false
ready_of (some rc) = rc.ready

-- `is_container_ready`.
unfoldable pub is_container_ready : Text → Dict RunningContainer → Bool
is_container_ready container_id running = ready_of (Dict.get container_id running)
