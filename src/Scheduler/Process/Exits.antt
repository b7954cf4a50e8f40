-- ===== src/Scheduler/Process/Exits.antt =====
-- src/scheduler/process.rs: `handle_exited_containers`.
pub mod Removal
pub mod Policy
use z8s.Base.{
  ℕ, zero, suc, ◌+◌, ◌-◌, ◌*◌, ◌/◌, ◌%◌, ◌^◌, ◌≤◌, ◌<◌, min, max, ◌≡◌, refl, sym, ap, ◌∙◌, ◌≢◌, ◌↔◌,
  ◌⊎◌, inl, inr, Bool, true, false, not, ◌&&◌, ◌||◌, Option, none, some, List, [], ◌∷◌, ◌++◌, map,
  arith, dec_lt, ltb, leb, ◌==◌, if◌then◌else◌, Bool-cases, Option-cases, unwrap_or, is_some,
  length, get_elem?, take, drop, length-append, any, all, All, All-append,
}
use z8s.Base.Text.{Text, codes, text_eq, starts_with}
use z8s.Base.Numbers.{decimal}
use z8s.Base.Int.{ℤ, pos, negsuc}
use z8s.Base.Dict
use z8s.Base.Dict.{Dict}
use z8s.Base.Checked.{Checked, ok, overflow, ◌>>=◌, add32}
use z8s.Resource.{AnyResource, Pod, PodSpec, pod, name, uid}
use z8s.Resource.Store.{
  ResourceStore, ResourceTracker, ResourceState, pending, succeeded, failed, get_all, update_state,
}
use z8s.Scheduler.Process.{RunningContainer, prefix_of, lookup}
use z8s.Scheduler.Process.Backoff.{delay_secs}

-- A task that was spawned: after a delay the resource becomes `Pending`.
pub record Restart : Type 0 where
  pub delay_secs : ℕ
  pub uid : Text

-- The maps of the tracker, the store, and the tasks that were spawned, the latest first.
pub record Exits : Type 0 where
  pub running : Dict RunningContainer
  pub restart_counts : Dict ℕ
  pub store : ResourceStore
  pub restarts : List Restart

abbrev pub exit_of : Text → Option ℤ → Option (Text × ℤ)
exit_of container_id none = none
exit_of container_id (some code) = some (container_id, code)

abbrev pub dead_at : List (ℕ × ℤ) → Text → Option ℕ → Option (Text × ℤ)
dead_at reaped_map container_id none = none
dead_at reaped_map container_id (some pid) = exit_of container_id (lookup pid reaped_map)

-- The dead container, if the process of this one was reaped. `reaped_map` is given as a map.
abbrev pub dead_of : List (ℕ × ℤ) → RunningContainer → Option (Text × ℤ)
dead_of reaped_map rc = dead_at reaped_map rc.instance.container_id rc.instance.pid

abbrev pub push_dead : Option (Text × ℤ) → List (Text × ℤ) → List (Text × ℤ)
push_dead none dead = dead
push_dead (some d) dead = d ∷ dead

-- `dead`.
unfoldable pub dead_in : List (ℕ × ℤ) → List RunningContainer → List (Text × ℤ)
dead_in reaped_map [] = []
dead_in reaped_map (rc ∷ rcs) = push_dead (dead_of reaped_map rc) (dead_in reaped_map rcs)

-- A pod whose name and a dash the container's id begins with.
abbrev pub owns : Text → AnyResource → Bool
owns container_id (pod p) = starts_with container_id (prefix_of (name (pod p)))
owns container_id _ = false

-- `pod_tracker`.
unfoldable pub owner : Text → List ResourceTracker → Option ResourceTracker
owner container_id [] = none
owner container_id (t ∷ ts) =
    let rest = owner container_id ts in if owns container_id t.resource then some t else rest

abbrev pub pod_policy : Option PodSpec → Option Text
pod_policy none = none
pod_policy (some s) = s.restart_policy

abbrev pub policy_in : AnyResource → Option Text
policy_in (pod p) = pod_policy p.spec
policy_in _ = none

-- `restart_policy` and `pod_uid`.
abbrev pub policy_of : Option ResourceTracker → Text
policy_of none = codes "Always"
policy_of (some t) = unwrap_or (policy_in t.resource) (codes "Always")

abbrev pub uid_of : Option ResourceTracker → Text
uid_of none = []
uid_of (some t) = uid t.resource

abbrev pub is_zero : ℤ → Bool
is_zero (pos n) = n == 0
is_zero (negsuc n) = false

abbrev pub should_restart : Text → ℤ → Bool
should_restart restart_policy exit_code =
    if text_eq restart_policy (codes "Always")
    then true
    else if text_eq restart_policy (codes "OnFailure")
    then not (is_zero exit_code)
    else if text_eq restart_policy (codes "Never")
    then false
    else true

-- `{}` of an i32.
abbrev pub exit_text : ℤ → Text
exit_text (pos n) = decimal n
exit_text (negsuc n) = b'-' ∷ decimal (suc n)

-- The state of a pod that is not restarted.
abbrev pub final_state : ℤ → ResourceState
final_state exit_code =
    if is_zero exit_code then succeeded else failed (codes "exit code " ++ exit_text exit_code)

abbrev pub schedule : Text → ℕ → List Restart → List Restart
schedule [] restart_count restarts = restarts
schedule (c ∷ s) restart_count restarts =
    record { delay_secs = delay_secs restart_count; uid = c ∷ s } ∷ restarts

abbrev pub finish : ℕ → Text → ℤ → ResourceStore → ResourceStore
finish now [] exit_code store = store
finish now (c ∷ s) exit_code store = update_state now (c ∷ s) (final_state exit_code) store

-- One round of the loop over `dead`.
unfoldable pub handle_exited : ℕ → Exits → Text × ℤ → Checked Exits
unfolding owner
handle_exited now e (container_id, exit_code) =
    let pod_tracker = owner container_id (get_all e.store) in
    let pod_uid = uid_of pod_tracker in
    let rest = Dict.remove container_id e.running in
    if should_restart (policy_of pod_tracker) exit_code
    then (add32 (unwrap_or (Dict.get container_id e.restart_counts) 0) 1 >>= λ restart_count.
        ok (record e {
          running = rest;
          restart_counts = Dict.put container_id restart_count e.restart_counts;
          restarts = schedule pod_uid restart_count e.restarts;
        }))
    else ok (record e { running = rest; store = finish now pod_uid exit_code e.store })

unfoldable pub handle_dead : ℕ → Exits → List (Text × ℤ) → Checked Exits
unfolding handle_exited
handle_dead now e [] = ok e
handle_dead now e (d ∷ dead) = handle_exited now e d >>= λ e'. handle_dead now e' dead

-- `handle_exited_containers`.
unfoldable pub handle_exited_containers : ℕ → List (ℕ × ℤ) → Exits → Checked Exits
unfolding dead_in handle_dead
handle_exited_containers now reaped_map e =
    handle_dead now e (dead_in reaped_map (Dict.values e.running))
