-- ===== src/Compute/Pod.antt =====
-- src/components/compute/pod.rs: `PodResource` as a component, beside that of the services. Whether a
-- start succeeds, and what it changes, is an argument; a start that is spawned is recorded.
pub mod Routed
mod Runs
use z8s.Base.{
  ℕ, zero, suc, ◌+◌, ◌-◌, ◌*◌, ◌/◌, ◌%◌, ◌^◌, ◌≤◌, ◌<◌, min, max, ◌≡◌, refl, sym, ap, ◌∙◌, ◌≢◌, ◌↔◌,
  ◌⊎◌, inl, inr, Bool, true, false, not, ◌&&◌, ◌||◌, Option, none, some, List, [], ◌∷◌, ◌++◌, map,
  arith, dec_lt, ltb, leb, ◌==◌, if◌then◌else◌, Bool-cases, Option-cases, unwrap_or, is_some,
  length, get_elem?, take, drop, length-append, any, all, All, All-append,
}
use z8s.Base.Text.{Text, codes}
use z8s.Base.Dict
use z8s.Base.Dict.{Dict}
use z8s.Resource.{AnyResource, Pod, pod, name}
use z8s.Resource.Store.{ResourceStore, ResourceTracker, ResourceState}
use z8s.Scheduler.Process.{RunningContainer, is_ready, pod_ip}
use z8s.Net.Nft.{Kernel}
use z8s.Net.Policies.{update_policies, remove_policies}
use z8s.Net.Services
use z8s.Net.Services.{NetworkManager, sync_services_for_labels}
use z8s.Components.{Component, ResourceCategory, compute, network}

-- What the components act on: the resources, the running containers, the network, and the starts
-- that have been spawned.
pub record World : Type 0 where
  pub store : ResourceStore
  pub running : Dict RunningContainer
  pub net : NetworkManager
  pub spawned : List AnyResource

abbrev pub is_pending : ResourceState → Bool
is_pending ResourceState.pending = true
is_pending _ = false

abbrev pub is_state_running : ResourceState → Bool
is_state_running ResourceState.running = true
is_state_running _ = false

abbrev pub ns_of : Pod → Text
ns_of p = unwrap_or p.metadata.namespace (codes "default")

abbrev pub labels_of : Pod → Dict Text
labels_of p = unwrap_or p.metadata.labels []

module _ (k : Kernel) (start_pod : AnyResource → World → World × Bool)
    (stop_pod : AnyResource → World → World) where
  -- `ctx.net.sync_services_for_labels`.
  abbrev pub sync_for : Pod → World → World
  sync_for p w = record w {
    net = sync_services_for_labels k w.store w.running (ns_of p) (labels_of p) w.net;
  }

  abbrev pub update_for : Option ℕ → Pod → World → World
  update_for none p w = w
  update_for (some ip) p w = record w {
    net = record w.net { nft = update_policies k ip (labels_of p) w.net.nft };
  }

  abbrev pub when_running : AnyResource → World → World
  when_running (pod p) w = update_for (pod_ip (name (pod p)) w.running) p (sync_for p w)
  when_running _ w = w

  abbrev pub spawn_start : Bool → AnyResource → World → World
  spawn_start true r w = record w { spawned = w.spawned ++ (r ∷ []) }
  spawn_start false r w = w

  -- `reconcile`.
  unfoldable pub reconcile : ResourceTracker → World → World × Bool
  reconcile t w =
      let started = spawn_start (is_pending t.state) t.resource w in
      (
        if is_state_running t.state && is_ready (name t.resource) started.running
            then when_running t.resource started
            else started,
        true,
      )

  abbrev pub sync_started : AnyResource → World × Bool → World × Bool
  sync_started (pod p) (w, true) = (sync_for p w, true)
  sync_started _ (w, true) = (w, true)
  sync_started r (w, false) = (w, false)

  -- `on_apply`: a start that fails ends it.
  unfoldable pub on_apply : AnyResource → World → World × Bool
  on_apply r w = sync_started r (start_pod r w)

  abbrev pub forget_at : Option ℕ → World → World
  forget_at none w = w
  forget_at (some ip) w = record w { net = record w.net { nft = remove_policies k ip w.net.nft } }

  abbrev pub forget : AnyResource → World → World
  forget (pod p) w = forget_at (pod_ip (unwrap_or p.metadata.name []) w.running) w
  forget _ w = w

  -- `on_delete`.
  unfoldable pub on_delete : AnyResource → World → World × Bool
  on_delete r w = (stop_pod r (forget r w), true)

  -- The component.
  abbrev pub pod_resource : Component World
  pod_resource = record {
    kind = codes "Pod";
    category = compute;
    reconcile = reconcile;
    on_apply = on_apply;
    on_delete = on_delete;
  }

-- `ServiceResource` of src/components/network/service.rs.
abbrev pub service_resource : Kernel → Component World
service_resource k = record {
  kind = codes "Service";
  category = network;
  reconcile = λ t w. (w, true);
  on_apply = λ r w. (record w { net = Services.on_apply k w.store w.running r w.net }, true);
  on_delete = λ r w. (record w { net = Services.on_delete k w.store r w.net }, true);
}
