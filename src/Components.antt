-- ===== src/Components.antt =====
-- src/components/mod.rs and src/scheduler/reconciler.rs. A component is a record of its operations on
-- the state of the program, which is a parameter; an error that an operation returns is only logged.
pub mod Dispatch
use z8s.Base.{
  ℕ, zero, suc, ◌+◌, ◌-◌, ◌*◌, ◌/◌, ◌%◌, ◌^◌, ◌≤◌, ◌<◌, min, max, ◌≡◌, refl, sym, ap, ◌∙◌, ◌≢◌, ◌↔◌,
  ◌⊎◌, inl, inr, Bool, true, false, not, ◌&&◌, ◌||◌, Option, none, some, List, [], ◌∷◌, ◌++◌, map,
  arith, dec_lt, ltb, leb, ◌==◌, if◌then◌else◌, Bool-cases, Option-cases, unwrap_or, is_some,
  length, get_elem?, take, drop, length-append, any, all, All, All-append,
}
use z8s.Base.Text.{Text, text_eq}
use z8s.Base.Int.{ℤ}
use z8s.Base.Dict
use z8s.Base.Dict.{Dict}
use z8s.Resource.{AnyResource, kind, uid}
use z8s.Resource.Store.{ResourceStore, ResourceTracker, get_all}

pub data ResourceCategory : Type 0 where
  compute network storage : ResourceCategory

abbrev pub same_category : ResourceCategory → ResourceCategory → Bool
same_category compute compute = true
same_category network network = true
same_category storage storage = true
same_category _ _ = false

module _ (S : Type 0) where
  -- An operation returns the new state, and whether it is `Ok`.
  pub record Component : Type 0 where
    pub kind : Text
    pub category : ResourceCategory
    pub reconcile : ResourceTracker → S → S × Bool
    pub on_apply : AnyResource → S → S × Bool
    pub on_delete : AnyResource → S → S × Bool

  -- The handler of `register_handler`, which has no state.
  abbrev pub handler : Text → ResourceCategory → Component
  handler kind cat = record {
    kind = kind;
    category = cat;
    reconcile = λ t s. (s, true);
    on_apply = λ r s. (s, true);
    on_delete = λ r s. (s, true);
  }

  pub record PipelineStage : Type 0 where
    pub interests : List Text
    pub on_created : AnyResource → S → S × Bool
    pub on_deleted : Text → Text → S → S × Bool

  abbrev pub ComponentRegistry : Type 0
  ComponentRegistry = Dict Component

  -- `register`: a component of the same kind is replaced.
  unfoldable pub register : Component → ComponentRegistry → ComponentRegistry
  register c registry = Dict.put c.kind c registry

  -- `by_category`.
  unfoldable pub by_category : ResourceCategory → ComponentRegistry → List Component
  by_category cat [] = []
  by_category cat ((k, c) ∷ registry) =
      let rest = by_category cat registry in if same_category c.category cat then c ∷ rest else rest

  abbrev pub is_interested : Text → PipelineStage → Bool
  is_interested k stage = any (λ i. text_eq i k) stage.interests

  -- `dispatch_created` and `dispatch_deleted`.
  unfoldable pub dispatch_created : List PipelineStage → AnyResource → S → S
  dispatch_created [] r s = s
  dispatch_created (stage ∷ stages) r s =
      dispatch_created stages r
        (if is_interested (kind r) stage then (stage.on_created r s).0 else s)

  unfoldable pub dispatch_deleted : List PipelineStage → Text → Text → S → S
  dispatch_deleted [] k u s = s
  dispatch_deleted (stage ∷ stages) k u s =
      dispatch_deleted stages k u (if is_interested k stage then (stage.on_deleted k u s).0 else s)

  abbrev pub apply_by : Option Component → AnyResource → S → S
  apply_by none r s = s
  apply_by (some c) r s = (c.on_apply r s).0

  abbrev pub delete_by : Option Component → AnyResource → S → S
  delete_by none r s = s
  delete_by (some c) r s = (c.on_delete r s).0

  abbrev pub reconcile_by : Option Component → ResourceTracker → S → S
  reconcile_by none t s = s
  reconcile_by (some c) t s = (c.reconcile t s).0

  -- `ComponentRegistry::on_apply` and `on_delete`.
  unfoldable pub on_apply : ComponentRegistry → List PipelineStage → AnyResource → S → S
  unfolding dispatch_created
  on_apply registry stages r s =
      dispatch_created stages r (apply_by (Dict.get (kind r) registry) r s)

  unfoldable pub on_delete : ComponentRegistry → List PipelineStage → AnyResource → S → S
  unfolding dispatch_deleted
  on_delete registry stages r s =
      dispatch_deleted stages (kind r) (uid r) (delete_by (Dict.get (kind r) registry) r s)

  unfoldable pub reconcile_each : ComponentRegistry → List ResourceTracker → S → S
  reconcile_each registry [] s = s
  reconcile_each registry (t ∷ ts) s =
      reconcile_each registry ts (reconcile_by (Dict.get (kind t.resource) registry) t s)

  -- `reconcile_all`, over the trackers that the store holds at its start.
  unfoldable pub reconcile_all : ComponentRegistry → (S → ResourceStore) → S → S
  unfolding reconcile_each
  reconcile_all registry store_of s = reconcile_each registry (get_all (store_of s)) s

  -- One round of `Reconciler::run`: the processes that ended, if there are any, and then all resources.
  unfoldable pub tick :
      ComponentRegistry → (S → ResourceStore) → (List (ℕ × ℤ) → S → S) → List (ℕ × ℤ) → S → S
  unfolding reconcile_all
  tick registry store_of handle_exited [] s = reconcile_all registry store_of s
  tick registry store_of handle_exited (ended ∷ more) s =
      reconcile_all registry store_of (handle_exited (ended ∷ more) s)

  -- The rounds of `run`, for what is reaped in each.
  unfoldable pub run :
      ComponentRegistry → (S → ResourceStore) → (List (ℕ × ℤ) → S → S) → List (List (ℕ × ℤ)) → S → S
  unfolding tick
  run registry store_of handle_exited [] s = s
  run registry store_of handle_exited (reaped ∷ rounds) s =
      run registry store_of handle_exited rounds (tick registry store_of handle_exited reaped s)
