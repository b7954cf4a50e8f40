-- ===== src/Resource/Store.antt =====
-- src/types.rs: `ResourceStore`. The time of a change is an argument.
pub mod Laws
pub mod Held
mod Runs
use z8s.Base.{
  ℕ, zero, suc, ◌+◌, ◌-◌, ◌*◌, ◌/◌, ◌%◌, ◌^◌, ◌≤◌, ◌<◌, min, max, ◌≡◌, refl, sym, ap, ◌∙◌, ◌≢◌, ◌↔◌,
  ◌⊎◌, inl, inr, Bool, true, false, not, ◌&&◌, ◌||◌, Option, none, some, List, [], ◌∷◌, ◌++◌, map,
  arith, dec_lt, ltb, leb, ◌==◌, if◌then◌else◌, Bool-cases, Option-cases, unwrap_or, is_some,
  length, get_elem?, take, drop, length-append, any, all, All, All-append,
}
use z8s.Base.Text.{Text, text_eq}
use z8s.Base.Dict
use z8s.Base.Dict.{Dict}
use z8s.Resource.{AnyResource, kind, uid}

pub data ResourceState : Type 0 where
  pending running succeeded : ResourceState
  failed : Text → ResourceState
  terminated : ResourceState

pub record ResourceTracker : Type 0 where
  pub resource : AnyResource
  pub state : ResourceState
  pub last_updated : ℕ

-- `ResourceTracker::new`.
abbrev pub new_tracker : ℕ → AnyResource → ResourceTracker
new_tracker now r = record { resource = r; state = pending; last_updated = now }

abbrev pub ResourceStore : Type 0
ResourceStore = Dict ResourceTracker

-- `if let Some(state) = existing_state { tracker.state = state; }`
abbrev pub keep_state : Option ResourceTracker → ResourceTracker → ResourceTracker
keep_state none t = t
keep_state (some old) t = record t { state = old.state }

-- `apply`.
unfoldable pub apply : ℕ → AnyResource → ResourceStore → ResourceStore
apply now r store = Dict.put (uid r) (keep_state (Dict.get (uid r) store) (new_tracker now r)) store

-- `delete`.
unfoldable pub delete : AnyResource → ResourceStore → ResourceStore
delete r store = Dict.remove (uid r) store

-- `get_all`.
unfoldable pub get_all : ResourceStore → List ResourceTracker
get_all store = Dict.values store

unfoldable pub of_kind : Text → List ResourceTracker → List ResourceTracker
of_kind k [] = []
of_kind k (t ∷ ts) =
    let rest = of_kind k ts in if text_eq (kind t.resource) k then t ∷ rest else rest

-- `get_by_kind`.
unfoldable pub get_by_kind : Text → ResourceStore → List ResourceTracker
unfolding of_kind
get_by_kind k store = of_kind k (Dict.values store)

-- `get`.
unfoldable pub get : Text → ResourceStore → Option ResourceTracker
get key store = Dict.get key store

abbrev pub set_state :
    ℕ → Text → ResourceState → Option ResourceTracker → ResourceStore → ResourceStore
set_state now key state none store = store
set_state now key state (some t) store =
    Dict.put key (record t { state = state; last_updated = now }) store

-- `update_state`: a missing key changes nothing.
unfoldable pub update_state : ℕ → Text → ResourceState → ResourceStore → ResourceStore
update_state now key state store = set_state now key state (Dict.get key store) store
