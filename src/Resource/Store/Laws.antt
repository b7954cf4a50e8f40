-- ===== src/Resource/Store/Laws.antt =====
-- What the operations of `ResourceStore` in src/types.rs do to every key.
use z8s.Base.{
  ℕ, ◌≡◌, refl, ap, ◌∙◌, ◌≢◌, inl, inr, Option, none, some, List, [], ◌∷◌, arith, if◌then◌else◌,
  Bool-cases, All,
}
use z8s.Base.Text.{Text, text_eq, text_eq_iff}
use z8s.Base.Dict
use z8s.Base.Dict.{Dict, get-put, get-remove}
use z8s.Resource.{AnyResource, uid}
use z8s.Resource.Store.{
  ResourceState, pending, ResourceTracker, ResourceStore, apply, delete, get, update_state,
  keep_state, new_tracker, set_state,
}

-- The state that a key has, and `Pending` for a key that is not there.
abbrev pub state_or_pending : Option ResourceTracker → ResourceState
state_or_pending none = pending
state_or_pending (some t) = t.state

-- A tracker with another state and time.
abbrev pub restate : ℕ → ResourceState → Option ResourceTracker → Option ResourceTracker
restate now state none = none
restate now state (some t) = some (record t { state = state; last_updated = now })

kept :
    (now : ℕ) (r : AnyResource) (old : Option ResourceTracker)
    → keep_state old (new_tracker now r)
      ≡ record { resource = r; state = state_or_pending old; last_updated = now }
kept now r none = refl
kept now r (some t) = refl

get-set_state :
    (now : ℕ) (key j : Text) (state : ResourceState) (found : Option ResourceTracker)
    (s : ResourceStore)
    → Dict.get key s ≡ found
    → Dict.get j (set_state now key state found s)
      ≡ (if text_eq key j then restate now state found else Dict.get j s)
get-set_state now key j state none s e =
    ground (arith, e, text_eq_iff key j, λ (p : key ≡ j). ap (λ k. Dict.get k s) p)
get-set_state now key j state (some t) s e =
    get-put key j (record t { state = state; last_updated = now }) s

-- After `apply` the resource is found under its own key, with the state that this key had before,
-- or `Pending` if it is new. `delete` empties its key. `update_state` sets state and time of a key
-- that is there, and does nothing to one that is not. No operation changes any other key.
pub store_changes :
    (now : ℕ) (r : AnyResource) (key j : Text) (state : ResourceState) (s : ResourceStore)
    → (get j (apply now r s) ≡ (
        if text_eq (uid r) j
        then some
            (record { resource = r; state = state_or_pending (get (uid r) s); last_updated = now })
        else get j s))
      × (get j (delete r s) ≡ (if text_eq (uid r) j then none else get j s))
      × (get j (update_state now key state s)
          ≡ (if text_eq key j then restate now state (get key s) else get j s))
unfolding get apply delete update_state
store_changes now r key j state s = (
  rw (kept now r (Dict.get (uid r) s)) (get-put (uid r) j _ s),
  get-remove (uid r) j s,
  get-set_state now key j state (Dict.get key s) s refl,
)

-- Every entry stands under the key of its resource, and no key stands twice.
abbrev pub Fresh : Text → ResourceStore → Type 0
Fresh k s = All (λ e. k ≢ e.0) s

abbrev pub IsKeyed : ResourceStore → Type 0
IsKeyed [] = Unit
IsKeyed ((k, t) ∷ s) = (k ≡ uid t.resource) × Fresh k s × IsKeyed s

-- A change that the program makes to the store.
pub data Change : Type 0 where
  applied : ℕ → AnyResource → Change
  deleted : AnyResource → Change
  updated : ℕ → Text → ResourceState → Change

unfoldable pub change : Change → ResourceStore → ResourceStore
change (applied now r) s = apply now r s
change (deleted r) s = delete r s
change (updated now key state) s = update_state now key state s

unfoldable pub changes : List Change → ResourceStore → ResourceStore
changes [] s = s
changes (c ∷ cs) s = changes cs (change c s)

put-Fresh :
    (k j : Text) (t : ResourceTracker) (s : ResourceStore)
    → k ≢ j
    → Fresh k s
    → Fresh k (Dict.put j t s)
unfolding Dict.put
put-Fresh k j t [] ne h = (ne, tt)
put-Fresh k j t ((i, u) ∷ s) ne (h, hs) = ground (arith, put-Fresh k j t s ne hs)

put-IsKeyed :
    (k : Text) (t : ResourceTracker) (s : ResourceStore)
    → k ≡ uid t.resource
    → IsKeyed s
    → IsKeyed (Dict.put k t s)
unfolding Dict.put
put-IsKeyed k t [] e v = (e, tt, tt)
put-IsKeyed k t ((i, u) ∷ s) e (eq, fresh, v) = elim (Bool-cases (text_eq i k)) [
  | inl same ↦ rw same ((text_eq_iff i k).0 same ∙ e, fresh, v)
  | inr other ↦
      rw other (
        eq,
        put-Fresh i k t s (λ p. ground (arith, text_eq_iff i k, p)) fresh,
        put-IsKeyed k t s e v,
      )
]

remove-Fresh : (k j : Text) (s : ResourceStore) → Fresh k s → Fresh k (Dict.remove j s)
unfolding Dict.remove
remove-Fresh k j [] h = tt
remove-Fresh k j ((i, u) ∷ s) (h, hs) = ground (arith, remove-Fresh k j s hs)

pub remove-IsKeyed : (k : Text) (s : ResourceStore) → IsKeyed s → IsKeyed (Dict.remove k s)
unfolding Dict.remove
remove-IsKeyed k [] v = tt
remove-IsKeyed k ((i, u) ∷ s) (eq, fresh, v) = elim (Bool-cases (text_eq i k)) [
  | inl same ↦ rw same (remove-IsKeyed k s v)
  | inr other ↦ rw other (eq, remove-Fresh i k s fresh, remove-IsKeyed k s v)
]

-- A tracker that is found stands under the key of its resource.
pub found_key :
    (k : Text) (t : ResourceTracker) (s : ResourceStore)
    → IsKeyed s
    → Dict.get k s ≡ some t
    → k ≡ uid t.resource
unfolding Dict.get
found_key k t [] v e = absurd (ground arith)
found_key k t ((i, u) ∷ s) (eq, fresh, v) e = elim (Bool-cases (text_eq i k)) [
  | inl same ↦ ground (
    arith,
    same,
    text_eq_iff i k,
    eq,
    ap (λ (x : ResourceTracker). uid x.resource) (some_eq u t (ground (arith, same))),
  )
  | inr other ↦ found_key k t s v (ground (arith, other))
]
  where
    some_eq : (a b : ResourceTracker) → some a ≡ some b → a ≡ b
    some_eq a b p = cc

set_state-IsKeyed :
    (now : ℕ) (key : Text) (state : ResourceState) (found : Option ResourceTracker)
    (s : ResourceStore)
    → Dict.get key s ≡ found
    → IsKeyed s
    → IsKeyed (set_state now key state found s)
set_state-IsKeyed now key state none s e v = v
set_state-IsKeyed now key state (some t) s e v =
    put-IsKeyed key (record t { state = state; last_updated = now }) s (found_key key t s v e) v

change-IsKeyed : (c : Change) (s : ResourceStore) → IsKeyed s → IsKeyed (change c s)
unfolding change apply delete update_state
change-IsKeyed (applied now r) s v =
    rw (kept now r (Dict.get (uid r) s)) (put-IsKeyed (uid r) _ s refl v)
change-IsKeyed (deleted r) s v = remove-IsKeyed (uid r) s v
change-IsKeyed (updated now key state) s v =
    set_state-IsKeyed now key state (Dict.get key s) s refl v

changes-IsKeyed : (cs : List Change) (s : ResourceStore) → IsKeyed s → IsKeyed (changes cs s)
unfolding changes
changes-IsKeyed [] s v = v
changes-IsKeyed (c ∷ cs) s v = changes-IsKeyed cs (change c s) (change-IsKeyed c s v)

-- Whatever sequence of changes a store that starts empty goes through, every resource in it stands
-- under its own key and no key stands twice.
pub store-IsKeyed : (cs : List Change) → IsKeyed (changes cs [])
store-IsKeyed cs = changes-IsKeyed cs [] tt
