-- ===== src/Resource/Store/Held.antt =====
-- src/types.rs: that a resource is in the store, and what keeps it there.
use z8s.Base.{ℕ, ◌≡◌, refl, ap, ◌∙◌, inl, inr, some, Bool-cases}
use z8s.Base.Text.{Text, text_eq, text_eq_iff, text_eq_refl}
use z8s.Resource.{AnyResource, uid}
use z8s.Resource.Store.{
  ResourceStore, ResourceTracker, ResourceState, running, apply, update_state, get,
}
use z8s.Resource.Store.Laws.{store_changes, state_or_pending, restate}

-- The store has the resource under its key.
abbrev pub Holds : AnyResource → ResourceStore → Type 0
Holds r s = (t : ResourceTracker) × (get (uid r) s ≡ some t) × (t.resource ≡ r)

pub apply-Holds : (now : ℕ) (r : AnyResource) (s : ResourceStore) → Holds r (apply now r s)
apply-Holds now r s = (
  record { resource = r; state = state_or_pending (get (uid r) s); last_updated = now },
  (store_changes now r (uid r) (uid r) running s).0 ∙ rw (text_eq_refl (uid r)) refl,
  refl,
)

-- Applying another resource of another key keeps it, and so does a change of any state.
pub keeps-Holds :
    (now : ℕ) (r q : AnyResource) (s : ResourceStore)
    → (uid q ≡ uid r → q ≡ r)
    → Holds r s
    → Holds r (apply now q s)
keeps-Holds now r q s unique (t, found, same) = elim (Bool-cases (text_eq (uid q) (uid r))) [
  | inl e ↦ (
    record { resource = q; state = state_or_pending (get (uid q) s); last_updated = now },
    (store_changes now q (uid q) (uid r) running s).0 ∙ rw e refl,
    unique ((text_eq_iff (uid q) (uid r)).0 e),
  )
  | inr e ↦ (t, (store_changes now q (uid q) (uid r) running s).0 ∙ rw e found, same)
]

pub update_state-Holds :
    (now : ℕ) (state : ResourceState) (k : Text) (r : AnyResource) (s : ResourceStore)
    → Holds r s
    → Holds r (update_state now k state s)
update_state-Holds now state k r s (t, found, same) = elim (Bool-cases (text_eq k (uid r))) [
  | inl e ↦ (
    record t { state = state; last_updated = now },
    (store_changes now r k (uid r) state s).2
        ∙ rw e (ap (restate now state) (ap (λ k. get k s) ((text_eq_iff k (uid r)).0 e) ∙ found)),
    same,
  )
  | inr e ↦ (t, (store_changes now r k (uid r) state s).2 ∙ rw e found, same)
]
