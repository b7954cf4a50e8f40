-- ===== src/Storage/Claims/Matching.antt =====
-- src/components/storage/pvc.rs: which volume `find_matching_pv` returns.
use z8s.Base.{
  ℕ, ◌≤◌, ◌≡◌, refl, sym, ap, Bool, true, false, ◌&&◌, ◌||◌, Option, none, some, List, [], ◌∷◌,
  ◌++◌, arith, leb, if◌then◌else◌, unwrap_or, is_some, All,
}
use z8s.Base.Text.{Text}
use mathlib.Core.Path.{subst}
use z8s.Base.Checked.{Checked, ok, overflow, ◌>>=◌}
use z8s.Resource.{
  AnyResource, ObjectReference, PersistentVolume, persistent_volume, pod, deployment, service,
  config_map, secret, persistent_volume_claim, vnet, subnet, nsg, route_table, ingress,
  network_policy,
}
use z8s.Resource.Store.{ResourceTracker}
use z8s.Storage.Claims.{
  storage_bytes, is_bound, claim_of, capacity_of, modes_of, modes_fit, suits, volume_or, consider,
  find_volume,
}

-- A volume that no claim has, and that has the capacity and the modes.
abbrev pub Suits : ℕ → List Text → PersistentVolume → Type 0
Suits req modes pv =
    (claim_of pv.spec ≡ none)
    × (is_bound pv.status_phase ≡ false)
    × ((c : ℕ) × (storage_bytes (capacity_of pv.spec) ≡ ok c) × (req ≤ c))
    × (modes_fit modes (unwrap_or (modes_of pv.spec) []) ≡ true)

accepted :
    (req : ℕ) (claim : Option ObjectReference) (bound : Bool) (cap : Checked ℕ) (fit : Bool)
    → (if is_some claim || bound then ok false else (cap >>= λ c. ok (leb req c && fit))) ≡ ok true
    → (claim ≡ none) × (bound ≡ false) × ((c : ℕ) × (cap ≡ ok c) × (req ≤ c)) × (fit ≡ true)
accepted req (some _) bound cap fit h = absurd (ground (arith, h))
accepted req none true cap fit h = absurd (ground (arith, h))
accepted req none false overflow fit h = absurd (ground (arith, h))
accepted req none false (ok c) fit h = (refl, refl, (c, refl, ground (arith, h)), ground (arith, h))

suits-Suits :
    (req : ℕ) (modes : List Text) (pv : PersistentVolume)
    → suits req modes pv ≡ ok true
    → Suits req modes pv
unfolding suits
suits-Suits req modes pv h =
    accepted req (claim_of pv.spec) (is_bound pv.status_phase) (storage_bytes (capacity_of pv.spec))
      (modes_fit modes (unwrap_or (modes_of pv.spec) [])) h

abbrev pub Unsuited : ℕ → List Text → AnyResource → Type 0
Unsuited req modes (persistent_volume pv) = suits req modes pv ≡ ok false
Unsuited req modes _ = Unit {0}

-- The first volume that suits, or none if there is none. An overflow in a capacity ends it.
abbrev pub Found : ℕ → List Text → List ResourceTracker → Checked (Option PersistentVolume) → Type 0
Found req modes pvs (ok none) = All (λ t. Unsuited req modes t.resource) pvs
Found req modes pvs (ok (some pv)) =
    (before : List ResourceTracker) × (t : ResourceTracker) × (rest : List ResourceTracker) × (pvs
      ≡ before ++ (t ∷ rest))
    × (t.resource ≡ persistent_volume pv)
    × All (λ u. Unsuited req modes u.resource) before
    × Suits req modes pv
Found req modes pvs overflow = Unit {0}

-- One more volume in front of those among which one was looked for.
pushed-Found :
    (req : ℕ) (modes : List Text) (t : ResourceTracker) (pvs : List ResourceTracker)
    (r : Checked (Option PersistentVolume))
    → Unsuited req modes t.resource
    → Found req modes pvs r
    → Found req modes (t ∷ pvs) r
pushed-Found req modes t pvs (ok none) u h = (u, h)
pushed-Found req modes t pvs (ok (some pv)) u (before, s, rest, e, es, hb, hs) =
    (t ∷ before, s, rest, ap (λ l. t ∷ l) e, es, (u, hb), hs)
pushed-Found req modes t pvs overflow u h = tt

judged :
    (req : ℕ) (modes : List Text) (t : ResourceTracker) (pvs : List ResourceTracker)
    (pv : PersistentVolume) (r : Checked (Option PersistentVolume)) (b : Checked Bool)
    → t.resource ≡ persistent_volume pv
    → suits req modes pv ≡ b
    → Found req modes pvs r
    → Found req modes (t ∷ pvs) (b >>= volume_or pv r)
judged req modes t pvs pv r overflow et e h = tt
judged req modes t pvs pv r (ok true) et e h =
    ([], t, pvs, refl, et, tt, suits-Suits req modes pv e)
judged req modes t pvs pv r (ok false) et e h =
    pushed-Found req modes t pvs r (subst (Unsuited req modes) (sym et) e) h

consider-Found :
    (req : ℕ) (modes : List Text) (t : ResourceTracker) (pvs : List ResourceTracker)
    (r : Checked (Option PersistentVolume)) (q : AnyResource)
    → t.resource ≡ q
    → Found req modes pvs r
    → Found req modes (t ∷ pvs) (consider req modes r q)
unfolding consider
consider-Found req modes t pvs r (persistent_volume pv) et h =
    judged req modes t pvs pv r (suits req modes pv) et refl h
consider-Found req modes t pvs r (pod q) et h =
    pushed-Found req modes t pvs r (subst (Unsuited req modes) (sym et) tt) h
consider-Found req modes t pvs r (deployment q) et h =
    pushed-Found req modes t pvs r (subst (Unsuited req modes) (sym et) tt) h
consider-Found req modes t pvs r (service q) et h =
    pushed-Found req modes t pvs r (subst (Unsuited req modes) (sym et) tt) h
consider-Found req modes t pvs r (config_map q) et h =
    pushed-Found req modes t pvs r (subst (Unsuited req modes) (sym et) tt) h
consider-Found req modes t pvs r (secret q) et h =
    pushed-Found req modes t pvs r (subst (Unsuited req modes) (sym et) tt) h
consider-Found req modes t pvs r (persistent_volume_claim q) et h =
    pushed-Found req modes t pvs r (subst (Unsuited req modes) (sym et) tt) h
consider-Found req modes t pvs r (vnet q) et h =
    pushed-Found req modes t pvs r (subst (Unsuited req modes) (sym et) tt) h
consider-Found req modes t pvs r (subnet q) et h =
    pushed-Found req modes t pvs r (subst (Unsuited req modes) (sym et) tt) h
consider-Found req modes t pvs r (nsg q) et h =
    pushed-Found req modes t pvs r (subst (Unsuited req modes) (sym et) tt) h
consider-Found req modes t pvs r (route_table q) et h =
    pushed-Found req modes t pvs r (subst (Unsuited req modes) (sym et) tt) h
consider-Found req modes t pvs r (ingress q) et h =
    pushed-Found req modes t pvs r (subst (Unsuited req modes) (sym et) tt) h
consider-Found req modes t pvs r (network_policy q) et h =
    pushed-Found req modes t pvs r (subst (Unsuited req modes) (sym et) tt) h

-- A claim gets the first volume of the list that no claim has, that is not bound, whose capacity is
-- what is asked for at least, and that has every access mode of the claim. If it gets none, no
-- volume of the list is like that. An overflow in a capacity ends the search.
pub find_volume-Found :
    (req : ℕ) (modes : List Text) (pvs : List ResourceTracker)
    → Found req modes pvs (find_volume req modes pvs)
unfolding find_volume
find_volume-Found req modes [] = tt
find_volume-Found req modes (t ∷ pvs) =
    consider-Found req modes t pvs (find_volume req modes pvs) t.resource refl
      (find_volume-Found req modes pvs)
