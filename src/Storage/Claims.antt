-- ===== src/Storage/Claims.antt =====
-- src/components/storage/pvc.rs: how a claim finds its volume. What the provisioner of a storage
-- class does to the store is an argument, as is the time of a change.
pub mod Matching
pub mod Binding
pub mod Deletion
mod Runs
use z8s.Base.{
  ℕ, zero, suc, ◌+◌, ◌-◌, ◌*◌, ◌/◌, ◌%◌, ◌^◌, ◌≤◌, ◌<◌, min, max, ◌≡◌, refl, sym, ap, ◌∙◌, ◌≢◌, ◌↔◌,
  ◌⊎◌, inl, inr, Bool, true, false, not, ◌&&◌, ◌||◌, Option, none, some, List, [], ◌∷◌, ◌++◌, map,
  arith, dec_lt, ltb, leb, ◌==◌, if◌then◌else◌, Bool-cases, Option-cases, unwrap_or, is_some,
  length, get_elem?, take, drop, length-append, any, all, All, All-append,
}
use z8s.Base.Text.{Text, codes, text_eq}
use z8s.Base.Dict
use z8s.Base.Dict.{Dict}
use z8s.Base.Checked.{Checked, ok, overflow, ◌>>=◌}
use z8s.Resource.{
  AnyResource, ObjectMeta, ObjectReference, PersistentVolume, PersistentVolumeSpec,
  PersistentVolumeClaim, ClaimSpec, ClaimStatus, persistent_volume, persistent_volume_claim,
}
use z8s.Resource.Quantity.{parse_quantity_bytes}
use z8s.Resource.Store.{ResourceStore, ResourceTracker, apply, get_by_kind}

abbrev bytes_or_zero : Option Text → Checked ℕ
bytes_or_zero none = ok 0
bytes_or_zero (some q) = parse_quantity_bytes q

-- The `storage` entry of requests or of a capacity, in bytes, or 0.
abbrev pub storage_bytes : Option (Dict Text) → Checked ℕ
storage_bytes none = ok 0
storage_bytes (some m) = bytes_or_zero (Dict.get (codes "storage") m)

abbrev pub is_bound : Option (Option Text) → Bool
is_bound (some (some phase)) = text_eq phase (codes "Bound")
is_bound (some none) = false
is_bound none = false

abbrev pub claim_of : Option PersistentVolumeSpec → Option ObjectReference
claim_of none = none
claim_of (some s) = s.claim_ref

abbrev pub capacity_of : Option PersistentVolumeSpec → Option (Dict Text)
capacity_of none = none
capacity_of (some s) = s.capacity

abbrev pub modes_of : Option PersistentVolumeSpec → Option (List Text)
modes_of none = none
modes_of (some s) = s.access_modes

-- `!pvc_modes.is_empty() && !pvc_modes.iter().all(|m| pv_modes.contains(m))`, negated.
abbrev pub modes_fit : List Text → List Text → Bool
modes_fit pvc_modes pv_modes = all (λ m. any (λ k. text_eq k m) pv_modes) pvc_modes

-- Whether the loop returns this volume.
unfoldable pub suits : ℕ → List Text → PersistentVolume → Checked Bool
suits req_storage pvc_modes pv =
    if is_some (claim_of pv.spec) || is_bound pv.status_phase
    then ok false
    else (storage_bytes (capacity_of pv.spec) >>= λ pv_capacity.
        ok (leb req_storage pv_capacity && modes_fit pvc_modes (unwrap_or (modes_of pv.spec) [])))

abbrev pub volume_or :
    PersistentVolume → Checked (Option PersistentVolume) → Bool → Checked (Option PersistentVolume)
volume_or pv rest true = ok (some pv)
volume_or pv rest false = rest

-- One round of the loop; `rest` is what the others give.
unfoldable pub consider :
    ℕ
    → List Text
    → Checked (Option PersistentVolume)
    → AnyResource
    → Checked (Option PersistentVolume)
unfolding suits
consider req_storage pvc_modes rest (persistent_volume pv) =
    suits req_storage pvc_modes pv >>= volume_or pv rest
consider req_storage pvc_modes rest _ = rest

unfoldable pub find_volume :
    ℕ → List Text → List ResourceTracker → Checked (Option PersistentVolume)
unfolding consider
find_volume req_storage pvc_modes [] = ok none
find_volume req_storage pvc_modes (t ∷ pvs) =
    consider req_storage pvc_modes (find_volume req_storage pvc_modes pvs) t.resource

-- `find_matching_pv`.
abbrev pub find_matching_pv :
    Option ClaimSpec → List ResourceTracker → Checked (Option PersistentVolume)
find_matching_pv none pvs = ok none
find_matching_pv (some pvc_spec) pvs = storage_bytes pvc_spec.requests >>= λ req_storage.
    find_volume req_storage (unwrap_or pvc_spec.access_modes []) pvs

-- `updated_pv` and `updated_pvc`.
abbrev pub bound_volume : ObjectMeta → PersistentVolume → PersistentVolumeSpec → PersistentVolume
bound_volume pvc_meta pv pv_spec = record pv {
  spec = some (record pv_spec {
    claim_ref = some (record {
      kind = some (codes "PersistentVolumeClaim");
      name = some (unwrap_or pvc_meta.name []);
      namespace = some (unwrap_or pvc_meta.namespace (codes "default"));
    });
  });
  status_phase = some (some (codes "Bound"));
}

abbrev pub bound_claim :
    PersistentVolumeClaim → ClaimSpec → Text → PersistentVolumeSpec → PersistentVolumeClaim
bound_claim pvc pvc_spec pv_name pv_spec = record pvc {
  spec = some (record pvc_spec { volume_name = some pv_name });
  status = some (record {
    phase = some (codes "Bound");
    capacity = pv_spec.capacity;
    access_modes = pv_spec.access_modes;
  });
}

-- What `on_apply` does with the volume that it found.
abbrev pub bind :
    ℕ → PersistentVolumeClaim → ClaimSpec → Option PersistentVolume → ResourceStore → ResourceStore
bind now pvc pvc_spec none store = store
bind now pvc pvc_spec (some pv) store = bind_to pv.metadata.name pv.spec
  where
    bind_to : Option Text → Option PersistentVolumeSpec → ResourceStore
    bind_to none spec = store
    bind_to (some pv_name) none = store
    bind_to (some pv_name) (some pv_spec) =
        apply now (persistent_volume_claim (bound_claim pvc pvc_spec pv_name pv_spec))
          (apply now (persistent_volume (bound_volume pvc.metadata pv pv_spec)) store)

-- `on_apply` of a claim with a spec; without one no volume is found.
unfoldable pub on_apply :
    ℕ
    → (ResourceStore → ResourceStore)
    → PersistentVolumeClaim
    → ClaimSpec
    → ResourceStore
    → Checked ResourceStore
unfolding find_volume
on_apply now provision_for_pvc pvc pvc_spec store =
    if is_some pvc_spec.volume_name
    then ok store
    else if is_some pvc_spec.storage_class_name
    then ok (provision_for_pvc store)
    else (find_matching_pv (some pvc_spec) (get_by_kind (codes "PersistentVolume") store) >>= λ pv.
        ok (bind now pvc pvc_spec pv store))
