-- ===== src/Storage/Claims/Runs.antt =====
-- Concrete runs of claims, and the theorems at concrete inputs.
use z8s.Base.{◌≢◌, if◌then◌else◌, ◌≡◌, refl, none, some, [], ◌∷◌}
use z8s.Base.Text.{Text, codes, text_eq}
use z8s.Base.Text.Trim.{trim, strip_suffix}
use z8s.Base.Numbers.{parse_uint}
use z8s.Base.Dict
use z8s.Base.Dict.{Dict}
use z8s.Base.Checked.{ok, overflow, mul64}
use z8s.Resource.{
  ObjectMeta, PersistentVolume, PersistentVolumeSpec, PersistentVolumeClaim, ClaimSpec,
  persistent_volume, persistent_volume_claim, kind, uid, namespace, name,
}
use z8s.Resource.Quantity.{parse_quantity_bytes}
use z8s.Resource.Store.{ResourceStore, ResourceTracker, pending, get, get_by_kind, of_kind}
use z8s.Resource.Store.Held.{Holds}
use z8s.Storage.Claims.{find_matching_pv, find_volume, on_apply}
use z8s.Storage.Claims.Binding.{taken, naming, on_apply_lem}
use z8s.Storage.Claims.Deletion.{current_volume, volume_key, on_delete, on_delete_lem}
use z8s.Resource.Store.Laws.{IsKeyed}

quantities :
    (parse_quantity_bytes (codes "128Ki") ≡ ok 131072)
    × (parse_quantity_bytes (codes " 5G ") ≡ ok 5000000000)
    × (parse_quantity_bytes (codes "512") ≡ ok 512)
    × (parse_quantity_bytes (codes "16Ei") ≡ overflow)
unfolding parse_quantity_bytes trim strip_suffix text_eq parse_uint mul64
quantities = (refl, refl, refl, refl)

abbrev meta : Text → ObjectMeta
meta n = record {
  name = some n;
  namespace = none;
  uid = none;
  labels = none;
  owner_references = none;
}

abbrev volume_spec : Text → PersistentVolumeSpec
volume_spec size = record {
  host_path = none;
  claim_ref = none;
  capacity = some ((codes "storage", size) ∷ []);
  access_modes = some (codes "ReadWriteOnce" ∷ []);
}

abbrev volume : Text → Text → PersistentVolume
volume n size = record { metadata = meta n; spec = some (volume_spec size); status_phase = none }

abbrev tracked : PersistentVolume → ResourceTracker
tracked pv = record { resource = persistent_volume pv; state = pending; last_updated = 1 }

abbrev store : ResourceStore
store =
    (codes "PersistentVolume//small", tracked (volume (codes "small") (codes "1Gi")))
    ∷ (codes "PersistentVolume//large", tracked (volume (codes "large") (codes "8Gi")))
    ∷ []

abbrev claim_spec : ClaimSpec
claim_spec = record {
  volume_name = none;
  storage_class_name = none;
  requests = some ((codes "storage", codes "2Gi") ∷ []);
  access_modes = some (codes "ReadWriteOnce" ∷ []);
}

abbrev claim : PersistentVolumeClaim
claim = record { metadata = meta (codes "data"); spec = some claim_spec; status = none }

large_found :
    find_matching_pv (some claim_spec) (get_by_kind (codes "PersistentVolume") store)
    ≡ ok (some (volume (codes "large") (codes "8Gi")))
unfolding find_volume get_by_kind of_kind kind text_eq Dict.values Dict.get parse_quantity_bytes
    trim strip_suffix parse_uint mul64
large_found = refl

abbrev unchanged : ResourceStore → ResourceStore
unchanged s = s

on_apply_lem_example :
    (s : ResourceStore) × (on_apply 4 unchanged claim claim_spec store ≡ ok s)
    × Holds
        (persistent_volume
          (taken (volume (codes "large") (codes "8Gi")) (volume_spec (codes "8Gi")) claim.metadata))
        s
    × Holds
        (persistent_volume_claim
          (naming claim claim_spec (codes "large") (volume_spec (codes "8Gi"))))
        s
    × (find_matching_pv (some claim_spec) (get_by_kind (codes "PersistentVolume") store)
        ≢ ok (
            some (
              taken
                (volume (codes "large") (codes "8Gi"))
                (volume_spec (codes "8Gi"))
                claim.metadata)))
    × (on_apply 4 unchanged
          (naming claim claim_spec (codes "large") (volume_spec (codes "8Gi")))
          (record claim_spec { volume_name = some (codes "large") })
          store
        ≡ ok store)
on_apply_lem_example =
    on_apply_lem 4 unchanged claim claim_spec store (volume (codes "large") (codes "8Gi"))
      (codes "large") (volume_spec (codes "8Gi")) claim_spec store refl refl large_found refl refl

-- A store with one volume, and a claim that is bound to it.
abbrev lone : ResourceStore
lone =
    (
      codes "PersistentVolume//large",
      record {
        resource = persistent_volume (volume (codes "large") (codes "8Gi"));
        state = pending;
        last_updated = 1;
      },
    )
    ∷ []

abbrev bound : PersistentVolumeClaim
bound = record claim { spec = some (record claim_spec { volume_name = some (codes "large") }) }

lone-IsKeyed : IsKeyed lone
unfolding uid kind namespace name
lone-IsKeyed = (refl, tt, tt)

is_bound_to :
    current_volume bound (get (uid (persistent_volume_claim bound)) lone) ≡ some (codes "large")
unfolding uid kind namespace name get Dict.get text_eq
is_bound_to = refl

on_delete_lem_example : get (volume_key (codes "large")) (on_delete bound lone) ≡ (
    if text_eq (volume_key (codes "large")) (volume_key (codes "large"))
    then none
    else get (volume_key (codes "large")) lone)
on_delete_lem_example =
    on_delete_lem bound lone (codes "large") (volume_key (codes "large")) lone-IsKeyed is_bound_to
