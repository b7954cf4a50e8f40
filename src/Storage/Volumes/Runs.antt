-- ===== src/Storage/Volumes/Runs.antt =====
-- Concrete runs of volumes.
use z8s.Base.{◌≡◌, refl, none, some, [], ◌∷◌, length}
use z8s.Base.Text.{Text, codes, text_eq}
use z8s.Base.Text.Trim.{trim, strip_suffix}
use z8s.Base.Numbers.{parse_uint}
use z8s.Base.Dict
use z8s.Base.Checked.{ok, mul64, ◌>>=◌}
use z8s.Resource.{
  ObjectMeta, PersistentVolume, PersistentVolumeClaim, persistent_volume_claim, uid, kind, name,
  namespace, metadata,
}
use z8s.Resource.Quantity.{parse_quantity_bytes}
use z8s.Resource.Store.{ResourceStore, pending, get_by_kind, of_kind, apply}
use z8s.Storage.Volumes.{offer, bind_first}

abbrev meta : Text → ObjectMeta
meta n = record {
  name = some n;
  namespace = none;
  uid = none;
  labels = none;
  owner_references = none;
}

abbrev volume : Text → PersistentVolume
volume size = record {
  metadata = meta (codes "pv");
  spec = some (record {
    host_path = none;
    claim_ref = none;
    capacity = some ((codes "storage", size) ∷ []);
    access_modes = none;
  });
  status_phase = none;
}

abbrev claim : PersistentVolumeClaim
claim = record {
  metadata = meta (codes "data");
  spec = some (record {
    volume_name = none;
    storage_class_name = none;
    requests = some ((codes "storage", codes "2Gi") ∷ []);
    access_modes = none;
  });
  status = none;
}

abbrev store : ResourceStore
store =
    (
      codes "PersistentVolumeClaim/default/data",
      record { resource = persistent_volume_claim claim; state = pending; last_updated = 1 },
    )
    ∷ []

-- A volume that is too small changes nothing; the other is bound, and both are written.
offered :
    (offer 4 (volume (codes "1Gi")) store ≡ ok store)
    × ((offer 4 (volume (codes "4Gi")) store >>= λ s. ok (length s)) ≡ ok 2)
unfolding offer bind_first get_by_kind of_kind kind text_eq Dict.values Dict.get
    parse_quantity_bytes trim strip_suffix parse_uint mul64 apply uid namespace name metadata
    Dict.put
offered = (refl, refl)
