-- ===== src/Storage/Volumes.antt =====
-- src/components/storage/pv.rs: how a volume finds its claim. The time of a change is an argument.
mod Runs
use z8s.Base.{
  ℕ, zero, suc, ◌+◌, ◌-◌, ◌*◌, ◌/◌, ◌%◌, ◌^◌, ◌≤◌, ◌<◌, min, max, ◌≡◌, refl, sym, ap, ◌∙◌, ◌≢◌, ◌↔◌,
  ◌⊎◌, inl, inr, Bool, true, false, not, ◌&&◌, ◌||◌, Option, none, some, List, [], ◌∷◌, ◌++◌, map,
  arith, dec_lt, ltb, leb, ◌==◌, if◌then◌else◌, Bool-cases, Option-cases, unwrap_or, is_some,
  length, get_elem?, take, drop, length-append, any, all, All, All-append,
}
use z8s.Base.Text.{Text, codes}
use z8s.Base.Checked.{Checked, ok, overflow, ◌>>=◌}
use z8s.Resource.{
  AnyResource, ObjectMeta, PersistentVolume, PersistentVolumeSpec, PersistentVolumeClaim, ClaimSpec,
  persistent_volume, persistent_volume_claim,
}
use z8s.Resource.Store.{ResourceStore, ResourceTracker, apply, get_by_kind}
use z8s.Storage.Claims.{storage_bytes, claim_of, modes_fit, bound_claim}

abbrev named :
    Option Text
    → PersistentVolumeClaim
    → ClaimSpec
    → PersistentVolumeSpec
    → Option PersistentVolumeClaim
named none pvc pvc_spec pv_spec = none
named (some pv_name) pvc pvc_spec pv_spec = some (bound_claim pvc pvc_spec pv_name pv_spec)

-- The checks of `try_bind_pvc` on the two specs.
abbrev try_bind :
    Option Text
    → PersistentVolumeSpec
    → PersistentVolumeClaim
    → ClaimSpec
    → Checked (Option PersistentVolumeClaim)
try_bind pv_name pv_spec pvc pvc_spec = do
  req_storage ← storage_bytes pvc_spec.requests
  pv_capacity ← storage_bytes pv_spec.capacity
  ok (
      if ltb pv_capacity req_storage
      then none
      else if not
          (modes_fit (unwrap_or pvc_spec.access_modes []) (unwrap_or pv_spec.access_modes []))
      then none
      else named pv_name pvc pvc_spec pv_spec)

-- `try_bind_pvc`, for a claim whose spec is at hand.
abbrev pub try_bind_pvc :
    PersistentVolume → PersistentVolumeClaim → ClaimSpec → Checked (Option PersistentVolumeClaim)
try_bind_pvc pv pvc pvc_spec = of_spec pv.spec
  where
    of_spec : Option PersistentVolumeSpec → Checked (Option PersistentVolumeClaim)
    of_spec none = ok none
    of_spec (some pv_spec) = try_bind pv.metadata.name pv_spec pvc pvc_spec

abbrev refer_to : ObjectMeta → Option PersistentVolumeSpec → Option PersistentVolumeSpec
refer_to pvc_meta none = none
refer_to pvc_meta (some s) = some (record s {
  claim_ref = some (record {
    kind = some (codes "PersistentVolumeClaim");
    name = pvc_meta.name;
    namespace = pvc_meta.namespace;
  });
})

-- `updated_pv`.
abbrev pub taken_volume : PersistentVolume → ObjectMeta → PersistentVolume
taken_volume pv pvc_meta = record pv {
  spec = refer_to pvc_meta pv.spec;
  status_phase = some (some (codes "Bound"));
}

-- The end of a round: bind and return, or go on.
abbrev bind_or :
    ℕ
    → PersistentVolume
    → ObjectMeta
    → ResourceStore
    → Checked ResourceStore
    → Option PersistentVolumeClaim
    → Checked ResourceStore
bind_or now pv pvc_meta store rest none = rest
bind_or now pv pvc_meta store rest (some updated_pvc) = ok (
    apply now (persistent_volume_claim updated_pvc)
      (apply now (persistent_volume (taken_volume pv pvc_meta)) store))

abbrev try_claim :
    ℕ
    → PersistentVolume
    → ResourceStore
    → Checked ResourceStore
    → PersistentVolumeClaim
    → Option ClaimSpec
    → Checked ResourceStore
try_claim now pv store rest pvc none = rest
try_claim now pv store rest pvc (some pvc_spec) =
    if is_some pvc_spec.volume_name
    then rest
    else try_bind_pvc pv pvc pvc_spec >>= bind_or now pv pvc.metadata store rest

abbrev pub claim_round :
    ℕ
    → PersistentVolume
    → ResourceStore
    → Checked ResourceStore
    → AnyResource
    → Checked ResourceStore
claim_round now pv store rest (persistent_volume_claim pvc) =
    try_claim now pv store rest pvc pvc.spec
claim_round now pv store rest _ = rest

unfoldable pub bind_first :
    ℕ → PersistentVolume → ResourceStore → List ResourceTracker → Checked ResourceStore
bind_first now pv store [] = ok store
bind_first now pv store (t ∷ ts) = claim_round now pv store (bind_first now pv store ts) t.resource

-- `on_apply` of a volume.
unfoldable pub offer : ℕ → PersistentVolume → ResourceStore → Checked ResourceStore
unfolding bind_first
offer now pv store =
    if is_some (claim_of pv.spec)
    then ok store
    else if not (is_some pv.metadata.name)
    then ok store
    else bind_first now pv store (get_by_kind (codes "PersistentVolumeClaim") store)
