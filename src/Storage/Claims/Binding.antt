-- ===== src/Storage/Claims/Binding.antt =====
-- src/components/storage/pvc.rs: what `on_apply` leaves in the store.
use z8s.Base.{
  ℕ, ◌≡◌, refl, ap, ◌∙◌, ◌≢◌, sym, true, [], unwrap_or, Bool, false, Option, none, some, List,
  arith, if◌then◌else◌, is_some, get_elem?,
}
use z8s.Base.Text.{Text, codes}
use z8s.Base.Checked.{Checked, ok, overflow, ◌>>=◌}
use z8s.Resource.{
  AnyResource, PersistentVolume, PersistentVolumeSpec, PersistentVolumeClaim, ClaimSpec, ObjectMeta,
  persistent_volume, persistent_volume_claim, uid, kind,
}
use z8s.Resource.Store.{ResourceStore, ResourceTracker, apply, get_by_kind}
use z8s.Resource.Store.Held.{Holds, apply-Holds, keeps-Holds}
use z8s.Storage.Claims.{
  find_matching_pv, find_volume, storage_bytes, claim_of, bound_volume, bound_claim, bind, on_apply,
}
use z8s.Storage.Claims.Matching.{Found, find_volume-Found}
use mathlib.Core.Path.{subst}

other_keys :
    (pv : PersistentVolume) (pvc : PersistentVolumeClaim)
    → uid (persistent_volume_claim pvc) ≢ uid (persistent_volume pv)
unfolding uid kind
other_keys pv pvc e = absurd (ground (arith, ap (λ t. get_elem? t 16) e))

bound :
    (now : ℕ) (pvc : PersistentVolumeClaim) (pvc_spec : ClaimSpec) (pv : PersistentVolume)
    (n : Text) (sp : PersistentVolumeSpec) (store : ResourceStore)
    → pv.metadata.name ≡ some n
    → pv.spec ≡ some sp
    → bind now pvc pvc_spec (some pv) store
      ≡ apply now
          (persistent_volume_claim (bound_claim pvc pvc_spec n sp))
          (apply now (persistent_volume (bound_volume pvc.metadata pv sp)) store)
bound now pvc pvc_spec pv n sp store en es = rw (en, es) refl

third :
    (a b : Bool) (x y z : Checked ResourceStore)
    → a ≡ false
    → b ≡ false
    → (if a then x else if b then y else z) ≡ z
third a b x y z ea eb = rw (ea, eb) refl

-- The volume with a reference to the claim, and the claim with the name of the volume, both in the
-- phase `Bound`; capacity and access modes of the claim are those of the volume.
abbrev pub taken : PersistentVolume → PersistentVolumeSpec → ObjectMeta → PersistentVolume
taken pv sp claim = record pv {
  spec = some (record sp {
    claim_ref = some (record {
      kind = some (codes "PersistentVolumeClaim");
      name = some (unwrap_or claim.name []);
      namespace = some (unwrap_or claim.namespace (codes "default"));
    });
  });
  status_phase = some (some (codes "Bound"));
}

abbrev pub naming :
    PersistentVolumeClaim → ClaimSpec → Text → PersistentVolumeSpec → PersistentVolumeClaim
naming pvc pvc_spec n sp = record pvc {
  spec = some (record pvc_spec { volume_name = some n });
  status = some (record {
    phase = some (codes "Bound");
    capacity = sp.capacity;
    access_modes = sp.access_modes;
  });
}

-- A volume that has a claim is not found.
not_found :
    (req : ℕ) (modes : List Text) (pvs : List ResourceTracker) (q v : PersistentVolume)
    → is_some (claim_of v.spec) ≡ true
    → find_volume req modes pvs ≡ ok (some q)
    → q ≢ v
not_found req modes pvs q v has_claim e same =
    let (before, t, rest, eq, is, others, (free, unbound, size, fit)) =
      subst (Found req modes pvs) e (find_volume-Found req modes pvs) in
    absurd
      (ground (arith, has_claim, ap (λ x. is_some (claim_of x.spec)) (sym same), ap is_some free))

never_found :
    (spec : ClaimSpec) (pvs : List ResourceTracker) (q v : PersistentVolume) (r : Checked ℕ)
    → is_some (claim_of v.spec) ≡ true
    → (r >>= λ req. find_volume req (unwrap_or spec.access_modes []) pvs) ≡ ok (some q)
    → q ≢ v
never_found spec pvs q v overflow has_claim e = absurd (ground (arith, e))
never_found spec pvs q v (ok req) has_claim e =
    not_found req (unwrap_or spec.access_modes []) pvs q v has_claim e

-- A claim that names no volume and no storage class, and for which a named volume with a spec is
-- found, is bound: the store has the volume in the phase `Bound` with a reference to the claim, and
-- the claim in the phase `Bound` with the name, the capacity and the modes of the volume. A search
-- for another claim, whatever it asks for and whatever the store holds by then, never finds the
-- volume as it stands now, and applying the bound claim again changes no store.
pub on_apply_lem :
    (now : ℕ) (provision_for_pvc : ResourceStore → ResourceStore) (pvc : PersistentVolumeClaim)
    (pvc_spec : ClaimSpec) (store : ResourceStore) (pv : PersistentVolume) (n : Text)
    (sp : PersistentVolumeSpec) (other : ClaimSpec) (later : ResourceStore)
    → pvc_spec.volume_name ≡ none
    → pvc_spec.storage_class_name ≡ none
    → find_matching_pv (some pvc_spec) (get_by_kind (codes "PersistentVolume") store) ≡ ok (some pv)
    → pv.metadata.name ≡ some n
    → pv.spec ≡ some sp
    → (s : ResourceStore) × (on_apply now provision_for_pvc pvc pvc_spec store ≡ ok s)
      × Holds (persistent_volume (taken pv sp pvc.metadata)) s
      × Holds (persistent_volume_claim (naming pvc pvc_spec n sp)) s
      × (find_matching_pv (some other) (get_by_kind (codes "PersistentVolume") later)
          ≢ ok (some (taken pv sp pvc.metadata)))
      × (on_apply now provision_for_pvc
            (naming pvc pvc_spec n sp)
            (record pvc_spec { volume_name = some n })
            later
          ≡ ok later)
unfolding on_apply
on_apply_lem now provision_for_pvc pvc pvc_spec store pv n sp other later free plain found en es =
    let volume : AnyResource = persistent_volume (bound_volume pvc.metadata pv sp) in
    let claim : AnyResource = persistent_volume_claim (bound_claim pvc pvc_spec n sp) in
    (
      apply now claim (apply now volume store),
      third (is_some pvc_spec.volume_name) (is_some pvc_spec.storage_class_name) (ok store)
            (ok (provision_for_pvc store)) _ (ap is_some free) (ap is_some plain)
          ∙ ap
              (λ (r : Checked (Option PersistentVolume)).
                r >>= λ o. ok (bind now pvc pvc_spec o store))
              found
          ∙ ap (λ (s : ResourceStore). ok s) (bound now pvc pvc_spec pv n sp store en es),
      keeps-Holds now volume claim (apply now volume store) (λ e. absurd (other_keys _ _ e))
          (apply-Holds now volume store),
      apply-Holds now claim (apply now volume store),
      λ e.
          never_found other (get_by_kind (codes "PersistentVolume") later)
            (taken pv sp pvc.metadata) (taken pv sp pvc.metadata) (storage_bytes other.requests)
            refl e refl,
      refl,
    )
