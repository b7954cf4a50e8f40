-- ===== src/Compute/Spec/Paths.antt =====
-- src/components/compute/spec_builder.rs: the host paths of bound claims.
use z8s.Base.{Bool, false, Option, none, some, List, [], ◌∷◌, if◌then◌else◌, unwrap_or}
use z8s.Base.Text.{Text, codes, text_eq}
use z8s.Resource.{
  AnyResource, ObjectMeta, PersistentVolumeSpec, ClaimSpec, persistent_volume,
  persistent_volume_claim,
}
use z8s.Resource.Store.{ResourceStore, ResourceTracker, get_by_kind}
use z8s.Compute.Spec.{Entries}

abbrev pub host_path_of : Option PersistentVolumeSpec → Option Text
host_path_of none = none
host_path_of (some spec) = spec.host_path

abbrev pub is_named : Text → Option Text → Bool
is_named name none = false
is_named name (some n) = text_eq n name

abbrev pub path_of : Text → AnyResource → Option Text
path_of vol (persistent_volume pv) =
    if is_named vol pv.metadata.name then host_path_of pv.spec else none
path_of vol _ = none

abbrev pub or_later : Option Text → Option Text → Option Text
or_later (some p) later = some p
or_later none later = later

-- `pv_trackers.iter().find_map(…)`.
unfoldable pub find_path : Text → List ResourceTracker → Option Text
find_path vol [] = none
find_path vol (t ∷ ts) = or_later (path_of vol t.resource) (find_path vol ts)

abbrev pub volume_name_of : Option ClaimSpec → Option Text
volume_name_of none = none
volume_name_of (some spec) = spec.volume_name

abbrev pub push_path : ObjectMeta → Option Text → Entries Text → Entries Text
push_path m none rest = rest
push_path m (some path) rest = ((unwrap_or m.namespace [], unwrap_or m.name []), path) ∷ rest

abbrev pub bound_path : List ResourceTracker → Option Text → Option Text
bound_path pvs none = none
bound_path pvs (some vol) = find_path vol pvs

abbrev pub push_claim : List ResourceTracker → AnyResource → Entries Text → Entries Text
push_claim pvs (persistent_volume_claim c) rest =
    push_path c.metadata (bound_path pvs (volume_name_of c.spec)) rest
push_claim pvs _ rest = rest

unfoldable pub claim_paths : List ResourceTracker → List ResourceTracker → Entries Text
unfolding find_path
claim_paths pvs [] = []
claim_paths pvs (t ∷ ts) = push_claim pvs t.resource (claim_paths pvs ts)

-- `fetch_pvc_hostpaths`.
unfoldable pub fetch_pvc_hostpaths : ResourceStore → Entries Text
unfolding claim_paths
fetch_pvc_hostpaths store =
    claim_paths (get_by_kind (codes "PersistentVolume") store)
      (get_by_kind (codes "PersistentVolumeClaim") store)
