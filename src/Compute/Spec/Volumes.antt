-- ===== src/Compute/Spec/Volumes.antt =====
-- src/components/compute/spec_builder.rs and src/cri/volumes.rs: the volumes of a container, and the cleaning
-- of their directories. What the file system takes is an argument.
pub mod Emptydirs
pub mod Mounts
mod Runs
use z8s.Base.{
  ℕ, zero, suc, ◌+◌, ◌-◌, ◌*◌, ◌/◌, ◌%◌, ◌^◌, ◌≤◌, ◌<◌, min, max, ◌≡◌, refl, sym, ap, ◌∙◌, ◌≢◌, ◌↔◌,
  ◌⊎◌, inl, inr, Bool, true, false, not, ◌&&◌, ◌||◌, Option, none, some, List, [], ◌∷◌, ◌++◌, map,
  arith, dec_lt, ltb, leb, ◌==◌, if◌then◌else◌, Bool-cases, Option-cases, unwrap_or, is_some,
  length, get_elem?, take, drop, length-append, any, all, All, All-append,
}
use z8s.Base.Text.{Text, codes, text_eq, starts_with}
use z8s.Base.Dict.{Dict}
use z8s.Resource.{
  AnyResource, ObjectMeta, ConfigMap, Secret, Container, Volume, VolumeMount, Pod, PodSpec,
}
use z8s.Compute.Spec.{Entries, lookup, later_or}

-- `ResolvedVolume`.
pub record ResolvedVolume : Type 0 where
  pub host_path : Text
  pub container_path : Text
  pub read_only : Bool

-- What the file system takes: whether `create_dir_all` of a path succeeds, and whether a file can be
-- written. The base directory is that of `base_dir`.
pub record Disk : Type 0 where
  pub base : Text
  pub create_dir_all : Text → Bool
  pub write : Text → Bool

-- The files that are written, with their contents.
abbrev pub Writes : Type 0
Writes = List (Text × Text)

abbrev pub slash : ℕ → ℕ
slash c = if c == b'/' then b'_' else c

-- `pod_uid.replace('/', "_")`.
unfoldable pub safe_uid : Text → Text
safe_uid [] = []
safe_uid (c ∷ s) = slash c ∷ safe_uid s

abbrev pub ends_in_slash : Text → Bool
ends_in_slash [] = false
ends_in_slash (c ∷ []) = c == b'/'
ends_in_slash (c ∷ d ∷ s) = ends_in_slash (d ∷ s)

-- `Path::join`: an absolute path takes the place of the first one.
unfoldable pub join_path : Text → Text → Text
join_path [] p = p
join_path (c ∷ s) p =
    if starts_with p (codes "/")
    then p
    else if ends_in_slash (c ∷ s)
    then (c ∷ s) ++ p
    else (c ∷ s) ++ (b'/' ∷ p)

-- The result for a volume is an error, or a path if there is a source.
pub data Resolved : Type 0 where
  failed unsupported : Resolved
  resolved : Text → Resolved

-- `volume_map.get(name)`: of volumes of one name the last.
unfoldable pub find_volume : Text → List Volume → Option Volume
find_volume name [] = none
find_volume name (v ∷ vs) = later_or (find_volume name vs) (text_eq v.name name) v

abbrev pub host_side : Option Text → Text → Text
host_side none path = path
host_side (some sub) path = join_path path sub

abbrev pub push_volume : VolumeMount → Resolved → List ResolvedVolume → List ResolvedVolume
push_volume m (resolved path) rest =
    record {
      host_path = host_side m.sub_path path;
      container_path = m.mount_path;
      read_only = unwrap_or m.read_only false;
    }
    ∷ rest
push_volume m _ rest = rest

unfoldable pub find_container : Text → List Container → Option Container
find_container name [] = none
find_container name (c ∷ cs) =
    let rest = find_container name cs in if text_eq c.name name then some c else rest

module _ (disk : Disk) where
  -- The loop that writes the entries of a map into a directory: it stops at the first that fails.
  unfoldable pub write_all : Text → Dict Text → Writes × Bool
  unfolding join_path
  write_all dir [] = ([], true)
  write_all dir ((key, value) ∷ entries) =
      let path = join_path dir key in
      let rest = write_all dir entries in
      if disk.write path then ((path, value) ∷ rest.0, rest.1) else ([], false)

  abbrev pub then_write : Writes × Bool → Writes × Bool → Writes × Bool
  then_write (ws, true) (ws', done) = (ws ++ ws', done)
  then_write (ws, false) later = (ws, false)

  -- `materialize_configmap` and `materialize_secret`.
  unfoldable pub materialize_configmap : ConfigMap → Text → Writes × Bool
  unfolding write_all
  materialize_configmap cm dir =
      then_write (write_all dir (unwrap_or cm.values []))
        (write_all dir (unwrap_or cm.binary_data []))

  unfoldable pub materialize_secret : Secret → Text → Writes × Bool
  unfolding write_all
  materialize_secret s dir =
      then_write (write_all dir (unwrap_or s.values []))
        (write_all dir (unwrap_or s.string_data []))

  abbrev pub in_dir : Text → Writes × Bool → Resolved × Writes
  in_dir dir (ws, done) = (if done then resolved dir else failed, ws)

  abbrev pub map_source : Text → Option ConfigMap → Resolved × Writes
  map_source dir none = (resolved dir, [])
  map_source dir (some cm) = in_dir dir (materialize_configmap cm dir)

  abbrev pub secret_source : Text → Option Secret → Resolved × Writes
  secret_source dir none = (resolved dir, [])
  secret_source dir (some s) = in_dir dir (materialize_secret s dir)

  abbrev pub created : Text → Resolved × Writes → Resolved × Writes
  created dir next = if disk.create_dir_all dir then next else (failed, [])

  unfoldable pub emptydir : Text → Text → Text
  unfolding safe_uid
  emptydir pod_uid name = disk.base ++ (codes "/emptydir/" ++ (safe_uid pod_uid ++ (b'-' ∷ name)))

  abbrev pub source_dir : Text → Text → Text → Text
  source_dir folder ns name = disk.base ++ (folder ++ (ns ++ (b'/' ∷ name)))

  abbrev pub claim_source : Option Text → Resolved × Writes
  claim_source none = (unsupported, [])
  claim_source (some path) = (resolved path, [])

  -- The sources in the order in which they are tried.
  module _ (ns pod_uid : Text) (maps : Entries ConfigMap) (secrets : Entries Secret)
      (paths : Entries Text) where
    abbrev pub from_claim : Option Text → Resolved × Writes
    from_claim none = (unsupported, [])
    from_claim (some claim) = claim_source (lookup ns claim paths)

    abbrev pub from_secret : Option (Option Text) → Option Text → Resolved × Writes
    from_secret (some (some name)) claim =
        let dir = source_dir (codes "/secrets/") ns name in
        created dir (secret_source dir (lookup ns name secrets))
    from_secret _ claim = from_claim claim

    abbrev pub from_map : Option Text → Resolved × Writes → Resolved × Writes
    from_map none next = next
    from_map (some name) next =
        let dir = source_dir (codes "/configmaps/") ns name in
        created dir (map_source dir (lookup ns name maps))

    abbrev pub from_host : Option Text → Resolved × Writes → Resolved × Writes
    from_host none next = next
    from_host (some path) next = created path (resolved path, [])

    -- `resolve_volume_source`.
    unfoldable pub resolve_volume_source : Volume → Resolved × Writes
    unfolding lookup emptydir materialize_configmap materialize_secret
    resolve_volume_source vol =
        let dir = emptydir pod_uid vol.name in
        from_host vol.host_path (
          if vol.empty_dir
          then created dir (resolved dir, [])
          else from_map vol.config_map (from_secret vol.secret vol.persistent_volume_claim))

    abbrev pub mount_one :
        VolumeMount → Option Volume → List ResolvedVolume × Writes → List ResolvedVolume × Writes
    mount_one m none rest = rest
    mount_one m (some vol) rest =
        let found = resolve_volume_source vol in (push_volume m found.0 rest.0, found.1 ++ rest.1)

    -- The loop over the mounts of a container.
    unfoldable pub mount_each : List Volume → List VolumeMount → List ResolvedVolume × Writes
    unfolding find_volume resolve_volume_source join_path
    mount_each vols [] = ([], [])
    mount_each vols (m ∷ ms) = mount_one m (find_volume m.name vols) (mount_each vols ms)

    abbrev pub mounts_of : List Volume → Option Container → List ResolvedVolume × Writes
    mounts_of vols none = ([], [])
    mounts_of vols (some c) = mount_each vols (unwrap_or c.volume_mounts [])

    abbrev pub spec_volumes : Text → Option PodSpec → List ResolvedVolume × Writes
    spec_volumes container_name none = ([], [])
    spec_volumes container_name (some spec) =
        mounts_of (unwrap_or spec.volumes []) (find_container container_name spec.containers)

  -- `prepare_volumes`: the volumes, and the files that are written on the way.
  unfoldable pub prepare_volumes :
      Pod
      → Text
      → Text
      → Entries ConfigMap
      → Entries Secret
      → Entries Text
      → List ResolvedVolume × Writes
  unfolding mount_each find_container
  prepare_volumes p container_name pod_uid maps secrets paths =
      spec_volumes (unwrap_or p.metadata.namespace (codes "default")) pod_uid maps secrets paths
        container_name p.spec

-- `cleanup_emptydir`: of the entries of the directory the ones that are deleted.
unfoldable pub cleanup_emptydir : Text → List Text → List Text
unfolding safe_uid
cleanup_emptydir pod_uid [] = []
cleanup_emptydir pod_uid (name ∷ names) =
    let rest = cleanup_emptydir pod_uid names in
    if starts_with name (safe_uid pod_uid ++ codes "-") then name ∷ rest else rest
