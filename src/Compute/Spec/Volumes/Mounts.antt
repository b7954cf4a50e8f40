-- ===== src/Compute/Spec/Volumes/Mounts.antt =====
-- src/components/compute/spec_builder.rs: what a container is given for its mounts.
use z8s.Base.{
  ◌≡◌, refl, ap, ◌∙◌, ◌≢◌, false, none, some, List, [], ◌∷◌, ◌++◌, map, arith, unwrap_or, All,
}
use z8s.Base.Text.{Text, codes, text_eq_iff, starts_with}
use z8s.Resource.{ConfigMap, Secret, Container, Pod, PodSpec, Volume, VolumeMount}
use z8s.Compute.Spec.{Entries}
use z8s.Compute.Spec.Volumes.{
  Disk, ResolvedVolume, resolved, Writes, resolve_volume_source, find_volume, find_container,
  host_side, join_path, push_volume, mount_one, mount_each, mounts_of, spec_volumes,
  prepare_volumes,
}

find_none :
    (name : Text) (cs : List Container)
    → All (λ c. c.name ≢ name) cs
    → find_container name cs ≡ none
unfolding find_container
find_none name [] h = refl
find_none name (c ∷ cs) (ne, h) = ground (arith, text_eq_iff c.name name, ne, find_none name cs h)

find_first :
    (c : Container) (before after : List Container)
    → All (λ d. d.name ≢ c.name) before
    → find_container c.name (before ++ (c ∷ after)) ≡ some c
unfolding find_container
find_first c [] after h = ground (arith, text_eq_iff c.name c.name)
find_first c (d ∷ before) after (ne, h) =
    ground (arith, text_eq_iff d.name c.name, ne, find_first c before after h)

module _ (disk : Disk) (ns pod_uid : Text) (maps : Entries ConfigMap) (secrets : Entries Secret)
    (paths : Entries Text) where
  -- The mount has a volume, and that resolves to the path.
  abbrev pub Resolves : List Volume → VolumeMount → Text → Type 0
  Resolves vols m path =
      (vol : Volume) × (find_volume m.name vols ≡ some vol)
      × ((resolve_volume_source disk ns pod_uid maps secrets paths vol).0 ≡ resolved path)

  abbrev volume_at : VolumeMount → Text → ResolvedVolume
  volume_at m path = record {
    host_path = host_side m.sub_path path;
    container_path = m.mount_path;
    read_only = unwrap_or m.read_only false;
  }

  mount_each-resolved :
      (vols : List Volume) (m : VolumeMount) (ms : List VolumeMount) (path : Text)
      → Resolves vols m path
      → (mount_each disk ns pod_uid maps secrets paths vols (m ∷ ms)).0
        ≡ volume_at m path ∷ (mount_each disk ns pod_uid maps secrets paths vols ms).0
  unfolding mount_each
  mount_each-resolved vols m ms path (vol, found, e) =
      ap (λ o. (mount_one disk ns pod_uid maps secrets paths m o rest).0) found
      ∙ ap (λ r. push_volume m r rest.0) e
    where
      rest : List ResolvedVolume × Writes
      rest = mount_each disk ns pod_uid maps secrets paths vols ms

  -- Every mount resolves, to the path beside it.
  abbrev pub AllResolve : List Volume → List (VolumeMount × Text) → Type 0
  AllResolve vols ms = All (λ m. Resolves vols m.0 m.1) ms

  mount_each-all :
      (vols : List Volume) (ms : List (VolumeMount × Text))
      → AllResolve vols ms
      → (mount_each disk ns pod_uid maps secrets paths vols (map (λ m. m.0) ms)).0
        ≡ map (λ m. volume_at m.0 m.1) ms
  unfolding mount_each
  mount_each-all vols [] h = refl
  mount_each-all vols ((m, path) ∷ ms) (r, h) =
      mount_each-resolved vols m (map (λ m. m.0) ms) path r
      ∙ ap (λ vs. volume_at m path ∷ vs) (mount_each-all vols ms h)

join_absolute : (path x : Text) → join_path path (b'/' ∷ x) ≡ b'/' ∷ x
unfolding join_path starts_with
join_absolute [] x = refl
join_absolute (c ∷ s) x = refl

-- The first container of the pod's spec that has the name is given a volume for each of its mounts, in
-- their order, if these resolve to a path: at the mount's path, read-only as the mount says, and on
-- the host at the path itself or joined to the mount's subPath. An absolute subPath takes the place
-- of the path.
pub prepare_volumes_lem :
    (disk : Disk) (pod_uid : Text) (maps : Entries ConfigMap) (secrets : Entries Secret)
    (paths : Entries Text) (p : Pod) (spec : PodSpec) (c : Container)
    (before after : List Container) (ms : List (VolumeMount × Text)) (path x : Text)
    → p.spec ≡ some spec
    → spec.containers ≡ before ++ (c ∷ after)
    → All (λ d. d.name ≢ c.name) before
    → c.volume_mounts ≡ some (map (λ m. m.0) ms)
    → AllResolve disk
        (unwrap_or p.metadata.namespace (codes "default"))
        pod_uid
        maps
        secrets
        paths
        (unwrap_or spec.volumes [])
        ms
    → ((prepare_volumes disk p c.name pod_uid maps secrets paths).0
        ≡ map
            (λ m. record {
              host_path = host_side m.0.sub_path m.1;
              container_path = m.0.mount_path;
              read_only = unwrap_or m.0.read_only false;
            })
            ms)
      × (host_side (some (b'/' ∷ x)) path ≡ b'/' ∷ x)
unfolding prepare_volumes
prepare_volumes_lem disk pod_uid maps secrets paths p spec c before after ms path x e cs first
      mounts resolve =
    let ns = unwrap_or p.metadata.namespace (codes "default") in
    let vols = unwrap_or spec.volumes [] in
    (
      ap (λ o. (spec_volumes disk ns pod_uid maps secrets paths c.name o).0) e
          ∙ ap (λ o. (mounts_of disk ns pod_uid maps secrets paths vols o).0)
              (ap (find_container c.name) cs ∙ find_first c before after first)
          ∙ ap (λ o. (mount_each disk ns pod_uid maps secrets paths vols (unwrap_or o [])).0) mounts
          ∙ mount_each-all disk ns pod_uid maps secrets paths vols ms resolve,
      join_absolute path x,
    )

-- A name that no container of the spec has, as that of an init container, is given no volume, and no
-- file is written for it.
pub prepare_volumes_none :
    (disk : Disk) (pod_uid : Text) (maps : Entries ConfigMap) (secrets : Entries Secret)
    (paths : Entries Text) (p : Pod) (spec : PodSpec) (name : Text)
    → p.spec ≡ some spec
    → All (λ c. c.name ≢ name) spec.containers
    → prepare_volumes disk p name pod_uid maps secrets paths ≡ ([], [])
unfolding prepare_volumes
prepare_volumes_none disk pod_uid maps secrets paths p spec name e others =
    let ns = unwrap_or p.metadata.namespace (codes "default") in
    ap (spec_volumes disk ns pod_uid maps secrets paths name) e
    ∙ ap (mounts_of disk ns pod_uid maps secrets paths (unwrap_or spec.volumes []))
        (find_none name spec.containers others)
