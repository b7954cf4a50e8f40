-- ===== src/Compute/Spec/Volumes/Runs.antt =====
-- A pod with two mounts, and the theorems at it.
use z8s.Base.{
  ◌≡◌, refl, ap, ◌≢◌, true, false, ◌&&◌, Option, none, some, List, [], ◌∷◌, ◌++◌, arith, length,
}
use z8s.Base.Text.{Text, codes, text_eq, starts_with}
use z8s.Resource.{Container, Pod, PodSpec, Volume, VolumeMount}
use z8s.Compute.Spec.Volumes.{
  Disk, resolve_volume_source, safe_uid, emptydir, cleanup_emptydir, prepare_volumes, join_path,
  host_side, find_volume,
}
use z8s.Compute.Spec.Volumes.Emptydirs.{entry, contains, emptydir_lem}
use z8s.Compute.Spec.Volumes.Mounts.{Resolves, prepare_volumes_lem}

abbrev disk : Disk
disk = record { base = codes "/var/lib/z8s"; create_dir_all = λ path. true; write = λ path. true }

abbrev scratch : Volume
scratch = record {
  name = codes "scratch";
  host_path = none;
  empty_dir = true;
  config_map = none;
  secret = none;
  persistent_volume_claim = none;
}

abbrev mount : Option Text → VolumeMount
mount sub = record {
  name = codes "scratch";
  mount_path = codes "/data";
  sub_path = sub;
  read_only = none;
}

abbrev web : Container
web = record {
  name = codes "web";
  volume_mounts = some (mount none ∷ mount (some (codes "/etc")) ∷ []);
  env_from = none;
  image = none;
  ports = none;
}

abbrev spec : PodSpec
spec = record {
  containers = web ∷ [];
  init_containers = some (record web { name = codes "init" } ∷ []);
  restart_policy = none;
  volumes = some (scratch ∷ []);
}

abbrev web_pod : Pod
web_pod = record {
  metadata = record {
    name = some (codes "web");
    namespace = none;
    uid = none;
    labels = none;
    owner_references = none;
  };
  spec = some spec;
}

abbrev uid : Text
uid = codes "Pod/default/web"

abbrev dir : Text
dir = codes "/var/lib/z8s/emptydir/Pod_default_web-scratch"

is_resolved :
    (sub : Option Text)
    → Resolves disk (codes "default") uid [] [] [] (scratch ∷ []) (mount sub) dir
unfolding resolve_volume_source find_volume text_eq
is_resolved sub = (scratch, refl, refl)

-- The second mount is the host's /etc.
prepare_volumes_lem_example :
    ((prepare_volumes disk web_pod (codes "web") uid [] [] []).0
      ≡ record { host_path = dir; container_path = codes "/data"; read_only = false }
        ∷ record { host_path = codes "/etc"; container_path = codes "/data"; read_only = false }
        ∷ [])
    × (host_side (some (codes "/etc")) dir ≡ codes "/etc")
unfolding starts_with join_path
prepare_volumes_lem_example =
    prepare_volumes_lem disk uid [] [] [] web_pod spec web [] []
      ((mount none, dir) ∷ (mount (some (codes "/etc")), dir) ∷ []) dir (codes "etc") refl refl tt
      refl (is_resolved none, (is_resolved (some (codes "/etc")), tt))

other_name : codes "web" ≢ codes "init"
other_name e = absurd (ground (arith, ap length e))

abbrev listed : List Text
listed =
    codes "Pod_default_web-scratch"
    ∷ codes "Pod_default_web-1-scratch"
    ∷ codes "Pod_default_db-x"
    ∷ []

emptydir_lem_example :
    (contains (cleanup_emptydir uid listed) (entry uid (codes "scratch"))
      ≡ contains listed (entry uid (codes "scratch")))
    × (contains (cleanup_emptydir uid listed) (entry (uid ++ codes "-1") (codes "scratch"))
        ≡ contains listed (entry (uid ++ codes "-1") (codes "scratch")))
    × (contains (cleanup_emptydir uid listed) (codes "Pod_default_db-x") ≡ (
        contains listed (codes "Pod_default_db-x")
        && starts_with (codes "Pod_default_db-x") (safe_uid uid ++ codes "-")))
    × (emptydir disk uid (codes "1-scratch") ≡ emptydir disk (uid ++ codes "-1") (codes "scratch"))
emptydir_lem_example =
    emptydir_lem disk uid (codes "1") (codes "scratch") listed (codes "Pod_default_db-x")
      ((λ e. absurd (omega (arith, e))), tt)

one_left :
    cleanup_emptydir uid listed
    ≡ codes "Pod_default_web-scratch" ∷ codes "Pod_default_web-1-scratch" ∷ []
unfolding cleanup_emptydir starts_with
one_left = refl
