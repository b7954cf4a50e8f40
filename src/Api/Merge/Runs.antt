-- ===== src/Api/Merge/Runs.antt =====
-- Patches of a deployment.
use z8s.Base.{◌≡◌, refl}
use z8s.Base.Text.{codes, text_eq}
use z8s.Base.Int.{pos}
use z8s.Api.Json.{Fields, null, int, str, obj, end, field}
use z8s.Api.Merge.{get_field, json_merge_patch}
use z8s.Api.Merge.Keys.{get_of, patch_value, json_merge_patch_lem}

abbrev base : Fields
base = field (codes "kind") (str (codes "Deployment")) (
    field (codes "spec")
      (obj (field (codes "replicas") (int (pos 1)) (field (codes "paused") (int (pos 1)) end))) end)

abbrev patch : Fields
patch =
    field (codes "spec")
      (obj (field (codes "replicas") (int (pos 3)) (field (codes "paused") null end)))
      (field (codes "kind") (obj end) end)

is_patched :
    json_merge_patch (obj base) (obj patch)
    ≡ obj (
        field
          (codes "kind")
          (str (codes "Deployment"))
          (field (codes "spec") (obj (field (codes "replicas") (int (pos 3)) end)) end))
unfolding json_merge_patch text_eq
is_patched = refl

json_merge_patch_lem_example :
    get_of (codes "spec") (json_merge_patch (obj base) (obj patch))
    ≡ patch_value (get_field (codes "spec") base) (get_field (codes "spec") patch)
unfolding get_field text_eq
json_merge_patch_lem_example = json_merge_patch_lem base patch (codes "spec") (refl, (refl, tt))
