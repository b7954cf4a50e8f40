-- ===== src/Api/Merge.antt =====
-- src/api/server.rs: the patching of a resource's JSON.
pub mod Keys
mod Runs
use z8s.Base.{
  ℕ, zero, suc, ◌+◌, ◌-◌, ◌*◌, ◌/◌, ◌%◌, ◌^◌, ◌≤◌, ◌<◌, min, max, ◌≡◌, refl, sym, ap, ◌∙◌, ◌≢◌, ◌↔◌,
  ◌⊎◌, inl, inr, Bool, true, false, not, ◌&&◌, ◌||◌, Option, none, some, List, [], ◌∷◌, ◌++◌, map,
  arith, dec_lt, ltb, leb, ◌==◌, if◌then◌else◌, Bool-cases, Option-cases, unwrap_or, is_some,
  length, get_elem?, take, drop, length-append, any, all, All, All-append,
}
use z8s.Base.Text.{Text, text_eq}
use z8s.Api.Json.{Json, Fields, null, obj, end, field, set_field}

unfoldable pub get_field : Text → Fields → Option Json
get_field k end = none
get_field k (field j v fs) = if text_eq j k then some v else get_field k fs

-- `b.remove(k)`.
unfoldable pub remove_field : Text → Fields → Fields
remove_field k end = end
remove_field k (field j v fs) =
    let rest = remove_field k fs in if text_eq j k then rest else field j v rest

-- The entries into which an object of the patch is merged: those of the object that is there, or of
-- a new one.
abbrev pub base_fields : Option Json → Fields
base_fields (some (obj fs)) = fs
base_fields _ = end

-- `entry(k).or_insert({})`, with what the merge makes of it: a value that is there and no object stays.
abbrev pub merged_entry : Option Json → Fields → Json
merged_entry none merged = obj merged
merged_entry (some (obj fs)) merged = obj merged
merged_entry (some v) merged = v

unfoldable mutual
  unfolding get_field remove_field

  -- The loop over the entries of the patch.
  pub merge_fields : Fields → Fields → Fields
  merge_fields b end = b
  merge_fields b (field k v p) = merge_fields (merge_one k v b) p

  pub merge_one : Text → Json → Fields → Fields
  merge_one k null b = remove_field k b
  merge_one k (obj p) b =
      let old = get_field k b in set_field k (merged_entry old (merge_fields (base_fields old) p)) b
  merge_one k v b = set_field k v b

-- `json_merge_patch`: what becomes of `base`.
unfoldable pub json_merge_patch : Json → Json → Json
unfolding merge_fields
json_merge_patch (obj b) (obj p) = obj (merge_fields b p)
json_merge_patch base patch = base
