-- ===== src/Api/Merge/Keys.antt =====
-- src/api/server.rs: what a patch makes of every key.
use z8s.Base.{
  ◌≡◌, refl, sym, ap, ◌∙◌, inl, inr, Option, none, some, arith, if◌then◌else◌, Bool-cases,
  unwrap_or,
}
use z8s.Base.Text.{Text, text_eq, text_eq_iff}
use z8s.Api.Json.{Json, Fields, null, boolean, int, float, str, arr, obj, end, field, set_field}
use z8s.Api.Merge.{
  get_field, remove_field, base_fields, merged_entry, merge_fields, merge_one, json_merge_patch,
}

get-set_field :
    (k j : Text) (v : Json) (fs : Fields)
    → get_field j (set_field k v fs) ≡ (if text_eq k j then some v else get_field j fs)
unfolding get_field
get-set_field k j v end = refl
get-set_field k j v (field i w fs) =
    ground (arith, text_eq_iff k j, text_eq_iff i k, text_eq_iff i j, get-set_field k j v fs)

get-remove_field :
    (k j : Text) (fs : Fields)
    → get_field j (remove_field k fs) ≡ (if text_eq k j then none else get_field j fs)
unfolding get_field remove_field
get-remove_field k j end = ground arith
get-remove_field k j (field i w fs) =
    ground (arith, text_eq_iff k j, text_eq_iff i k, text_eq_iff i j, get-remove_field k j fs)

-- No key stands twice.
abbrev pub IsUnique : Fields → Type 0
IsUnique end = Unit
IsUnique (field k v fs) = (get_field k fs ≡ none) × IsUnique fs

-- What one value of the patch makes of what stood under its key.
abbrev pub patched_by : Option Json → Json → Option Json
patched_by old null = none
patched_by old (obj p) = some (merged_entry old (merge_fields (base_fields old) p))
patched_by old v = some v

abbrev pub patched : Option Json → Option Json → Option Json
patched old none = old
patched old (some v) = patched_by old v

get-merge_one :
    (k j : Text) (v : Json) (b : Fields)
    → get_field j (merge_one k v b)
      ≡ (if text_eq k j then patched_by (get_field k b) v else get_field j b)
unfolding merge_one
get-merge_one k j null b = get-remove_field k j b
get-merge_one k j (boolean x) b = get-set_field k j (boolean x) b
get-merge_one k j (int x) b = get-set_field k j (int x) b
get-merge_one k j (float x) b = get-set_field k j (float x) b
get-merge_one k j (str x) b = get-set_field k j (str x) b
get-merge_one k j (arr x) b = get-set_field k j (arr x) b
get-merge_one k j (obj p) b = get-set_field k j _ b

get-merge_fields :
    (j : Text) (p b : Fields)
    → IsUnique p
    → get_field j (merge_fields b p) ≡ patched (get_field j b) (get_field j p)
unfolding merge_fields get_field
get-merge_fields j end b u = refl
get-merge_fields j (field k v p) b (fresh, u) = elim (Bool-cases (text_eq k j)) [
  | inl e ↦
      let same : k ≡ j = (text_eq_iff k j).0 e in
      get-merge_fields j p (merge_one k v b) u
      ∙ rw e (
          rw (sym (ap (λ i. get_field i p) same) ∙ fresh)
            (get-merge_one k j v b ∙ rw e (ap (λ i. patched_by (get_field i b) v) same)))
  | inr e ↦
      get-merge_fields j p (merge_one k v b) u
      ∙ rw e (ap (λ o. patched o (get_field j p)) (get-merge_one k j v b ∙ rw e refl))
]

-- `value.get(k)`.
abbrev pub get_of : Text → Json → Option Json
get_of k (obj fs) = get_field k fs
get_of k _ = none

-- What a key holds after a patch: what it held where the patch does not name it, nothing for `null`,
-- for an object the patched value of the key, and any other value of the patch itself.
abbrev pub patch_value : Option Json → Option Json → Option Json
patch_value old none = old
patch_value old (some null) = none
patch_value old (some (obj p)) = some (json_merge_patch (unwrap_or old (obj end)) (obj p))
patch_value old (some v) = some v

patched-patch_value : (old new : Option Json) → patched old new ≡ patch_value old new
unfolding json_merge_patch
patched-patch_value old none = refl
patched-patch_value old (some null) = refl
patched-patch_value old (some (boolean x)) = refl
patched-patch_value old (some (int x)) = refl
patched-patch_value old (some (float x)) = refl
patched-patch_value old (some (str x)) = refl
patched-patch_value old (some (arr x)) = refl
patched-patch_value none (some (obj p)) = refl
patched-patch_value (some null) (some (obj p)) = refl
patched-patch_value (some (boolean x)) (some (obj p)) = refl
patched-patch_value (some (int x)) (some (obj p)) = refl
patched-patch_value (some (float x)) (some (obj p)) = refl
patched-patch_value (some (str x)) (some (obj p)) = refl
patched-patch_value (some (arr x)) (some (obj p)) = refl
patched-patch_value (some (obj q)) (some (obj p)) = refl

-- Patching an object with an object in which no key stands twice sets every key to what the patch
-- says of it: a key that is not in the patch is left, `null` takes it away, an object patches the
-- value that is there, or a new object, in the same way, and any other value replaces it.
pub json_merge_patch_lem :
    (b p : Fields) (k : Text)
    → IsUnique p
    → get_of k (json_merge_patch (obj b) (obj p)) ≡ patch_value (get_field k b) (get_field k p)
unfolding json_merge_patch
json_merge_patch_lem b p k u =
    get-merge_fields k p b u ∙ patched-patch_value (get_field k b) (get_field k p)

-- An object in the patch does nothing to a key whose value is there and is no object.
pub kept_scalar :
    (b p q : Fields) (k s : Text)
    → IsUnique p
    → get_field k p ≡ some (obj q)
    → get_field k b ≡ some (str s)
    → get_of k (json_merge_patch (obj b) (obj p)) ≡ some (str s)
unfolding json_merge_patch
kept_scalar b p q k s u e f =
    json_merge_patch_lem b p k u
    ∙ ap (λ o. patch_value o (get_field k p)) f
    ∙ ap (patch_value (some (str s))) e
