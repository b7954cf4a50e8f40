-- ===== src/Api/Proto/Hidden.antt =====
-- Fields that src/api/proto.rs does not see, because its loops leave a message early.
use z8s.Base.{ℕ, ◌^◌, ◌<◌, ◌≡◌, refl, sym, ◌∙◌, List, [], ◌∷◌, ◌++◌, length, All, All-append}
use z8s.Base.Int.{as_i64}
use z8s.Base.Text.{codes}
use z8s.Base.Checked.{Checked, ok}
use z8s.Api.Json.{int, obj, empty_obj, entries}
use z8s.Api.Proto.{Bytes, Value, varint, bytes, fixed32, fixed64, Flow}
use z8s.Api.Proto.Fields.{bytes_only}
use z8s.Api.Proto.Encode.{encode, IsField}
use z8s.Api.Proto.Loops.{fold_fields, each_field-encode, after_cong}
use z8s.Api.Proto.Lookups.{lookups_find}
use z8s.Api.Proto.Resources.{parse_labels, deploy_spec_of}

abbrev IsBytes : ℕ × Value → Type 0
IsBytes (f, bytes b) = Unit {0}
IsBytes (f, v) = ⊥

module _ {ℓ} {S : Type ℓ} (body : ℕ → Bytes → S → Checked (Flow S)) where
  fold_hidden :
      (seen hidden : List (ℕ × Value)) (f n : ℕ) (s : S)
      → fold_fields (bytes_only body) (seen ++ ((f, varint n) ∷ hidden)) s
        ≡ fold_fields (bytes_only body) seen s
  unfolding fold_fields
  fold_hidden [] hidden f n s = refl
  fold_hidden ((g, bytes b) ∷ seen) hidden f n s =
      after_cong (body g b s) _ _ (λ s'. fold_hidden seen hidden f n s')
  fold_hidden ((g, varint m) ∷ seen) hidden f n s = refl
  fold_hidden ((g, fixed32 m) ∷ seen) hidden f n s = refl
  fold_hidden ((g, fixed64 m) ∷ seen) hidden f n s = refl

-- The labels of a message's map in field `at` are read only up to the first varint: whatever
-- follows it, labels included, is the same as not being there. Kubernetes writes the varint
-- `generation` (7) of its metadata before `labels` (11).
pub labels_hidden :
    (seen hidden : List (ℕ × Value)) (f n at : ℕ)
    → All IsField seen
    → All IsField ((f, varint n) ∷ hidden)
    → length (encode (seen ++ ((f, varint n) ∷ hidden))) < 2 ^ 64
    → length (encode seen) < 2 ^ 64
    → parse_labels (encode (seen ++ ((f, varint n) ∷ hidden))) at ≡ parse_labels (encode seen) at
unfolding parse_labels
labels_hidden seen hidden f n at hs hh fits fits' =
    each_field-encode _ (seen ++ ((f, varint n) ∷ hidden)) []
      (All-append IsField seen ((f, varint n) ∷ hidden) hs hh) fits
    ∙ fold_hidden _ seen hidden f n []
    ∙ sym (each_field-encode _ seen [] hs fits')

-- A deployment's spec that begins with `replicas`, its field of the lowest number, is decoded with
-- these replicas and with an empty selector and an empty template, whatever else it holds.
pub deploy_spec_hidden :
    (n : ℕ) (hidden : List (ℕ × Value))
    → All IsField ((1, varint n) ∷ hidden)
    → length (encode ((1, varint n) ∷ hidden)) < 2 ^ 64
    → deploy_spec_of (encode ((1, varint n) ∷ hidden))
      ≡ ok (
          obj (
            entries (
              (codes "replicas", int (as_i64 n))
              ∷ (codes "selector", empty_obj)
              ∷ (codes "template", empty_obj)
              ∷ [])))
deploy_spec_hidden n hidden h fits = rw (
  (lookups_find ((1, varint n) ∷ hidden) 1 h fits).1,
  (lookups_find ((1, varint n) ∷ hidden) 2 h fits).0,
  (lookups_find ((1, varint n) ∷ hidden) 3 h fits).0,
)
