-- ===== src/Api/Proto/Lookups.antt =====
-- What the lookups of src/api/proto.rs find in an encoded message.
use z8s.Base.{
  ℕ, ◌^◌, ◌<◌, ◌≡◌, refl, ◌∙◌, Option, none, some, List, [], ◌∷◌, arith, ◌==◌, if◌then◌else◌,
  length, All,
}
use z8s.Base.Checked.{ok}
use z8s.Api.Proto.{Bytes, Value, varint, bytes, fixed32, fixed64}
use z8s.Api.Proto.Fields.{bytes_only, bytes_body, get_bytes_field, varint_body, get_varint_field}
use z8s.Api.Proto.Encode.{encode, IsField}
use z8s.Api.Proto.Loops.{fold_fields, each_field-encode}

-- The first bytes with the number, before the first field that holds no bytes.
abbrev pub first_bytes : ℕ → List (ℕ × Value) → Option Bytes
first_bytes target [] = none
first_bytes target ((f, bytes b) ∷ fs) = if f == target then some b else first_bytes target fs
first_bytes target ((f, v) ∷ fs) = none

-- The first varint with the number, wherever it stands.
abbrev pub first_varint : ℕ → List (ℕ × Value) → Option ℕ
first_varint target [] = none
first_varint target ((f, varint n) ∷ fs) = if f == target then some n else first_varint target fs
first_varint target ((f, v) ∷ fs) = first_varint target fs

fold_bytes :
    (target : ℕ) (fs : List (ℕ × Value))
    → fold_fields (bytes_only (bytes_body target)) fs none ≡ ok (first_bytes target fs)
unfolding fold_fields
fold_bytes target [] = refl
fold_bytes target ((f, bytes b) ∷ fs) = ground (arith, fold_bytes target fs)
fold_bytes target ((f, varint n) ∷ fs) = refl
fold_bytes target ((f, fixed32 n) ∷ fs) = refl
fold_bytes target ((f, fixed64 n) ∷ fs) = refl

fold_varint :
    (target : ℕ) (fs : List (ℕ × Value))
    → fold_fields (varint_body target) fs none ≡ ok (first_varint target fs)
unfolding fold_fields
fold_varint target [] = refl
fold_varint target ((f, varint n) ∷ fs) = ground (arith, fold_varint target fs)
fold_varint target ((f, bytes b) ∷ fs) = fold_varint target fs
fold_varint target ((f, fixed32 n) ∷ fs) = fold_varint target fs
fold_varint target ((f, fixed64 n) ∷ fs) = fold_varint target fs

-- On an encoded message `get_bytes_field` returns the first bytes with the number that stand before
-- the first field of another wire type, and `get_varint_field` the first varint with the number
-- wherever it stands; neither panics.
pub lookups_find :
    (fs : List (ℕ × Value)) (target : ℕ)
    → All IsField fs
    → length (encode fs) < 2 ^ 64
    → (get_bytes_field (encode fs) target ≡ ok (first_bytes target fs))
      × (get_varint_field (encode fs) target ≡ ok (first_varint target fs))
unfolding get_bytes_field get_varint_field
lookups_find fs target h fits = (
  each_field-encode (bytes_only (bytes_body target)) fs none h fits ∙ fold_bytes target fs,
  each_field-encode (varint_body target) fs none h fits ∙ fold_varint target fs,
)
