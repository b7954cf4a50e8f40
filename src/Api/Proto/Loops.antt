-- ===== src/Api/Proto/Loops.antt =====
-- The `while let` loops of src/api/proto.rs: they end, and on an encoded message they visit its
-- fields in order.
use z8s.Base.{
  ℕ, zero, suc, ◌+◌, ◌*◌, ◌^◌, ◌≤◌, ◌<◌, ◌≡◌, refl, none, some, List, [], ◌∷◌, ◌++◌, arith, length,
  length-append, All,
}
use mathlib.Core.List.{append_assoc}
use z8s.Base.Checked.{Checked, ok, overflow, ◌>>=◌}
use z8s.Api.Proto.{
  Bytes, Value, varint, bytes, fixed32, fixed64, Flow, go, stop, after, next_field, while_fields,
  each_field,
}
use z8s.Api.Proto.Encode.{
  put_varint, to_le_bytes, encode_field, encode, IsField, at, key_read, tag_varint, tag_bytes,
  tag_fixed32, tag_fixed64, length-to_le_bytes,
}

-- `next_field` reads back a field that was encoded, and stops behind it.
pub next_field-encode_field :
    (f : ℕ) (v : Value) (pos : ℕ) (rest : Bytes)
    → IsField (f, v)
    → pos + length (encode_field f v) < 2 ^ 64
    → next_field (at pos (encode_field f v ++ rest))
      ≡ ok (some (f, v, at (pos + length (encode_field f v)) rest))
unfolding encode_field
next_field-encode_field f (varint n) pos rest (hf, hn) fits =
    let key = put_varint 9 (f * 8) in
    rw
      (
        append_assoc key (put_varint 9 n) rest,
        key_read (f * 8) pos (put_varint 9 n ++ rest) (omega arith),
        tag_varint f n (pos + length key) rest hf hn,
        length-append key (put_varint 9 n),
      )
      (ground arith)
next_field-encode_field f (bytes b) pos rest (hf, hn) fits =
    let key = put_varint 9 (f * 8 + 2) in
    let size = put_varint 9 (length b) in
    let fits' : pos + length key + length size + length b < 2 ^ 64 =
      omega (arith, length-append key (size ++ b), length-append size b) in
    rw
      (
        append_assoc key (size ++ b) rest,
        append_assoc size b rest,
        key_read (f * 8 + 2) pos (size ++ (b ++ rest)) (omega arith),
        tag_bytes f (pos + length key) b rest hf fits',
        length-append key (size ++ b),
        length-append size b,
      )
      (ground arith)
next_field-encode_field f (fixed32 n) pos rest (hf, hn) fits =
    let key = put_varint 9 (f * 8 + 5) in
    rw
      (
        append_assoc key (to_le_bytes 4 n) rest,
        key_read (f * 8 + 5) pos (to_le_bytes 4 n ++ rest) (omega arith),
        tag_fixed32 f n (pos + length key) rest hf hn,
        length-append key (to_le_bytes 4 n),
        length-to_le_bytes 4 n,
      )
      (ground arith)
next_field-encode_field f (fixed64 n) pos rest (hf, hn) fits =
    let key = put_varint 9 (f * 8 + 1) in
    rw
      (
        append_assoc key (to_le_bytes 8 n) rest,
        key_read (f * 8 + 1) pos (to_le_bytes 8 n ++ rest) (omega arith),
        tag_fixed64 f n (pos + length key) rest hf hn,
        length-append key (to_le_bytes 8 n),
        length-to_le_bytes 8 n,
      )
      (ground arith)

next_field-empty : (pos : ℕ) → next_field (at pos []) ≡ ok none
unfolding next_field
next_field-empty pos = refl

put_varint_pos : (k n : ℕ) → 1 ≤ length (put_varint k n)
unfolding put_varint
put_varint_pos zero n = omega arith
put_varint_pos (suc k) n = ground arith

encode_field_pos : (f : ℕ) (v : Value) → 1 ≤ length (encode_field f v)
unfolding encode_field
encode_field_pos f (varint n) =
    omega (arith, length-append (put_varint 9 (f * 8)) (put_varint 9 n), put_varint_pos 9 (f * 8))
encode_field_pos f (bytes b) = omega (
  arith,
  length-append (put_varint 9 (f * 8 + 2)) (put_varint 9 (length b) ++ b),
  put_varint_pos 9 (f * 8 + 2),
)
encode_field_pos f (fixed32 n) = omega (
  arith,
  length-append (put_varint 9 (f * 8 + 5)) (to_le_bytes 4 n),
  put_varint_pos 9 (f * 8 + 5),
)
encode_field_pos f (fixed64 n) = omega (
  arith,
  length-append (put_varint 9 (f * 8 + 1)) (to_le_bytes 8 n),
  put_varint_pos 9 (f * 8 + 1),
)

pub after_cong {ℓ} :
    {S : Type ℓ} (r : Checked (Flow S)) (k l : S → Checked S)
    → ((s : S) → k s ≡ l s)
    → (r >>= after k) ≡ (r >>= after l)
after_cong (ok (go s)) k l h = h s
after_cong (ok (stop s)) k l h = refl
after_cong overflow k l h = refl

module _ {ℓ} {S : Type ℓ} (body : ℕ → Value → S → Checked (Flow S)) where
  -- The loop over the fields themselves.
  unfoldable pub fold_fields : List (ℕ × Value) → S → Checked S
  fold_fields [] s = ok s
  fold_fields ((f, v) ∷ fs) s = body f v s >>= after (λ s'. fold_fields fs s')

  while_fields-encode :
      (fs : List (ℕ × Value)) (fuel pos : ℕ) (s : S)
      → All IsField fs
      → pos + length (encode fs) < 2 ^ 64
      → length (encode fs) < fuel
      → while_fields body fuel (at pos (encode fs)) s ≡ fold_fields fs s
  unfolding while_fields fold_fields encode
  while_fields-encode fs zero pos s h fits enough = absurd (omega arith)
  while_fields-encode [] (suc fuel) pos s h fits enough = rw (next_field-empty pos)
  while_fields-encode ((f, v) ∷ fs) (suc fuel) pos s (h, hs) fits enough =
      let total = length-append (encode_field f v) (encode fs) in
      rw (next_field-encode_field f v pos (encode fs) h (omega (arith, total))) (
        after_cong (body f v s) _ _ λ s'.
          while_fields-encode fs fuel (pos + length (encode_field f v)) s' hs (omega (arith, total))
            (omega (arith, total, encode_field_pos f v)))

  -- On a message that encodes fields with numbers below 2 ^ 29 and values in their range, a
  -- `while let` loop over `next_field` runs its body on these fields, in order, until the body
  -- leaves the loop, and does nothing else.
  pub each_field-encode :
      (fs : List (ℕ × Value)) (s : S)
      → All IsField fs
      → length (encode fs) < 2 ^ 64
      → each_field body (encode fs) s ≡ fold_fields fs s
  unfolding each_field
  each_field-encode fs s h fits =
      while_fields-encode fs (suc (length (encode fs))) 0 s h (omega arith) (omega arith)
