-- ===== src/Api/Proto/Ends.antt =====
-- That the loops of src/api/proto.rs end on any bytes: the fuel of the model never cuts them short.
use z8s.Base.{
  ℕ, zero, suc, ◌+◌, ◌*◌, ◌/◌, ◌%◌, ◌^◌, ◌≤◌, ◌<◌, ◌≡◌, refl, ◌⊎◌, inl, inr, Option, none, some, [],
  ◌∷◌, arith, Option-cases, length,
}
use z8s.Base.Checked.{Checked, ok, overflow}
use z8s.Base.{length-drop}
use z8s.Api.Proto.Loops.{after_cong}
use z8s.Api.Proto.{
  Bytes, Value, Parser, Flow, read_from, read_varint, next_field, field_of, varint_field,
  bytes_field, while_fields, each_field, new_parser,
}

read_from_shorter :
    (rest : Bytes) (result shift pos n : ℕ) (p : Parser)
    → read_from result shift pos rest ≡ some (n, p)
    → length p.rest < length rest
unfolding read_from
read_from_shorter [] result shift pos n p e = absurd (ground arith)
read_from_shorter (b ∷ bs) result shift pos n p e =
    ground (
      arith,
      read_from_shorter bs (result + b % 128 * 2 ^ shift % 2 ^ 64) (shift + 7) (pos + 1) n p,
    )

read_varint_shorter :
    (q : Parser) (n : ℕ) (p : Parser) → read_varint q ≡ some (n, p) → length p.rest < length q.rest
unfolding read_varint
read_varint_shorter q n p e = read_from_shorter q.rest 0 0 q.pos n p e

-- The field ends no earlier than the parser stands.
abbrev NoLonger : Parser → Option (ℕ × Value × Parser) → Type 0
NoLonger q none = Unit
NoLonger q (some (f, v, p)) = length p.rest ≤ length q.rest

varint_field_shorter :
    (f : ℕ) (q p : Parser) (v : Value) (g : ℕ)
    → varint_field f (read_varint q) ≡ ok (some (g, v, p))
    → length p.rest ≤ length q.rest
varint_field_shorter f q p v g e = elim (Option-cases (read_varint q)) [
  | inl bad ↦ absurd (ground (arith, bad))
  | inr ((n, q'), good) ↦ ground (arith, good, read_varint_shorter q n q' good)
]

bytes_field_shorter :
    (f : ℕ) (q p : Parser) (v : Value) (g : ℕ)
    → bytes_field f (read_varint q) ≡ ok (some (g, v, p))
    → length p.rest ≤ length q.rest
bytes_field_shorter f q p v g e = elim (Option-cases (read_varint q)) [
  | inl bad ↦ absurd (ground (arith, bad))
  | inr ((n, q'), good) ↦
      ground (arith, good, read_varint_shorter q n q' good, length-drop n q'.rest)
]

field_of_shorter :
    (tag : ℕ) (q p : Parser) (v : Value) (g : ℕ)
    → field_of tag q ≡ ok (some (g, v, p))
    → length p.rest ≤ length q.rest
field_of_shorter tag q p v g e = ground (
  arith,
  varint_field_shorter (tag / 8 % 2 ^ 32) q p v g,
  bytes_field_shorter (tag / 8 % 2 ^ 32) q p v g,
  length-drop 8 q.rest,
  length-drop 4 q.rest,
)

-- Every field takes one byte at least.
pub next_field_shorter :
    (q p : Parser) (v : Value) (f : ℕ)
    → next_field q ≡ ok (some (f, v, p))
    → length p.rest < length q.rest
unfolding next_field
next_field_shorter q p v f e = elim (Option-cases (read_varint q)) [
  | inl bad ↦ absurd (ground (arith, bad))
  | inr ((tag, q'), good) ↦
      ground (arith, good, read_varint_shorter q tag q' good, field_of_shorter tag q' p v f)
]

Next-cases :
    (r : Checked (Option (ℕ × Value × Parser)))
    → (r ≡ overflow)
      ⊎ (r ≡ ok none)
      ⊎ ((f : ℕ) × (v : Value) × (p : Parser) × (r ≡ ok (some (f, v, p))))
Next-cases overflow = inl refl
Next-cases (ok none) = inr (inl refl)
Next-cases (ok (some (f, v, p))) = inr (inr (f, v, p, refl))

module _ {ℓ} {S : Type ℓ} (body : ℕ → Value → S → Checked (Flow S)) where
  while_fields_fuel :
      (a b : ℕ) (p : Parser) (s : S)
      → length p.rest < a
      → length p.rest < b
      → while_fields body a p s ≡ while_fields body b p s
  unfolding while_fields
  while_fields_fuel zero b p s ha hb = absurd (omega arith)
  while_fields_fuel (suc a) zero p s ha hb = absurd (omega arith)
  while_fields_fuel (suc a) (suc b) p s ha hb = elim (Next-cases (next_field p)) [
    | inl e ↦ rw e
    | inr (inl e) ↦ rw e
    | inr (inr (f, v, p', e)) ↦
        let less = next_field_shorter p p' v f e in
        rw e (
          after_cong (body f v s) _ _
            λ s'. while_fields_fuel a b p' s' (omega (arith, less)) (omega (arith, less)))
  ]

  -- On any bytes, well formed or not, a `while let` loop over `next_field` ends within one round
  -- more than there are bytes: more fuel never changes its result.
  pub each_field_ends :
      (msg : Bytes) (s : S) (more : ℕ)
      → while_fields body (suc (length msg) + more) (new_parser msg) s ≡ each_field body msg s
  unfolding each_field
  each_field_ends msg s more =
      while_fields_fuel (suc (length msg) + more) (suc (length msg)) (new_parser msg) s
        (omega arith) (omega arith)
