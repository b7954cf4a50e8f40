-- ===== src/Api/Proto.antt =====
-- src/api/proto.rs: the wire format. A `Parser` is what stands from its position on, with the
-- position; the message ends at `pos + length rest`.
pub mod Encode
pub mod Loops
pub mod Fields
pub mod Resources
pub mod Ends
pub mod Lookups
pub mod Hidden
pub mod Panics
mod Runs
use z8s.Base.{
  ℕ, zero, suc, ◌+◌, ◌-◌, ◌*◌, ◌/◌, ◌%◌, ◌^◌, ◌≤◌, ◌<◌, min, max, ◌≡◌, refl, sym, ap, ◌∙◌, ◌≢◌, ◌↔◌,
  ◌⊎◌, inl, inr, Bool, true, false, not, ◌&&◌, ◌||◌, Option, none, some, List, [], ◌∷◌, ◌++◌, map,
  arith, dec_lt, ltb, leb, ◌==◌, if◌then◌else◌, Bool-cases, Option-cases, unwrap_or, is_some,
  length, get_elem?, take, drop, length-append, any, all, All,
}
use z8s.Base.Checked.{Checked, ok, overflow, ◌>>=◌}

abbrev pub Bytes : Type 0
Bytes = List ℕ

pub data Value : Type 0 where
  varint : ℕ → Value
  bytes : Bytes → Value
  fixed32 : ℕ → Value
  fixed64 : ℕ → Value

pub record Parser : Type 0 where
  pub pos : ℕ
  pub rest : Bytes

-- `Parser::new`.
abbrev pub new_parser : Bytes → Parser
new_parser data_bytes = record { pos = 0; rest = data_bytes }

-- `self.pos += n` over bytes that are there.
abbrev pub advance : Parser → ℕ → Parser
advance p n = record { pos = p.pos + n; rest = drop n p.rest }

-- The loop of `read_varint`. The group is shifted past all bits of `result`, so `|=` adds it; what
-- the shift moves beyond bit 63 is lost.
unfoldable pub read_from : ℕ → ℕ → ℕ → Bytes → Option (ℕ × Parser)
read_from result shift pos [] = none
read_from result shift pos (b ∷ bs) =
    let result' = result + b % 128 * 2 ^ shift % 2 ^ 64 in
    let more = read_from result' (shift + 7) (pos + 1) bs in
    if ltb b 128
    then some (result', record { pos = pos + 1; rest = bs })
    else if leb 64 (shift + 7)
    then none
    else more

unfoldable pub read_varint : Parser → Option (ℕ × Parser)
unfolding read_from
read_varint p = read_from 0 0 p.pos p.rest

-- `uN::from_le_bytes`.
unfoldable pub from_le_bytes : Bytes → ℕ
from_le_bytes [] = 0
from_le_bytes (b ∷ bs) = b + 256 * from_le_bytes bs

abbrev pub Next : Type 0
Next = Checked (Option (ℕ × Value × Parser))

abbrev pub varint_field : ℕ → Option (ℕ × Parser) → Next
varint_field field none = ok none
varint_field field (some (n, p)) = ok (some (field, varint n, p))

abbrev pub fixed_field : ℕ → ℕ → (ℕ → Value) → Parser → Next
fixed_field field size make p =
    if ltb (length p.rest) size
    then ok none
    else ok (some (field, make (from_le_bytes (take size p.rest)), advance p size))

-- `self.pos + len` panics beyond the range of usize, before it is compared.
abbrev pub bytes_field : ℕ → Option (ℕ × Parser) → Next
bytes_field field none = ok none
bytes_field field (some (len, p)) =
    if leb (2 ^ 64) (p.pos + len)
    then overflow
    else if ltb (length p.rest) len
    then ok none
    else ok (some (field, bytes (take len p.rest), advance p len))

abbrev pub field_of : ℕ → Parser → Next
field_of tag p =
    let field = tag / 8 % 2 ^ 32 in
    let wire = tag % 8 in
    if wire == 0
    then varint_field field (read_varint p)
    else if wire == 1
    then fixed_field field 8 fixed64 p
    else if wire == 2
    then bytes_field field (read_varint p)
    else if wire == 5
    then fixed_field field 4 fixed32 p
    else ok none

abbrev pub tagged : Option (ℕ × Parser) → Next
tagged none = ok none
tagged (some (tag, p)) = field_of tag p

-- `next_field`.
unfoldable pub next_field : Parser → Next
unfolding read_varint from_le_bytes
next_field p = tagged (read_varint p)

-- What the body of a `while let` loop does: go on, or leave the loop.
pub data Flow {ℓ} (S : Type ℓ) : Type ℓ where
  go : S → Flow S
  stop : S → Flow S

-- What follows the body: the rest of the loop, or what follows the loop.
abbrev pub after {ℓ} : {S : Type ℓ} → (S → Checked S) → Flow S → Checked S
after more (go s) = more s
after more (stop s) = ok s

module _ {ℓ} {S : Type ℓ} (body : ℕ → Value → S → Checked (Flow S)) where
  -- `while let Some((field, value)) = p.next_field() { body }`, on fuel.
  unfoldable pub while_fields : ℕ → Parser → S → Checked S
  while_fields zero p s = ok s
  while_fields (suc fuel) p s = next_field p >>= elim [
    | none ↦ ok s
    | some (field, value, p') ↦ body field value s >>= after (λ s'. while_fields fuel p' s')
  ]

  -- A round takes one byte at least, so one round for each byte and one more are enough.
  unfoldable pub each_field : Bytes → S → Checked S
  unfolding while_fields
  each_field msg s = while_fields (suc (length msg)) (new_parser msg) s
