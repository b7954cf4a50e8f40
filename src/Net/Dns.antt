-- ===== src/Net/Dns.antt =====
-- src/netmux/dns.rs: names and records in packets. `str::to_lowercase` is a parameter.
mod Runs
pub mod Names
pub mod Offsets
pub mod Endless
pub mod Resolve
pub mod Query
use z8s.Base.{
  ℕ, zero, suc, ◌+◌, ◌-◌, ◌*◌, ◌/◌, ◌%◌, ◌^◌, ◌≤◌, ◌<◌, min, max, ◌≡◌, refl, sym, ap, ◌∙◌, ◌≢◌, ◌↔◌,
  ◌⊎◌, inl, inr, Bool, true, false, not, ◌&&◌, ◌||◌, Option, none, some, List, [], ◌∷◌, ◌++◌, map,
  arith, dec_lt, ltb, leb, ◌==◌, if◌then◌else◌, Bool-cases, Option-cases, unwrap_or, is_some,
  length, get_elem?, take, drop, length-append, any, all, All, All-append,
}
use z8s.Base.Text.{Text, codes}
use z8s.Base.Text.Split.{split, join}
use z8s.Base.Text.Utf8.{from_utf8}

abbrev pub Bytes : Type 0
Bytes = List ℕ

-- What stands at a position of a name.
pub data Part : Type 0 where
  root broken : Part
  pointer : ℕ → Part
  label : Text → Part

abbrev pub pointer_to : ℕ → Option ℕ → Part
pointer_to len none = broken
pointer_to len (some b) = pointer (len % 64 * 256 + b)

abbrev pub label_of : Option Text → Part
label_of none = broken
label_of (some s) = label s

-- A byte from 0xC0 on has both top bits set.
abbrev pub part_of : Bytes → ℕ → Option ℕ → Part
part_of buf cur none = broken
part_of buf cur (some len) =
    if len == 0
    then root
    else if leb 0xC0 len
    then pointer_to len (get_elem? buf (cur + 1))
    else if ltb (length buf) (cur + 1 + len)
    then broken
    else label_of (from_utf8 (take len (drop (cur + 1) buf)))

abbrev pub push_label : Text → Option (List Text × ℕ) → Option (List Text × ℕ)
push_label l none = none
push_label l (some (ls, offset)) = some (l ∷ ls, offset)

module _ (to_lowercase : Text → Text) where
  -- The loop of `parse_name`: `steps` rounds are left before `steps > 50` ends it, and `jumped` is
  -- the offset that the first pointer set. The labels, and the offset behind the name.
  unfoldable pub parse_from : ℕ → Bytes → ℕ → Option ℕ → Option (List Text × ℕ)
  parse_from zero buf cur jumped = none
  parse_from (suc steps) buf cur jumped = elim (part_of buf cur (get_elem? buf cur)) [
    | root ↦ some ([], unwrap_or jumped (cur + 1))
    | broken ↦ none
    | pointer ptr ↦ parse_from steps buf ptr (some (unwrap_or jumped (cur + 2)))
    | label l ↦ push_label (to_lowercase l) (parse_from steps buf (cur + 1 + length l) jumped)
  ]

  abbrev pub join_labels : Option (List Text × ℕ) → Option (Text × ℕ)
  join_labels none = none
  join_labels (some (ls, offset)) = some (join b'.' ls, offset)

  -- `parse_name`: the name, and the new offset.
  unfoldable pub parse_name : Bytes → ℕ → Option (Text × ℕ)
  unfolding parse_from
  parse_name buf offset = join_labels (parse_from 51 buf offset none)

-- One round of `encode_name`. The length is cast to u8.
abbrev pub encode_label : Text → Bytes
encode_label [] = []
encode_label (c ∷ s) = (length (c ∷ s) % 256) ∷ c ∷ s

unfoldable pub encode_labels : List Text → Bytes
encode_labels [] = 0 ∷ []
encode_labels (l ∷ ls) = encode_label l ++ encode_labels ls

-- `encode_name`.
unfoldable pub encode_name : Text → Bytes
unfolding encode_labels
encode_name name = encode_labels (split b'.' name)

-- `to_be_bytes` of a u16 and of a u32.
abbrev pub be16 : ℕ → Bytes
be16 n = (n / 256 % 256) ∷ (n % 256) ∷ []

abbrev pub be32 : ℕ → Bytes
be32 n = be16 (n / 65536) ++ be16 n

abbrev pub ttl : ℕ
ttl = 30

-- `0x8000 | if rd { 0x0180 } else { 0x0100 } | (rcode & 0xF)`, whose bits do not overlap.
abbrev pub response_flags : Bool → ℕ → ℕ
response_flags rd rcode = 0x8000 + (if rd then 0x0180 else 0x0100) + rcode % 16

unfoldable pub concat : List Bytes → Bytes
concat [] = []
concat (a ∷ answers) = a ++ concat answers

-- `make_response`.
unfoldable pub make_response : ℕ → Bool → Bytes → List Bytes → ℕ → Bytes
unfolding concat
make_response id rd question_bytes answers rcode =
    be16 id
    ++ (be16 (response_flags rd rcode)
        ++ (be16 1
            ++ (be16 (length answers)
                ++ (be16 0 ++ (be16 0 ++ (question_bytes ++ concat answers))))))

-- `a_record`.
unfoldable pub a_record : Text → Bytes → Bytes
unfolding encode_name
a_record name ip = encode_name name ++ (be16 1 ++ (be16 1 ++ (be32 ttl ++ (be16 4 ++ ip))))

-- `cname_record`.
unfoldable pub cname_record : Text → Text → Bytes
unfolding encode_name
cname_record name target =
    let encoded_target = encode_name target in
    encode_name name
    ++ (be16 5 ++ (be16 1 ++ (be32 ttl ++ (be16 (length encoded_target) ++ encoded_target))))
