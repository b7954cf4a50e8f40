-- ===== src/Net/Dns/Endless.antt =====
-- src/netmux/dns.rs: `parse_name` on a name that has no end.
use z8s.Base.{ℕ, zero, suc, ◌+◌, ◌≡◌, refl, ap, Option, none, some, unwrap_or, length, get_elem?}
use z8s.Base.Text.{Text}
use z8s.Net.Dns.{
  Bytes, Part, root, broken, pointer, label, part_of, push_label, parse_from, parse_name,
  join_labels,
}

-- What stands at a position leads into `P` or breaks the name, and does not end it.
abbrev pub Leads : Bytes → (ℕ → Type 0) → ℕ → Part → Type 0
Leads buf P cur root = ⊥
Leads buf P cur broken = Unit {0}
Leads buf P cur (pointer t) = P t
Leads buf P cur (label l) = P (cur + 1 + length l)

module _ (to_lowercase : Text → Text) where
  -- One round, where the rest of the name has no end.
  round_on :
      (buf : Bytes) (P : ℕ → Type 0) (steps cur : ℕ) (jumped : Option ℕ) (part : Part)
      → ((next : ℕ) (j : Option ℕ) → P next → parse_from to_lowercase steps buf next j ≡ none)
      → part_of buf cur (get_elem? buf cur) ≡ part
      → Leads buf P cur part
      → parse_from to_lowercase (suc steps) buf cur jumped ≡ none
  unfolding parse_from
  round_on buf P steps cur jumped root more e leads = absurd leads
  round_on buf P steps cur jumped broken more e leads = rw (parse_from, e) refl
  round_on buf P steps cur jumped (pointer t) more e leads =
      rw (parse_from, e) (more t (some (unwrap_or jumped (cur + 2))) leads)
  round_on buf P steps cur jumped (label l) more e leads =
      rw (parse_from, e) (ap (push_label (to_lowercase l)) (more (cur + 1 + length l) jumped leads))

  rounds_on :
      (buf : Bytes) (P : ℕ → Type 0)
      → ((cur : ℕ) → P cur → Leads buf P cur (part_of buf cur (get_elem? buf cur)))
      → (steps cur : ℕ) (jumped : Option ℕ) → P cur
      → parse_from to_lowercase steps buf cur jumped ≡ none
  unfolding parse_from
  rounds_on buf P leads zero cur jumped at = refl
  rounds_on buf P leads (suc steps) cur jumped at =
      round_on buf P steps cur jumped (part_of buf cur (get_elem? buf cur))
        (rounds_on buf P leads steps) refl (leads cur at)

  -- A name is refused if from a set of positions that holds its own every label and every pointer
  -- leads into the set again, as where pointers form a circle: none of them is the name's end.
  pub parse_name_endless :
      (buf : Bytes) (P : ℕ → Type 0)
      → ((cur : ℕ) → P cur → Leads buf P cur (part_of buf cur (get_elem? buf cur)))
      → (offset : ℕ) → P offset
      → parse_name to_lowercase buf offset ≡ none
  unfolding parse_name
  parse_name_endless buf P leads offset at =
      ap (join_labels to_lowercase) (rounds_on buf P leads 51 offset none at)
