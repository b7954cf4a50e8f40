-- ===== src/Net/Dns/Offsets.antt =====
-- src/netmux/dns.rs: where `parse_name` leaves the offset.
use z8s.Base.{
  ℕ, zero, suc, ◌+◌, ◌<◌, ◌≡◌, refl, ap, Option, none, some, List, arith, unwrap_or, length,
  get_elem?,
}
use z8s.Base.Text.{Text}
use z8s.Net.Dns.{
  Part, root, broken, pointer, label, part_of, push_label, parse_from, parse_name, join_labels,
  Bytes,
}

-- The offset behind a name is that of the first pointer, or lies behind the name's start.
abbrev Behind : ℕ → Option ℕ → ℕ → Type 0
Behind cur none offset = cur < offset
Behind cur (some x) offset = offset ≡ x

Behind-root : (cur : ℕ) (jumped : Option ℕ) → Behind cur jumped (unwrap_or jumped (cur + 1))
Behind-root cur none = omega arith
Behind-root cur (some x) = refl

Behind-pointer :
    (cur offset : ℕ) (jumped : Option ℕ)
    → offset ≡ unwrap_or jumped (cur + 2)
    → Behind cur jumped offset
Behind-pointer cur offset none e = omega (arith, e)
Behind-pointer cur offset (some x) e = e

Behind-label :
    (cur n offset : ℕ) (jumped : Option ℕ)
    → Behind (cur + 1 + n) jumped offset
    → Behind cur jumped offset
Behind-label cur n offset none h = omega (arith, h)
Behind-label cur n offset (some x) h = h

module _ (to_lowercase : Text → Text) where
  -- Whatever is read behind the labels, the offset is.
  abbrev Ends : ℕ → Option ℕ → Option (List Text × ℕ) → Type 0
  Ends cur jumped none = Unit {0}
  Ends cur jumped (some (ls, offset)) = Behind cur jumped offset

  pushed-Ends :
      (l : Text) (cur n : ℕ) (jumped : Option ℕ) (r : Option (List Text × ℕ))
      → Ends (cur + 1 + n) jumped r
      → Ends cur jumped (push_label l r)
  pushed-Ends l cur n jumped none h = tt
  pushed-Ends l cur n jumped (some (ls, offset)) h = Behind-label cur n offset jumped h

  pointer-Ends :
      (cur t : ℕ) (jumped : Option ℕ) (r : Option (List Text × ℕ))
      → Ends t (some (unwrap_or jumped (cur + 2))) r
      → Ends cur jumped r
  pointer-Ends cur t jumped none h = tt
  pointer-Ends cur t jumped (some (ls, offset)) h = Behind-pointer cur offset jumped h

  round-Ends :
      (steps : ℕ) (buf : Bytes) (cur : ℕ) (jumped : Option ℕ) (part : Part)
      → ((next : ℕ) (j : Option ℕ) → Ends next j (parse_from to_lowercase steps buf next j))
      → part_of buf cur (get_elem? buf cur) ≡ part
      → Ends cur jumped (parse_from to_lowercase (suc steps) buf cur jumped)
  unfolding parse_from
  round-Ends steps buf cur jumped root more e = rw (parse_from, e) (Behind-root cur jumped)
  round-Ends steps buf cur jumped broken more e = rw (parse_from, e) tt
  round-Ends steps buf cur jumped (pointer t) more e =
      rw (parse_from, e) (pointer-Ends cur t jumped _ (more t (some (unwrap_or jumped (cur + 2)))))
  round-Ends steps buf cur jumped (label l) more e =
      rw (parse_from, e)
        (pushed-Ends (to_lowercase l) cur (length l) jumped _ (more (cur + 1 + length l) jumped))

  parse_from-Ends :
      (steps : ℕ) (buf : Bytes) (cur : ℕ) (jumped : Option ℕ)
      → Ends cur jumped (parse_from to_lowercase steps buf cur jumped)
  unfolding parse_from
  parse_from-Ends zero buf cur jumped = tt
  parse_from-Ends (suc steps) buf cur jumped =
      round-Ends steps buf cur jumped (part_of buf cur (get_elem? buf cur))
        (λ next j. parse_from-Ends steps buf next j) refl

  joined_offset :
      (r : Option (List Text × ℕ)) (cur : ℕ) (name : Text) (offset : ℕ)
      → Ends cur none r
      → join_labels to_lowercase r ≡ some (name, offset)
      → cur < offset
  joined_offset none cur name offset h e = absurd (ground (arith, e))
  joined_offset (some (ls, o)) cur name offset h e =
      let same : o ≡ offset = ap (λ (r : Option (Text × ℕ)). offset_of r) e in
      omega (arith, h, same)
    where
      offset_of : Option (Text × ℕ) → ℕ
      offset_of none = 0
      offset_of (some (n, o)) = o

  -- The offset behind a name is behind its start.
  pub parse_name_behind :
      (buf : Bytes) (cur : ℕ) (name : Text) (offset : ℕ)
      → parse_name to_lowercase buf cur ≡ some (name, offset)
      → cur < offset
  unfolding parse_name
  parse_name_behind buf cur name offset e =
      joined_offset (parse_from to_lowercase 51 buf cur none) cur name offset
        (parse_from-Ends 51 buf cur none) e
