-- ===== src/Net/Ipv4/Parsing.antt =====
-- `Ipv4Cidr::parse` and `Ipv4Cidr::contains` of src/netmux/pool.rs.
use z8s.Base.Powers.{block_fits, two_pow_pos}
use z8s.Base.{
  ℕ, zero, suc, ◌+◌, ◌-◌, ◌*◌, ◌/◌, ◌%◌, ◌^◌, ◌≤◌, ◌<◌, ◌≡◌, refl, ap, inl, inr, Option, none, some,
  List, [], ◌∷◌, ◌++◌, arith, dec_lt, ◌==◌, Option-cases,
}
use native.Mathlib.Nat.{div-add-mod', mod-lt, mul-mod_left, le-div_iff_mul-le, div-lt_iff_lt-mul}
use z8s.Base.Numbers.{parse_uint, digits-le}
use z8s.Base.Set.Ranges.{in_range}
use z8s.Base.Checked.{u32_size, sub32_ok}
use z8s.Base.Text.{Text, codes}
use z8s.Base.Text.Split.{Lacks, split_once, split_once-append, split}
use z8s.Net.Ipv4.{
  Ipv4Cidr, octet, parse_addr, parse, contains, mask_off, with_prefix, network_of, parse_parts,
  dotted_quad, ok, overflow, four_octets,
}

octet-le : (s : Text) (n : ℕ) → octet s ≡ some n → n ≤ 255
unfolding octet
octet-le [] n e = absurd (ground arith)
octet-le (c ∷ []) n e = digits-le 255 0 (c ∷ []) n (omega arith) e
octet-le (c ∷ d ∷ s) n e = ground (arith, digits-le 255 0 (c ∷ d ∷ s) n)

four_octets-lt :
    (a b c d : Option ℕ) (n : ℕ)
    → ((x : ℕ) → a ≡ some x → x ≤ 255)
    → ((x : ℕ) → b ≡ some x → x ≤ 255)
    → ((x : ℕ) → c ≡ some x → x ≤ 255)
    → ((x : ℕ) → d ≡ some x → x ≤ 255)
    → four_octets a b c d ≡ some n
    → n < u32_size
four_octets-lt (some a) (some b) (some c) (some d) n ha hb hc hd e =
    ground (arith, ha a refl, hb b refl, hc c refl, hd d refl)
four_octets-lt _ _ _ _ n ha hb hc hd e = absurd (ground arith)

dotted_quad-lt : (parts : List Text) (n : ℕ) → dotted_quad parts ≡ some n → n < u32_size
dotted_quad-lt (a ∷ b ∷ c ∷ d ∷ []) n e =
    four_octets-lt (octet a) (octet b) (octet c) (octet d) n (octet-le a) (octet-le b) (octet-le c)
      (octet-le d) e
dotted_quad-lt _ n e = absurd (ground arith)

parse_addr-lt : (s : Text) (n : ℕ) → parse_addr s ≡ some n → n < u32_size
unfolding parse_addr
parse_addr-lt s n e = dotted_quad-lt (split b'.' s) n e

-- The block of the CIDR has at least one bit of prefix, and ends within the u32 range.
pub record Fits (c : Ipv4Cidr) : Type 0 where
  pub prefix_pos : 1 ≤ c.prefix
  pub prefix_le : c.prefix ≤ 32
  pub within : c.network + 2 ^ (32 - c.prefix) ≤ u32_size

abbrev pub bits : Ipv4Cidr → ℕ
bits c = 32 - c.prefix

-- The network address has no bit of the host part.
abbrev pub IsMasked : Ipv4Cidr → Type 0
IsMasked c = c.network % 2 ^ bits c ≡ 0

mask_off_ok : (ip s : ℕ) → s < 32 → mask_off ip s ≡ ok (ip / 2 ^ s * 2 ^ s)
unfolding mask_off
mask_off_ok ip s h = ground arith

mask_off_panics : (ip : ℕ) → mask_off ip 32 ≡ overflow
unfolding mask_off
mask_off_panics ip = refl

masked : (ip s : ℕ) → ip / 2 ^ s * 2 ^ s % 2 ^ s ≡ 0
masked ip s = mul-mod_left (ip / 2 ^ s) (2 ^ s)

network_of-Fits :
    (ip_str : Text) (prefix : ℕ) (c : Ipv4Cidr)
    → prefix ≤ 32
    → network_of ip_str prefix ≡ ok (some c)
    → Fits c × IsMasked c
network_of-Fits ip_str zero c h e = elim (Option-cases (parse_addr ip_str)) [
  | inl bad ↦ absurd (ground (arith, bad))
  | inr (ip, good) ↦ absurd (ground (arith, good, mask_off_panics ip))
]
network_of-Fits ip_str (suc k) c h e = elim (Option-cases (parse_addr ip_str)) [
  | inl bad ↦ absurd (ground (arith, bad))
  | inr (ip, good) ↦
      let lt : ip < 2 ^ 32 = parse_addr-lt ip_str ip good in
      ground (
        arith,
        good,
        mask_off_ok ip (32 - suc k) (omega arith),
        masked ip (32 - suc k),
        block_fits (32 - suc k) (suc k) 32 ip (omega arith) lt,
      )
]

with_prefix-Fits :
    (ip_str : Text) (prefix : Option ℕ) (c : Ipv4Cidr)
    → with_prefix ip_str prefix ≡ ok (some c)
    → Fits c × IsMasked c
with_prefix-Fits ip_str none c e = absurd (ground arith)
with_prefix-Fits ip_str (some prefix) c e = elim (dec_lt 32 prefix) [
  | yes h ↦ absurd (ground arith)
  | no h ↦ network_of-Fits ip_str prefix c (omega arith) (ground arith)
]

parse_parts-Fits :
    (parts : Option (Text × Text)) (c : Ipv4Cidr)
    → parse_parts parts ≡ ok (some c)
    → Fits c × IsMasked c
parse_parts-Fits none c e = absurd (ground arith)
parse_parts-Fits (some (ip_str, prefix_str)) c e =
    with_prefix-Fits ip_str (parse_uint 255 prefix_str) c e

-- A CIDR that `parse` returns has a prefix from 1 to 32, a network address with no host bit, and a
-- block that ends within the address space.
pub parse-Fits : (s : Text) (c : Ipv4Cidr) → parse s ≡ ok (some c) → Fits c × IsMasked c
unfolding parse
parse-Fits s c e = parse_parts-Fits (split_once b'/' s) c e

-- `parse` panics on every well-formed address with the prefix 0.
pub parse_zero_prefix :
    (ip_str : Text) (ip : ℕ)
    → Lacks b'/' ip_str
    → parse_addr ip_str ≡ some ip
    → parse (ip_str ++ codes "/0") ≡ overflow
unfolding parse
parse_zero_prefix ip_str ip h e =
    rw (split_once-append b'/' ip_str (codes "0") h)
      (unfold parse_uint in ground (arith, e, mask_off_panics ip))

-- The quotient of a number in the block is the block's.
block_quotient :
    (size net ip : ℕ)
    → 0 < size
    → net / size * size ≤ ip
    → ip < net / size * size + size
    → ip / size ≡ net / size
block_quotient size net ip pos lo hi = omega (
  arith,
  (le-div_iff_mul-le {x = net / size} {y = ip} pos).1 lo,
  (div-lt_iff_lt-mul {x = ip} {y = net / size + 1} pos).1 (omega arith),
)

same_block :
    (size net ip : ℕ)
    → 0 < size
    → net % size ≡ 0
    → (ip / size * size == net / size * size) ≡ in_range size net ip
same_block size net ip pos m =
    let whole : net / size * size ≡ net = omega (arith, div-add-mod' net size) in
    ground (
      arith,
      whole,
      div-add-mod' ip size,
      mod-lt ip pos,
      block_quotient size net ip pos,
      λ (e : ip / size ≡ net / size). ap (λ (t : ℕ). t * size) e,
    )

-- On a CIDR that fits and is masked, `contains` holds exactly of the addresses of its block.
pub contains-in_range :
    (c : Ipv4Cidr) (ip : ℕ)
    → Fits c
    → IsMasked c
    → contains c ip ≡ ok (in_range (2 ^ bits c) c.network ip)
unfolding contains
contains-in_range c ip f m =
    rw
      (
        sub32_ok 32 c.prefix f.prefix_le,
        mask_off_ok ip (bits c) (omega (arith, f.prefix_pos)),
        mask_off_ok c.network (bits c) (omega (arith, f.prefix_pos)),
      )
      (ap ok (same_block (2 ^ bits c) c.network ip (two_pow_pos (bits c)) m))
