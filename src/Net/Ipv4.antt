-- ===== src/Net/Ipv4.antt =====
-- An IPv4 address as its u32 value (the standard library's `Ipv4Addr`), and `Ipv4Cidr` of
-- src/netmux/pool.rs.
pub mod Parsing
mod Runs
use z8s.Base.{
  ℕ, ◌+◌, ◌-◌, ◌*◌, ◌/◌, ◌^◌, Bool, ◌||◌, Option, none, some, List, [], ◌∷◌, ltb, ◌==◌,
  if◌then◌else◌, length,
}
use z8s.Base.Text.{Text}
use z8s.Base.Text.Split.{split, split_once}
use z8s.Base.Numbers.{digits, parse_uint}
use z8s.Base.Checked.{Checked, ok, overflow, ◌>>=◌, sub32, shl1}

-- `Ipv4Addr::from([a, b, c, d])` as a u32.
abbrev pub from_octets : ℕ → ℕ → ℕ → ℕ → ℕ
from_octets a b c d = ((a * 256 + b) * 256 + c) * 256 + d

-- A decimal octet: one to three digits, and no zero in front of another digit.
unfoldable pub octet : Text → Option ℕ
unfolding digits
octet [] = none
octet (c ∷ []) = digits 255 0 (c ∷ [])
octet (c ∷ d ∷ s) = if c == b'0' || ltb 1 (length s) then none else digits 255 0 (c ∷ d ∷ s)

abbrev pub four_octets : Option ℕ → Option ℕ → Option ℕ → Option ℕ → Option ℕ
four_octets (some a) (some b) (some c) (some d) = some (from_octets a b c d)
four_octets _ _ _ _ = none

abbrev pub dotted_quad : List Text → Option ℕ
dotted_quad (a ∷ b ∷ c ∷ d ∷ []) = four_octets (octet a) (octet b) (octet c) (octet d)
dotted_quad _ = none

-- `s.parse::<Ipv4Addr>()`.
unfoldable pub parse_addr : Text → Option ℕ
unfolding octet split
parse_addr s = dotted_quad (split b'.' s)

pub record Ipv4Cidr : Type 0 where
  pub network : ℕ
  pub prefix : ℕ

-- `ip & (!0u32 << s)`: a shift by 32 panics.
unfoldable pub mask_off : ℕ → ℕ → Checked ℕ
mask_off ip s = if ltb s 32 then ok (ip / 2 ^ s * 2 ^ s) else overflow

abbrev pub network_of : Text → ℕ → Checked (Option Ipv4Cidr)
network_of ip_str prefix = elim (parse_addr ip_str) [
  | none ↦ ok none
  | some ip ↦ mask_off ip (32 - prefix) >>= λ n. ok (some (record { network = n; prefix = prefix }))
]

abbrev pub with_prefix : Text → Option ℕ → Checked (Option Ipv4Cidr)
with_prefix ip_str none = ok none
with_prefix ip_str (some prefix) = if ltb 32 prefix then ok none else network_of ip_str prefix

abbrev pub parse_parts : Option (Text × Text) → Checked (Option Ipv4Cidr)
parse_parts none = ok none
parse_parts (some (ip_str, prefix_str)) = with_prefix ip_str (parse_uint 255 prefix_str)

-- `Ipv4Cidr::parse`.
unfoldable pub parse : Text → Checked (Option Ipv4Cidr)
unfolding parse_addr parse_uint split_once
parse s = parse_parts (split_once b'/' s)

-- `Ipv4Cidr::host_count`.
unfoldable pub host_count : Ipv4Cidr → Checked ℕ
host_count c = do bits ← sub32 32 c.prefix; n ← shl1 bits; sub32 n 2

-- `Ipv4Cidr::contains`. The prefix is a u8, and `32 - prefix` panics beyond 32.
unfoldable pub contains : Ipv4Cidr → ℕ → Checked Bool
contains c ip = do s ← sub32 32 c.prefix; a ← mask_off ip s; b ← mask_off c.network s; ok (a == b)
