-- ===== src/Net/Security.antt =====
-- `apply_nsg` and `apply_vnet` of src/netmux/mod.rs, and the components that call them. The standard
-- library's `sort_by_key` is an insertion sort, which keeps the order of equal keys as it does.
pub mod Verdicts
pub mod Order
pub mod Ports
pub mod Sending
pub mod Whitelist
pub mod Malformed
mod Runs
use z8s.Base.{
  ℕ, zero, suc, ◌+◌, ◌-◌, ◌*◌, ◌/◌, ◌%◌, ◌^◌, ◌≤◌, ◌<◌, min, max, ◌≡◌, refl, sym, ap, ◌∙◌, ◌≢◌, ◌↔◌,
  ◌⊎◌, inl, inr, Bool, true, false, not, ◌&&◌, ◌||◌, Option, none, some, List, [], ◌∷◌, ◌++◌, map,
  arith, dec_lt, ltb, leb, ◌==◌, if◌then◌else◌, Bool-cases, Option-cases, unwrap_or, is_some,
  length, get_elem?, take, drop, length-append, any, all, All, All-append,
}
use z8s.Base.Text.{Text, codes, text_eq}
use z8s.Net.Nft.{
  Kernel, Nft, NftEngine, ◌>>◌, return_ok, then_run, reset_nsg_rules, add_forward_allow,
  add_forward_deny, add_snat,
}
use z8s.Resource.{Nsg, NsgRule, VNet}

abbrev pub place : NsgRule → List NsgRule → List NsgRule
place r [] = r ∷ []
place r (s ∷ rules) = if leb r.priority s.priority then r ∷ s ∷ rules else s ∷ place r rules

-- `sorted.sort_by_key(|r| r.priority)`.
unfoldable pub sort_by_priority : List NsgRule → List NsgRule
sort_by_priority [] = []
sort_by_priority (r ∷ rules) = place r (sort_by_priority rules)

abbrev pub any_network : Text
any_network = codes "0.0.0.0/0"

abbrev pub each_dst : (Text → Text → Nft) → Text → List Text → Nft
each_dst add src [] = return_ok
each_dst add src (dst ∷ dsts) = add src dst >> each_dst add src dsts

abbrev pub each_pair : (Text → Text → Nft) → List Text → List Text → Nft
each_pair add [] dsts = return_ok
each_pair add (src ∷ srcs) dsts = each_dst add src dsts >> each_pair add srcs dsts

module _ (k : Kernel) where
  -- One rule; an unknown action is only logged.
  unfoldable pub add_nsg_rule : NsgRule → Nft
  add_nsg_rule r e =
      if text_eq r.action (codes "deny")
      then each_pair (add_forward_deny k) r.src_cidrs r.dst_cidrs e
      else if text_eq r.action (codes "allow")
      then each_pair (add_forward_allow k) r.src_cidrs r.dst_cidrs e
      else (e, true)

  unfoldable pub add_nsg_rules : List NsgRule → Nft
  unfolding add_nsg_rule
  add_nsg_rules [] = return_ok
  add_nsg_rules (r ∷ rules) = add_nsg_rule r >> add_nsg_rules rules

  -- `apply_nsg`.
  unfoldable pub apply_nsg : Nsg → Nft
  unfolding sort_by_priority add_nsg_rules
  apply_nsg nsg =
      reset_nsg_rules k
      >> add_nsg_rules (sort_by_priority nsg.spec.rules)
      >> add_forward_deny k any_network any_network

  -- `apply_vnet`.
  unfoldable pub apply_vnet : VNet → Text → Nft
  apply_vnet vnet cidr e =
      if vnet.spec.internet_access then (e, true) else add_forward_deny k cidr any_network e

  abbrev snat_if : Bool → Text → Nft
  snat_if b cidr e = if b then add_snat k cidr e else (e, true)

  -- `on_apply` of src/components/network/vnet.rs.
  unfoldable pub on_apply : VNet → Nft
  unfolding apply_vnet
  on_apply vnet =
      let cidr = unwrap_or vnet.spec.cidr (codes "10.42.0.0/20") in
      apply_vnet vnet cidr >> snat_if vnet.spec.internet_access cidr
