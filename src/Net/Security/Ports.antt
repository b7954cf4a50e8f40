-- ===== src/Net/Security/Ports.antt =====
-- `apply_nsg` of src/netmux/mod.rs: what it does not read of a rule.
use z8s.Base.{◌≡◌, refl, sym, ap, ◌∙◌, inl, inr, List, [], ◌∷◌, map, leb, Bool-cases}
use z8s.Net.Nft.{Kernel, Nft, ◌>>◌, add_forward_deny, reset_nsg_rules}
use z8s.Resource.{Nsg, NsgRule}
use z8s.Net.Security.{place, sort_by_priority, any_network, add_nsg_rule, add_nsg_rules, apply_nsg}

-- The rule for every port and protocol, and the group for every virtual network.
abbrev pub any_port : NsgRule → NsgRule
any_port r = record r { ports = []; protocol = [] }

abbrev pub any_ports : Nsg → Nsg
any_ports nsg = record nsg {
  spec = record { target_vnets = []; rules = map any_port nsg.spec.rules };
}

place-any_port :
    (r : NsgRule) (rules : List NsgRule)
    → place (any_port r) (map any_port rules) ≡ map any_port (place r rules)
place-any_port r [] = refl
place-any_port r (s ∷ rules) = elim (Bool-cases (leb r.priority s.priority)) [
  | inl first ↦ rw first refl
  | inr later ↦ rw later (ap (λ (rs : List NsgRule). any_port s ∷ rs) (place-any_port r rules))
]

sort-any_port :
    (rules : List NsgRule)
    → sort_by_priority (map any_port rules) ≡ map any_port (sort_by_priority rules)
unfolding sort_by_priority
sort-any_port [] = refl
sort-any_port (r ∷ rules) =
    ap (place (any_port r)) (sort-any_port rules) ∙ place-any_port r (sort_by_priority rules)

module _ (k : Kernel) where
  add-any_port :
      (rules : List NsgRule) → add_nsg_rules k (map any_port rules) ≡ add_nsg_rules k rules
  unfolding add_nsg_rules add_nsg_rule
  add-any_port [] = refl
  add-any_port (r ∷ rules) = ap (λ (n : Nft). add_nsg_rule k r >> n) (add-any_port rules)

  -- The ports, the protocols and the virtual networks make no difference.
  pub apply_nsg-any_ports : (nsg : Nsg) → apply_nsg k nsg ≡ apply_nsg k (any_ports nsg)
  unfolding apply_nsg
  apply_nsg-any_ports nsg =
      ap (λ (n : Nft). reset_nsg_rules k >> n >> add_forward_deny k any_network any_network)
        (sym (
          ap (add_nsg_rules k) (sort-any_port nsg.spec.rules)
          ∙ add-any_port (sort_by_priority nsg.spec.rules)))
