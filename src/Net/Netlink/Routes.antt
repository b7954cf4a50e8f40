-- ===== src/Net/Netlink/Routes.antt =====
-- src/netmux/netlink.rs: a route that is added and deleted.
use z8s.Base.{
  ℕ, ◌≡◌, refl, ◌↔◌, Bool, true, false, Option, none, some, List, [], ◌∷◌, ◌++◌, arith, ltb,
  if◌then◌else◌, is_some, get_elem?, drop,
}
use z8s.Net.Netlink.{
  Bytes, ne32, nlattr, octets, gateway_attr, oif_attr, route_scope, add_route_msg, del_route_msg,
}
use z8s.Net.Netlink.Attributes.{walk}

abbrev pub gateway_field : Option ℕ → List (ℕ × Bytes)
gateway_field none = []
gateway_field (some gw) = (5, octets gw) ∷ []

abbrev pub oif_field : Option ℕ → List (ℕ × Bytes)
oif_field none = []
oif_field (some idx) = (4, ne32 idx) ∷ []

abbrev pub dst_field : Bool → ℕ → List (ℕ × Bytes)
dst_field false dest = []
dst_field true dest = (1, octets dest) ∷ []

-- The attributes of a route: the destination of a prefix that is not empty, the gateway and the
-- interface.
abbrev pub route_fields : ℕ → ℕ → Option ℕ → Option ℕ → List (ℕ × Bytes)
route_fields dest prefix gateway oif =
    dst_field (ltb 0 prefix) dest ++ (gateway_field gateway ++ oif_field oif)

read_fields :
    (b : Bool) (dest : ℕ) (gateway oif : Option ℕ)
    → walk 3 ((if b then nlattr 1 (octets dest) else []) ++ (gateway_attr gateway ++ oif_attr oif))
      ≡ some (dst_field b dest ++ (gateway_field gateway ++ oif_field oif))
unfolding walk nlattr
read_fields true dest none none = refl
read_fields true dest none (some i) = refl
read_fields true dest (some g) none = refl
read_fields true dest (some g) (some i) = refl
read_fields false dest none none = refl
read_fields false dest none (some i) = refl
read_fields false dest (some g) none = refl
read_fields false dest (some g) (some i) = refl

-- Adding and deleting a route name the same destination, prefix length, gateway and interface. But the
-- deletion names the scope `universe` always, and the addition does so only with a gateway: without
-- one, as for every route to a pod, the scopes differ.
pub del_route_lem :
    (dest prefix : ℕ) (gateway oif : Option ℕ)
    → let add = add_route_msg dest prefix gateway oif in
      let del = del_route_msg dest prefix gateway oif in
      (walk 3 (drop 28 add) ≡ some (route_fields dest prefix gateway oif))
      × (walk 3 (drop 28 del) ≡ some (route_fields dest prefix gateway oif))
      × (get_elem? add 17 ≡ some prefix)
      × (get_elem? del 17 ≡ some prefix)
      × (get_elem? add 22 ≡ some (route_scope gateway))
      × (get_elem? del 22 ≡ some 0)
      × ((get_elem? add 22 ≡ get_elem? del 22) ↔ (is_some gateway ≡ true))
unfolding add_route_msg del_route_msg
del_route_lem dest prefix gateway oif = (
  read_fields (ltb 0 prefix) dest gateway oif,
  read_fields (ltb 0 prefix) dest gateway oif,
  refl,
  refl,
  refl,
  refl,
  scopes gateway,
)
  where
    scopes : (gw : Option ℕ) → (some (route_scope gw) ≡ some 0) ↔ (is_some gw ≡ true)
    scopes none = (λ e. absurd (ground arith), λ e. absurd (ground arith))
    scopes (some gw) = (λ e. refl, λ e. refl)
