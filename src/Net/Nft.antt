-- ===== src/Net/Nft.antt =====
-- src/netmux/nftables.rs: `NftEngine`. What the kernel answers to a batch, and how a third-party
-- parser reads a network, are arguments. The batches sent are kept in their order.
use z8s.Base.{
  ℕ, zero, suc, ◌+◌, ◌-◌, ◌*◌, ◌/◌, ◌%◌, ◌^◌, ◌≤◌, ◌<◌, min, max, ◌≡◌, refl, sym, ap, ◌∙◌, ◌≢◌, ◌↔◌,
  ◌⊎◌, inl, inr, Bool, true, false, not, ◌&&◌, ◌||◌, Option, none, some, List, [], ◌∷◌, ◌++◌, map,
  arith, dec_lt, ltb, leb, ◌==◌, if◌then◌else◌, Bool-cases, Option-cases, unwrap_or, is_some,
  length, get_elem?, take, length-append, any, all, All, All-append,
}
use z8s.Base.Text.{Text, codes}
use z8s.Base.Int.{ℤ, pos, negsuc}
pub mod Names
pub mod Sent
pub mod Jumps
pub mod Resync
pub mod Growth
mod Runs

-- Hexadecimal digits, `{:x}` in lower case.
abbrev pub hex_digit : ℕ → ℕ
hex_digit d = if ltb d 10 then b'0' + d else b'a' + (d - 10)

-- `{:0wx}` of a number of at most `w` digits.
unfoldable pub hex : ℕ → ℕ → Text
hex zero n = []
hex (suc w) n = hex w (n / 16) ++ (hex_digit (n % 16) ∷ [])

-- `chain_name`.
unfoldable pub chain_name : ℕ → ℕ → Text
chain_name ip port = codes "svc-" ++ (hex 8 ip ++ (b'-' ∷ hex 4 port))

-- `format!("np-{:04x}", node_port)`.
unfoldable pub nodeport_chain : ℕ → Text
nodeport_chain node_port = codes "np-" ++ hex 4 node_port

-- The expressions of a rule, as the builder adds them.
pub data Expr : Type 0 where
  meta_nf_proto daddr tcp_dport : Expr
  cmp_eq : List ℕ → Expr
  immediate : List ℕ → ℕ → Expr
  dnat established accept drop masquerade : Expr
  jump : Text → Expr
  snetwork dnetwork : ℕ × ℕ → Expr
  lookup : Text → Expr

pub data ChainType : Type 0 where
  nat_type filter_type : ChainType

pub data HookClass : Type 0 where
  pre_routing post_routing out forward_class in_class : HookClass

-- A message names its table, and a chain, rule or set message what it is about in it.
pub data Message : Type 0 where
  del_table add_table : Text → Message
  add_chain del_chain : Text → Text → Message
  add_base_chain : Text → Text → ChainType → HookClass → ℤ → Message
  add_rule : Text → Text → List Expr → Message
  add_set : Text → Text → Message
  add_elements : Text → Text → List ℕ → Message

abbrev pub Batch : Type 0
Batch = List Message

abbrev pub nat_table : Text
nat_table = codes "z8s_nat"

abbrev pub filter_table : Text
filter_table = codes "z8s_filter"

abbrev hook_prio_nat : ℤ
hook_prio_nat = negsuc 99

abbrev hook_prio_filter : ℤ
hook_prio_filter = pos 0

pub record NftEngine : Type 0 where
  pub jump_track : List (ℕ × ℕ)
  pub nodeport_jump_track : List ℕ
  pub sent : List Batch

-- A code is the absolute value of the kernel's error number.
pub data Answer : Type 0 where
  done : Answer
  netlink_error : ℕ → Answer
  other_error : Answer

pub record Kernel : Type 0 where
  pub answer : List Batch → Batch → Answer
  pub parse_network : Text → Option (ℕ × ℕ)

-- `NftEngine::new`.
abbrev pub new : NftEngine
new = record { jump_track = []; nodeport_jump_track = []; sent = [] }

-- An operation yields the new state, and whether its result is `Ok`.
abbrev pub Nft : Type 0
Nft = NftEngine → NftEngine × Bool

abbrev pub then_run : Nft → NftEngine × Bool → NftEngine × Bool
then_run n (e, true) = n e
then_run n (e, false) = (e, false)

infixl 5 ◌>>◌
abbrev pub ◌>>◌ : Nft → Nft → Nft
◌>>◌ m n e = then_run n (m e)

abbrev pub return_ok : Nft
return_ok e = (e, true)

abbrev refused : Nft
refused e = (e, false)

-- ENOENT, EBUSY and EEXIST are taken for success.
unfoldable pub is_ok : Answer → Bool
is_ok done = true
is_ok (netlink_error code) = code == 2 || (code == 16 || code == 17)
is_ok other_error = false

abbrev pub octets : ℕ → List ℕ
octets ip = (ip / 2 ^ 24 % 256) ∷ (ip / 2 ^ 16 % 256) ∷ (ip / 2 ^ 8 % 256) ∷ (ip % 256) ∷ []

abbrev pub be_bytes : ℕ → List ℕ
be_bytes port = (port / 256 % 256) ∷ (port % 256) ∷ []

-- What a rule compares, with the bytes that it must be.
abbrev pub Matches : Type 0
Matches = List (Expr × List ℕ)

abbrev pub match_exprs : Matches → List Expr
match_exprs [] = []
match_exprs ((payload, val) ∷ ms) = payload ∷ cmp_eq val ∷ match_exprs ms

-- `add_dnat_rule`.
abbrev pub dnat_rule : Text → Matches → ℕ → ℕ → Message
dnat_rule svc ms backend_ip backend_port = add_rule nat_table svc (
    meta_nf_proto
    ∷ cmp_eq (2 ∷ [])
    ∷ (match_exprs ms
        ++ (immediate (octets backend_ip) 1 ∷ immediate (be_bytes backend_port) 2 ∷ dnat ∷ [])))

abbrev pub jump_rule : Text → Text → Message
jump_rule svc h = add_rule nat_table h (jump svc ∷ [])

abbrev pub hooks : List Text
hooks = codes "prerouting" ∷ codes "output" ∷ []

abbrev pub service_matches : ℕ → ℕ → Matches
service_matches ip port = (daddr, octets ip) ∷ (tcp_dport, be_bytes port) ∷ []

abbrev pub nodeport_matches : ℕ → Matches
nodeport_matches node_port = (tcp_dport, be_bytes node_port) ∷ []

abbrev pub is_pair : ℕ → ℕ → ℕ × ℕ → Bool
is_pair ip port (i, p) = i == ip && p == port

unfoldable pub retain_pairs : ℕ → ℕ → List (ℕ × ℕ) → List (ℕ × ℕ)
retain_pairs ip port [] = []
retain_pairs ip port (t ∷ track) =
    let rest = retain_pairs ip port track in if is_pair ip port t then rest else t ∷ rest

unfoldable pub retain_ports : ℕ → List ℕ → List ℕ
retain_ports port [] = []
retain_ports port (t ∷ track) =
    let rest = retain_ports port track in if t == port then rest else t ∷ rest

abbrev pub nsg_rules : Text
nsg_rules = codes "nsg-rules"

abbrev forward : Text
forward = codes "forward"

module _ (k : Kernel) where
  -- `send`.
  unfoldable pub send : Batch → Nft
  unfolding is_ok
  send b e = (record e { sent = e.sent ++ (b ∷ []) }, is_ok (k.answer e.sent b))

  unfoldable pub add_backends : Text → Matches → List (ℕ × ℕ) → Nft
  add_backends svc ms [] = return_ok
  add_backends svc ms ((ip, port) ∷ backends) =
      send (dnat_rule svc ms ip port ∷ []) >> add_backends svc ms backends

  -- `update_dnat_chain`.
  unfoldable pub update_dnat_chain : Text → List (ℕ × ℕ) → Matches → Nft
  update_dnat_chain svc backends ms =
      send (add_chain nat_table svc ∷ []) >> add_backends svc ms backends

  -- `add_jump_rules`.
  unfoldable pub add_jump_rules : Text → List Text → Nft
  add_jump_rules svc [] = return_ok
  add_jump_rules svc (h ∷ hs) = send (jump_rule svc h ∷ []) >> add_jump_rules svc hs

  -- The end of `add_dnat`: the service is tracked before its jump rules are sent.
  unfoldable pub track_service : ℕ → ℕ → Nft
  track_service ip port e =
      if any (is_pair ip port) e.jump_track
      then (e, true)
      else add_jump_rules (chain_name ip port) hooks
          (record e { jump_track = e.jump_track ++ ((ip, port) ∷ []) })

  -- `add_dnat`.
  unfoldable pub add_dnat : ℕ → ℕ → List (ℕ × ℕ) → Nft
  add_dnat ip port backends =
      update_dnat_chain (chain_name ip port) backends (service_matches ip port)
      >> track_service ip port

  -- `remove_dnat`.
  unfoldable pub remove_dnat : ℕ → ℕ → Nft
  remove_dnat ip port =
      send (del_chain nat_table (chain_name ip port) ∷ [])
      >> (λ e. (record e { jump_track = retain_pairs ip port e.jump_track }, true))

  -- The end of `add_nodeport_dnat`.
  unfoldable pub track_nodeport : ℕ → Nft
  track_nodeport node_port e =
      if any (λ p. p == node_port) e.nodeport_jump_track
      then (e, true)
      else add_jump_rules (nodeport_chain node_port) hooks
          (record e { nodeport_jump_track = e.nodeport_jump_track ++ (node_port ∷ []) })

  -- `add_nodeport_dnat`.
  unfoldable pub add_nodeport_dnat : ℕ → List (ℕ × ℕ) → Nft
  add_nodeport_dnat node_port [] = return_ok
  add_nodeport_dnat node_port (b ∷ backends) =
      update_dnat_chain (nodeport_chain node_port) (b ∷ backends) (nodeport_matches node_port)
      >> track_nodeport node_port

  -- `remove_nodeport_dnat`.
  unfoldable pub remove_nodeport_dnat : ℕ → Nft
  remove_nodeport_dnat node_port =
      send (del_chain nat_table (nodeport_chain node_port) ∷ []) >> (λ e.
        (record e { nodeport_jump_track = retain_ports node_port e.nodeport_jump_track }, true))

  abbrev clear_tracks : Nft
  clear_tracks e = (record e { jump_track = []; nodeport_jump_track = [] }, true)

  abbrev fresh_table : Text → Nft
  fresh_table tbl = send (del_table tbl ∷ []) >> send (add_table tbl ∷ [])

  -- `init`. The pod CIDR is not read.
  unfoldable pub init : Nft
  init =
      fresh_table nat_table
      >> fresh_table filter_table
      >> clear_tracks
      >> send (
          add_base_chain nat_table (codes "prerouting") nat_type pre_routing hook_prio_nat
          ∷ add_base_chain nat_table (codes "postrouting") nat_type post_routing hook_prio_nat
          ∷ add_base_chain nat_table (codes "output") nat_type out hook_prio_nat
          ∷ [])
      >> send (
          add_base_chain filter_table forward filter_type forward_class hook_prio_filter
          ∷ add_base_chain filter_table (codes "input") filter_type in_class hook_prio_filter
          ∷ add_base_chain filter_table (codes "output") filter_type out hook_prio_filter
          ∷ add_rule filter_table forward (established ∷ accept ∷ [])
          ∷ [])
      >> send (
          add_chain filter_table nsg_rules
          ∷ add_rule filter_table forward (jump nsg_rules ∷ [])
          ∷ [])

  abbrev pub with_network : Option (ℕ × ℕ) → (ℕ × ℕ → Nft) → Nft
  with_network none n = refused
  with_network (some net) n = n net

  -- `add_snat`.
  unfoldable pub add_snat : Text → Nft
  add_snat vnet_cidr =
      with_network (k.parse_network vnet_cidr) (λ net.
        send (add_rule nat_table (codes "postrouting") (snetwork net ∷ masquerade ∷ []) ∷ []))

  abbrev pub forward_rule : Text → Text → Expr → Nft
  forward_rule src_cidr dst_cidr verdict = with_network (k.parse_network src_cidr) (λ src.
      with_network (k.parse_network dst_cidr) (λ dst.
        send (add_rule filter_table nsg_rules (snetwork src ∷ dnetwork dst ∷ verdict ∷ []) ∷ [])))

  -- `add_forward_allow` and `add_forward_deny`.
  unfoldable pub add_forward_allow : Text → Text → Nft
  add_forward_allow src_cidr dst_cidr = forward_rule src_cidr dst_cidr accept

  unfoldable pub add_forward_deny : Text → Text → Nft
  add_forward_deny src_cidr dst_cidr = forward_rule src_cidr dst_cidr drop

  -- `add_forward_allow_set_src`.
  unfoldable pub add_forward_allow_set_src : Text → Text → Nft
  add_forward_allow_set_src set_name dst_cidr = with_network (k.parse_network dst_cidr) (λ dst.
      send (add_rule filter_table nsg_rules (lookup set_name ∷ dnetwork dst ∷ accept ∷ []) ∷ []))

  -- `reset_nsg_rules`.
  unfoldable pub reset_nsg_rules : Nft
  reset_nsg_rules =
      send (del_chain filter_table nsg_rules ∷ []) >> send (add_chain filter_table nsg_rules ∷ [])

  -- `add_forward_catchall`.
  unfoldable pub add_forward_catchall : Text → Nft
  add_forward_catchall pod_cidr = with_network (k.parse_network pod_cidr) (λ net. send (
      add_chain filter_table (codes "catch-all")
      ∷ add_rule filter_table (codes "catch-all") (dnetwork net ∷ accept ∷ [])
      ∷ add_rule filter_table forward (jump (codes "catch-all") ∷ [])
      ∷ []))

  -- `create_set`, which is `replace_set` too.
  unfoldable pub create_set : Text → List ℕ → Nft
  create_set name initial_ips =
      send (add_set filter_table name ∷ add_elements filter_table name initial_ips ∷ [])

  unfoldable pub replace_set : Text → List ℕ → Nft
  unfolding create_set
  replace_set name ips = create_set name ips
