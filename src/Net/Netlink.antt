-- ===== src/Net/Netlink.antt =====
-- src/netmux/netlink.rs, with the requests of src/netmux/mod.rs: the messages to the kernel, byte by
-- byte, and what is made of its answers. `to_ne_bytes` is little-endian, as on the program's targets.
pub mod Attributes
pub mod Messages
pub mod Routes
pub mod Answers
mod Runs
use z8s.Base.{
  ℕ, zero, suc, ◌+◌, ◌-◌, ◌*◌, ◌/◌, ◌%◌, ◌^◌, ◌≤◌, ◌<◌, min, max, ◌≡◌, refl, sym, ap, ◌∙◌, ◌≢◌, ◌↔◌,
  ◌⊎◌, inl, inr, Bool, true, false, not, ◌&&◌, ◌||◌, Option, none, some, List, [], ◌∷◌, ◌++◌, map,
  arith, dec_lt, ltb, leb, ◌==◌, if◌then◌else◌, Bool-cases, Option-cases, unwrap_or, is_some,
  length, get_elem?, take, drop, length-append, any, all, All, All-append,
}
use z8s.Base.Text.{Text, codes}
use z8s.Base.Checked.{Checked, ok, overflow, ◌>>=◌}

abbrev pub Bytes : Type 0
Bytes = List ℕ

abbrev pub rtm_newlink : ℕ
rtm_newlink = 16

abbrev pub rtm_dellink : ℕ
rtm_dellink = 17

abbrev pub rtm_getlink : ℕ
rtm_getlink = 18

abbrev pub rtm_newaddr : ℕ
rtm_newaddr = 20

abbrev pub rtm_newroute : ℕ
rtm_newroute = 24

abbrev pub rtm_delroute : ℕ
rtm_delroute = 25

-- `NLM_F_REQUEST | NLM_F_ACK`, and with `NLM_F_CREATE` and `NLM_F_EXCL`.
abbrev pub request_ack : ℕ
request_ack = 1 + 4

abbrev pub create_ack : ℕ
create_ack = 1 + 4 + 0x400

abbrev pub create_excl_ack : ℕ
create_excl_ack = 1 + 4 + 0x400 + 0x200

abbrev pub nlmsg_error : ℕ
nlmsg_error = 2

-- `to_ne_bytes` on u16 and u32, of a number that wraps around.
abbrev pub ne16 : ℕ → Bytes
ne16 n = (n % 256) ∷ (n / 256 % 256) ∷ []

abbrev pub ne32 : ℕ → Bytes
ne32 n = (n % 256) ∷ (n / 256 % 256) ∷ (n / 65536 % 256) ∷ (n / 16777216 % 256) ∷ []

-- `from_ne_bytes` on the bytes at an index.
abbrev pub byte_or_zero : Bytes → ℕ → ℕ
byte_or_zero bs i = unwrap_or (get_elem? bs i) 0

abbrev pub read16 : Bytes → ℕ → ℕ
read16 bs i = byte_or_zero bs i + 256 * byte_or_zero bs (i + 1)

abbrev pub read32 : Bytes → ℕ → ℕ
read32 bs i = read16 bs i + 65536 * read16 bs (i + 2)

unfoldable pub zeros : ℕ → Bytes
zeros zero = []
zeros (suc n) = 0 ∷ zeros n

-- `nlattr` on the bytes that a value has in memory.
unfoldable pub nlattr : ℕ → Bytes → Bytes
nlattr nla_type value = ne16 (length value + 4) ++ (ne16 nla_type ++ value)

-- `(data.len() + 3) & !3`.
abbrev pub padded : ℕ → ℕ
padded n = (n + 3) / 4 * 4

-- `nlattr_bytes`: the length counts the zeros that follow the bytes.
unfoldable pub nlattr_bytes : ℕ → Bytes → Bytes
unfolding zeros
nlattr_bytes nla_type value =
    ne16 (padded (length value) + 4)
    ++ (ne16 nla_type ++ (value ++ zeros (padded (length value) - length value)))

-- `nlattr_nested`.
unfoldable pub nlattr_nested : ℕ → Bytes → Bytes
nlattr_nested nla_type attrs = ne16 (length attrs + 4) ++ (ne16 nla_type ++ attrs)

-- `nlmsghdr` with sequence number 1, before what follows it.
abbrev pub with_header : ℕ → ℕ → Bytes → Bytes
with_header msg_type flags body =
    ne32 (16 + length body) ++ (ne16 msg_type ++ (ne16 flags ++ (ne32 1 ++ (ne32 0 ++ body))))

abbrev pub ifinfomsg : ℕ → ℕ → ℕ → Bytes
ifinfomsg family ifindex flags = family ∷ 0 ∷ 0 ∷ 0 ∷ (ne32 ifindex ++ (ne32 flags ++ ne32 0))

abbrev pub ns_pid_attr : Option ℕ → Bytes
ns_pid_attr none = []
ns_pid_attr (some pid) = nlattr 19 (ne32 pid)

-- The attributes of the peer, after an empty `ifinfomsg`.
abbrev pub peer_data : Text → Option ℕ → Bytes
peer_data peer_name peer_pid = zeros 16 ++ (nlattr_bytes 3 peer_name ++ ns_pid_attr peer_pid)

abbrev pub link_info : Text → Option ℕ → Bytes
link_info peer_name peer_pid =
    nlattr_bytes 1 (codes "veth" ++ (0 ∷ []))
    ++ nlattr_nested 2 (nlattr_nested 1 (peer_data peer_name peer_pid))

-- The request of `create_veth_pair`.
unfoldable pub create_veth_msg : Text → Text → Option ℕ → Bytes
unfolding nlattr nlattr_bytes nlattr_nested
create_veth_msg host_name peer_name peer_pid = with_header rtm_newlink create_excl_ack (
    ifinfomsg 0 0 0
    ++ (nlattr_bytes 3 host_name
        ++ (nlattr 4 (ne32 1500) ++ nlattr_nested 18 (link_info peer_name peer_pid))))

-- The request of `get_ifindex`.
unfoldable pub get_ifindex_msg : Text → Bytes
unfolding nlattr_bytes
get_ifindex_msg name = with_header rtm_getlink request_ack (ifinfomsg 2 0 0 ++ nlattr_bytes 3 name)

-- The requests of `set_link_up` and `del_link`.
unfoldable pub set_link_up_msg : ℕ → Bytes
set_link_up_msg ifindex = with_header rtm_newlink request_ack (ifinfomsg 2 ifindex 1)

unfoldable pub del_link_msg : ℕ → Bytes
del_link_msg ifindex = with_header rtm_dellink request_ack (ifinfomsg 2 ifindex 0)

-- The request of `move_peer_to_netns`.
unfoldable pub move_peer_msg : ℕ → ℕ → Bytes
unfolding nlattr_bytes
move_peer_msg peer_ifindex pid =
    with_header rtm_newlink request_ack (ifinfomsg 2 peer_ifindex 0 ++ nlattr_bytes 19 (ne32 pid))

abbrev pub octets : ℕ → Bytes
octets ip = (ip / 16777216 % 256) ∷ (ip / 65536 % 256) ∷ (ip / 256 % 256) ∷ (ip % 256) ∷ []

abbrev pub dst_attr : ℕ → ℕ → Bytes
dst_attr dest prefix = if ltb 0 prefix then nlattr 1 (octets dest) else []

abbrev pub gateway_attr : Option ℕ → Bytes
gateway_attr none = []
gateway_attr (some gw) = nlattr 5 (octets gw)

abbrev pub oif_attr : Option ℕ → Bytes
oif_attr none = []
oif_attr (some idx) = nlattr 4 (ne32 idx)

-- The attributes of a route. The bytes of `u32::from_ne_bytes` of the octets are the octets.
abbrev pub route_attrs : ℕ → ℕ → Option ℕ → Option ℕ → Bytes
route_attrs dest prefix gateway oif = dst_attr dest prefix ++ (gateway_attr gateway ++ oif_attr oif)

-- `rtmsg` of IPv4, of the main table and the protocol `boot`, a unicast route.
abbrev pub rtmsg : ℕ → ℕ → ℕ → Bytes
rtmsg prefix scope flags = 2 ∷ prefix ∷ 0 ∷ 0 ∷ 254 ∷ 3 ∷ scope ∷ 1 ∷ ne32 flags

-- The scope is `RT_SCOPE_UNIVERSE` with a gateway and `RT_SCOPE_LINK` without.
abbrev pub route_scope : Option ℕ → ℕ
route_scope none = 253
route_scope (some gw) = 0

-- `RTNH_F_ONLINK`.
abbrev pub route_flags : Option ℕ → ℕ
route_flags none = 0
route_flags (some gw) = 4

-- The request of `add_route`.
unfoldable pub add_route_msg : ℕ → ℕ → Option ℕ → Option ℕ → Bytes
unfolding nlattr
add_route_msg dest prefix gateway oif = with_header rtm_newroute create_ack (
    rtmsg prefix (route_scope gateway) (route_flags gateway) ++ route_attrs dest prefix gateway oif)

-- The request of `del_route`.
unfoldable pub del_route_msg : ℕ → ℕ → Option ℕ → Option ℕ → Bytes
unfolding nlattr
del_route_msg dest prefix gateway oif =
    with_header rtm_delroute request_ack (rtmsg prefix 0 0 ++ route_attrs dest prefix gateway oif)

-- The request of `add_addr`.
unfoldable pub add_addr_msg : ℕ → ℕ → ℕ → Bytes
unfolding nlattr
add_addr_msg ifindex ip prefix =
    with_header rtm_newaddr create_excl_ack
      (2 ∷ prefix ∷ 0 ∷ 0 ∷ (ne32 ifindex ++ (nlattr 2 (octets ip) ++ nlattr 1 (octets ip))))

-- `check_nl_response`: the error number as a u32, if there is an error.
unfoldable pub check_nl_response : Bytes → Option ℕ
check_nl_response resp =
    if leb 16 (length resp) && (read16 resp 4 == nlmsg_error && leb 20 (length resp))
    then (if read32 resp 16 == 0 then none else some (read32 resp 16))
    else none

abbrev pub index_or_none : ℕ → Option ℕ
index_or_none idx = if idx == 0 then none else some idx

-- `resp[i]`, which panics out of range.
abbrev pub index : Bytes → ℕ → Checked ℕ
index bs i = elim (get_elem? bs i) [ none ↦ overflow | some b ↦ ok b ]

-- `u16::from_ne_bytes` and `u32::from_ne_bytes` of the bytes from `i` on.
abbrev pub ne16_at : Bytes → ℕ → Checked ℕ
ne16_at bs i = do a ← index bs i; b ← index bs (i + 1); ok (a + 256 * b)

abbrev pub ne32_at : Bytes → ℕ → Checked ℕ
ne32_at bs i = do a ← ne16_at bs i; b ← ne16_at bs (i + 2); ok (a + 65536 * b)

-- The index that `get_ifindex` reads from an answer.
unfoldable pub ifindex_of : Bytes → Checked (Option ℕ)
ifindex_of resp =
    if leb 20 (length resp)
    then (ne16_at resp 4 >>= λ msg_type.
        if msg_type == nlmsg_error
        then ok none
        else (ne32_at resp 20 >>= λ idx. ok (index_or_none idx)))
    else ok none

-- A request and the answer to it: nothing if the socket fails. The state is the kernel's.
abbrev pub Exchange : Type 0 → Type 0
Exchange K = Bytes → K → Option Bytes × K

abbrev pub checked {ℓ} : {K : Type ℓ} → Option Bytes × K → Bool × K
checked (none, k) = (false, k)
checked (some resp, k) = (not (is_some (check_nl_response resp)), k)

abbrev pub index_answer {ℓ} : {K : Type ℓ} → Option Bytes × K → Checked (Option ℕ × K)
index_answer (none, k) = ok (none, k)
index_answer (some resp, k) = ifindex_of resp >>= λ idx. ok (idx, k)

module _ {K : Type 0} (exchange : Exchange K) where
  -- `set_link_up`, `del_link`, `add_route`, `del_route`, `add_addr` and `move_peer_to_netns` send
  -- their message; whether the result is `Ok`.
  unfoldable pub request : Bytes → K → Bool × K
  unfolding check_nl_response
  request msg k = checked (exchange msg k)

  -- `get_ifindex`.
  unfoldable pub get_ifindex : Text → K → Checked (Option ℕ × K)
  unfolding get_ifindex_msg ifindex_of
  get_ifindex name k = index_answer (exchange (get_ifindex_msg name) k)

  abbrev pub peer_index : ℕ → Option ℕ × K → Checked (Option (ℕ × ℕ) × K)
  peer_index host_idx (none, k) = ok (none, k)
  peer_index host_idx (some idx, k) = ok (some (host_idx, idx), k)

  -- The peer's index is looked up only if it is not made in a namespace of its own.
  abbrev pub with_peer : Text → Option ℕ → Option ℕ × K → Checked (Option (ℕ × ℕ) × K)
  with_peer peer_name peer_pid (none, k) = ok (none, k)
  with_peer peer_name (some pid) (some host_idx, k) = ok (some (host_idx, 0), k)
  with_peer peer_name none (some host_idx, k) = get_ifindex peer_name k >>= peer_index host_idx

  abbrev pub after_create : Text → Text → Option ℕ → Bool × K → Checked (Option (ℕ × ℕ) × K)
  after_create host_name peer_name peer_pid (false, k) = ok (none, k)
  after_create host_name peer_name peer_pid (true, k) =
      get_ifindex host_name k >>= with_peer peer_name peer_pid

  -- `create_veth_pair`.
  unfoldable pub create_veth_pair : Text → Text → Option ℕ → K → Checked (Option (ℕ × ℕ) × K)
  unfolding request create_veth_msg get_ifindex
  create_veth_pair host_name peer_name peer_pid k =
      after_create host_name peer_name peer_pid
        (request (create_veth_msg host_name peer_name peer_pid) k)

  abbrev pub delete_found : Option ℕ × K → Checked (Bool × K)
  delete_found (none, k) = ok (true, k)
  delete_found (some idx, k) = ok (request (del_link_msg idx) k)

  -- `delete_veth`: an interface that is not found is no error.
  unfoldable pub delete_veth : Text → K → Checked (Bool × K)
  unfolding request get_ifindex del_link_msg
  delete_veth host_name k = get_ifindex host_name k >>= delete_found

  -- `add_pod_host_route`, `del_pod_host_route` and `add_default_route`.
  unfoldable pub add_pod_host_route : ℕ → ℕ → K → Bool × K
  unfolding request add_route_msg
  add_pod_host_route pod_ip ifindex k = request (add_route_msg pod_ip 32 none (some ifindex)) k

  unfoldable pub del_pod_host_route : ℕ → ℕ → K → Bool × K
  unfolding request del_route_msg
  del_pod_host_route pod_ip ifindex k = request (del_route_msg pod_ip 32 none (some ifindex)) k

  unfoldable pub add_default_route : ℕ → ℕ → K → Bool × K
  unfolding request add_route_msg
  add_default_route peer_ifindex gateway k =
      request (add_route_msg 0 0 (some gateway) (some peer_ifindex)) k
