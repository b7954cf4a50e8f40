-- ===== src/Net/Netlink/Runs.antt =====
-- Concrete messages and answers, and the theorems at concrete inputs.
use z8s.Base.{
  ℕ, suc, ◌≡◌, refl, ◌↔◌, true, false, Option, none, some, [], ◌∷◌, ◌++◌, is_some, length,
  get_elem?, drop, take,
}
use z8s.Base.Text.{Text, codes}
use z8s.Base.Checked.{ok, overflow}
use z8s.Net.Mux.Veth.{veth_name_from_uid, peer_name}
use z8s.Net.Netlink.{
  Bytes, ne32, read16, read32, zeros, peer_data, link_info, nlattr_nested, create_veth_msg,
  set_link_up_msg, add_route_msg, del_route_msg, ifindex_of, request, delete_veth,
}
use z8s.Net.Netlink.Attributes.{walk}
use z8s.Net.Netlink.Messages.{veth_head, fill, ns_pid, create_pod_veth_lem}
use z8s.Net.Netlink.Routes.{route_fields, del_route_lem}
use z8s.Net.Netlink.Answers.{IsCut, Says, ifindex_of_lem}

link_up :
    set_link_up_msg 7
    ≡ 32 ∷ 0 ∷ 0 ∷ 0 ∷ 16 ∷ 0 ∷ 5 ∷ 0 ∷ 1 ∷ 0 ∷ 0 ∷ 0 ∷ 0 ∷ 0 ∷ 0 ∷ 0 ∷ 2 ∷ 0 ∷ 0 ∷ 0 ∷ 7 ∷ 0 ∷ 0
      ∷ 0 ∷ 1 ∷ 0 ∷ 0 ∷ 0 ∷ 0 ∷ 0 ∷ 0 ∷ 0 ∷ []
unfolding set_link_up_msg
link_up = refl

-- A kernel that answers every request with the error 17, EEXIST.
abbrev exists : Bytes → ℕ → Option Bytes × ℕ
exists msg k = (some (zeros 4 ++ (2 ∷ 0 ∷ (zeros 10 ++ ne32 17))), suc k)

not_made : request exists (set_link_up_msg 7) 0 ≡ (false, 1)
unfolding request zeros
not_made = refl

-- An interface that is not found is not deleted, without an error.
nothing_deleted : delete_veth exists (codes "veth-ddefa") 0 ≡ ok (true, 1)
unfolding delete_veth zeros
nothing_deleted = refl

abbrev nginx : Text
nginx = codes "Pod/default/nginx"

create_pod_veth_lem_example :
    let msg = create_veth_msg (veth_name_from_uid nginx) (peer_name nginx) (some 4711) in
    let peer = peer_data (peer_name nginx) (some 4711) in
    (read32 msg 0 ≡ length msg)
    × (take 28 (drop 4 msg) ≡ veth_head)
    × (walk 4 (drop 32 msg)
        ≡ some (
            (3, fill (veth_name_from_uid nginx))
            ∷ (4, ne32 1500)
            ∷ (18, link_info (peer_name nginx) (some 4711))
            ∷ []))
    × (walk 3 (link_info (peer_name nginx) (some 4711))
        ≡ some ((1, codes "veth" ++ zeros 4) ∷ (2, nlattr_nested 1 peer) ∷ []))
    × (walk 1 (nlattr_nested 1 peer) ≡ some ((1, peer) ∷ []))
    × (walk 3 (drop 16 peer) ≡ some ((3, fill (peer_name nginx)) ∷ ns_pid (some 4711)))
create_pod_veth_lem_example = create_pod_veth_lem nginx (some 4711)

-- A route to a pod has no gateway.
abbrev direct : Option ℕ
direct = none

del_route_lem_example :
    let add = add_route_msg 170524674 32 direct (some 7) in
    let del = del_route_msg 170524674 32 direct (some 7) in
    (walk 3 (drop 28 add) ≡ some (route_fields 170524674 32 direct (some 7)))
    × (walk 3 (drop 28 del) ≡ some (route_fields 170524674 32 direct (some 7)))
    × (get_elem? add 17 ≡ some 32)
    × (get_elem? del 17 ≡ some 32)
    × (get_elem? add 22 ≡ some 253)
    × (get_elem? del 22 ≡ some 0)
    × ((get_elem? add 22 ≡ get_elem? del 22) ↔ (is_some direct ≡ true))
del_route_lem_example = del_route_lem 170524674 32 direct (some 7)

abbrev cut : Bytes
cut = zeros 22

ifindex_of_lem_example :
    ((ifindex_of cut ≡ overflow) ↔ IsCut cut)
    × ((ifindex_of cut ≡ ok (some 7)) ↔ Says (length cut) (read16 cut 4) (read32 cut 20) 7)
ifindex_of_lem_example = ifindex_of_lem cut 7
