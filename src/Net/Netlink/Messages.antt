-- ===== src/Net/Netlink/Messages.antt =====
-- src/netmux/netlink.rs: what the messages say, read as attributes.
use z8s.Base.{
  ℕ, zero, suc, ◌+◌, ◌-◌, ◌%◌, ◌^◌, ◌≤◌, ◌<◌, ◌≡◌, refl, sym, ap, ◌∙◌, ◌⊎◌, inl, inr, Option, none,
  some, List, [], ◌∷◌, ◌++◌, arith, length, take, drop, length-append,
}
use mathlib.Core.List.{append-nil}
use z8s.Base.{length-append, length-drop}
use z8s.Base.Text.{Text, codes}
use z8s.Net.Netlink.{
  Bytes, ne32, read32, zeros, nlattr, nlattr_bytes, nlattr_nested, padded, with_header, ifinfomsg,
  ns_pid_attr, peer_data, link_info, create_veth_msg,
}
use z8s.Net.Mux.Veth.{veth_name_from_uid, peer_name, hex_digits}
use z8s.Net.Netlink.Attributes.{walk, Fits, walk-nlattr, push}

-- The value with the zeros that fill its attribute.
abbrev pub fill : Bytes → Bytes
fill value = value ++ zeros (padded (length value) - length value)

length-zeros : (n : ℕ) → length (zeros n) ≡ n
unfolding zeros
length-zeros zero = refl
length-zeros (suc n) = omega (arith, length-zeros n)

length-fill : (value : Bytes) → length (fill value) ≡ padded (length value)
length-fill value = omega (
  arith,
  length-append value (zeros (padded (length value) - length value)),
  length-zeros (padded (length value) - length value),
)

length-nlattr : (t : ℕ) (value : Bytes) → length (nlattr t value) ≡ length value + 4
unfolding nlattr
length-nlattr t value = omega arith

nlattr_bytes-nlattr : (t : ℕ) (value : Bytes) → nlattr_bytes t value ≡ nlattr t (fill value)
unfolding nlattr nlattr_bytes
nlattr_bytes-nlattr t value = rw (length-fill value) refl

walk_last :
    (n t : ℕ) (value : Bytes)
    → Fits t value
    → walk (suc n) (nlattr t value) ≡ some ((t, value) ∷ [])
unfolding walk
walk_last n t value f =
    ap (walk (suc n)) (sym (append-nil (nlattr t value))) ∙ walk-nlattr n t value [] f

fill-Fits : (t : ℕ) (name : Text) → t < 2 ^ 16 → length name ≤ 15 → Fits t (fill name)
fill-Fits t name h l = record {
  is_type = h;
  is_aligned = omega (arith, length-fill name);
  is_short = omega (arith, length-fill name);
}

header_length :
    (t f : ℕ) (body : Bytes)
    → 16 + length body < 2 ^ 32
    → read32 (with_header t f body) 0 ≡ length (with_header t f body)
header_length t f body h = omega arith

-- The namespace of the peer, as an attribute.
abbrev pub ns_pid : Option ℕ → List (ℕ × Bytes)
ns_pid none = []
ns_pid (some pid) = (19, ne32 pid) ∷ []

length-ns_pid_attr :
    (pid : Option ℕ) → (length (ns_pid_attr pid) ≡ 0) ⊎ (length (ns_pid_attr pid) ≡ 8)
unfolding nlattr
length-ns_pid_attr none = inl refl
length-ns_pid_attr (some pid) = inr refl

peer_attrs :
    (peer : Text) (pid : Option ℕ)
    → length peer ≤ 15
    → walk 3 (drop 16 (peer_data peer pid)) ≡ some ((3, fill peer) ∷ ns_pid pid)
unfolding zeros
peer_attrs peer none l = rw (nlattr_bytes-nlattr 3 peer) (
    rw (append-nil (nlattr 3 (fill peer)))
      (walk_last 2 3 (fill peer) (fill-Fits 3 peer (omega arith) l)))
peer_attrs peer (some pid) l = rw (nlattr_bytes-nlattr 3 peer) (
    walk-nlattr 2 3 (fill peer) (nlattr 19 (ne32 pid)) (fill-Fits 3 peer (omega arith) l)
    ∙ ap (push (3, fill peer)) (walk_last 1 19 (ne32 pid) (omega arith)))

length-peer_data :
    (peer : Text) (pid : Option ℕ)
    → length (peer_data peer pid) ≡ 20 + padded (length peer) + length (ns_pid_attr pid)
length-peer_data peer pid = rw (nlattr_bytes-nlattr 3 peer) (
    omega (
      arith,
      length-append (zeros 16) (nlattr 3 (fill peer) ++ ns_pid_attr pid),
      length-append (nlattr 3 (fill peer)) (ns_pid_attr pid),
      length-zeros 16,
      length-nlattr 3 (fill peer),
      length-fill peer,
    ))

-- The sizes that the namespace's attribute may have.
abbrev IsSmall : ℕ → Type 0
IsSmall n = (n % 4 ≡ 0) × (n ≤ 8)

ns_pid_attr-IsSmall : (pid : Option ℕ) → IsSmall (length (ns_pid_attr pid))
ns_pid_attr-IsSmall pid = elim (length-ns_pid_attr pid) [
  | inl e ↦ (omega (arith, e), omega (arith, e))
  | inr e ↦ (omega (arith, e), omega (arith, e))
]

peer_data-Fits : (peer : Text) (pid : Option ℕ) → length peer ≤ 15 → Fits 1 (peer_data peer pid)
peer_data-Fits peer pid l = record {
  is_type = omega arith;
  is_aligned = omega (arith, length-peer_data peer pid, ns_pid_attr-IsSmall pid);
  is_short = omega (arith, length-peer_data peer pid, ns_pid_attr-IsSmall pid);
}

nested-nlattr : (t : ℕ) (value : Bytes) → nlattr_nested t value ≡ nlattr t value
unfolding nlattr nlattr_nested
nested-nlattr t value = refl

nested-Fits :
    (s t : ℕ) (value : Bytes)
    → t < 2 ^ 16
    → length value ≤ 100
    → Fits s value
    → Fits t (nlattr_nested s value)
nested-Fits s t value h l f = rw (nested-nlattr s value) (record {
  is_type = h;
  is_aligned = omega (arith, length-nlattr s value, f.is_aligned);
  is_short = omega (arith, length-nlattr s value);
})

length-link_info :
    (peer : Text) (pid : Option ℕ) → length (link_info peer pid) ≡ 20 + length (peer_data peer pid)
length-link_info peer pid = rw (nlattr_bytes-nlattr 1 (codes "veth" ++ (0 ∷ []))) (
    rw (nested-nlattr 1 (peer_data peer pid)) (
      rw (nested-nlattr 2 (nlattr 1 (peer_data peer pid))) (
        omega (
          arith,
          length-append (nlattr 1 (fill (codes "veth" ++ (0 ∷ []))))
              (nlattr 2 (nlattr 1 (peer_data peer pid))),
          length-nlattr 1 (fill (codes "veth" ++ (0 ∷ []))),
          length-fill (codes "veth" ++ (0 ∷ [])),
          length-nlattr 2 (nlattr 1 (peer_data peer pid)),
          length-nlattr 1 (peer_data peer pid),
        ))))

info_attrs :
    (peer : Text) (pid : Option ℕ)
    → length peer ≤ 15
    → walk 3 (link_info peer pid)
      ≡ some ((1, codes "veth" ++ zeros 4) ∷ (2, nlattr_nested 1 (peer_data peer pid)) ∷ [])
unfolding zeros
info_attrs peer pid l =
    let kind = codes "veth" ++ (0 ∷ []) in
    let peer_attr = nlattr_nested 1 (peer_data peer pid) in
    let fits : Fits 2 peer_attr =
      nested-Fits 1 2 (peer_data peer pid) (omega arith)
        (omega (arith, length-peer_data peer pid, ns_pid_attr-IsSmall pid))
        (peer_data-Fits peer pid l) in
    ap (λ a. walk 3 (a ++ nlattr_nested 2 peer_attr)) (nlattr_bytes-nlattr 1 kind)
    ∙ ap (λ a. walk 3 (nlattr 1 (fill kind) ++ a)) (nested-nlattr 2 peer_attr)
    ∙ walk-nlattr 2 1 (fill kind) (nlattr 2 peer_attr) (omega arith)
    ∙ ap (push (1, fill kind)) (walk_last 1 2 peer_attr fits)

link_info-Fits : (peer : Text) (pid : Option ℕ) → length peer ≤ 15 → Fits 18 (link_info peer pid)
link_info-Fits peer pid l = record {
  is_type = omega arith;
  is_aligned =
      omega (arith, length-link_info peer pid, length-peer_data peer pid, ns_pid_attr-IsSmall pid);
  is_short =
      omega (arith, length-link_info peer pid, length-peer_data peer pid, ns_pid_attr-IsSmall pid);
}

link_attrs :
    (host peer : Text) (pid : Option ℕ)
    → length host ≤ 15
    → length peer ≤ 15
    → walk 4 (drop 32 (create_veth_msg host peer pid))
      ≡ some ((3, fill host) ∷ (4, ne32 1500) ∷ (18, link_info peer pid) ∷ [])
unfolding create_veth_msg
link_attrs host peer pid lh lp =
    let info = nlattr_nested 18 (link_info peer pid) in
    ap (λ a. walk 4 (a ++ (nlattr 4 (ne32 1500) ++ info))) (nlattr_bytes-nlattr 3 host)
    ∙ walk-nlattr 3 3 (fill host) (nlattr 4 (ne32 1500) ++ info) (fill-Fits 3 host (omega arith) lh)
    ∙ ap (push (3, fill host)) (
        walk-nlattr 2 4 (ne32 1500) info (omega arith)
        ∙ ap (push (4, ne32 1500)) (
            ap (walk 2) (nested-nlattr 18 (link_info peer pid))
            ∙ walk_last 1 18 (link_info peer pid) (link_info-Fits peer pid lp)))

-- What follows the header of the message.
abbrev body_of : Text → Text → Option ℕ → Bytes
body_of host peer pid =
    ifinfomsg 0 0 0
    ++ (nlattr_bytes 3 host ++ (nlattr 4 (ne32 1500) ++ nlattr_nested 18 (link_info peer pid)))

length-body_of :
    (host peer : Text) (pid : Option ℕ)
    → length host ≤ 15
    → length peer ≤ 15
    → length (body_of host peer pid) ≤ 200
length-body_of host peer pid lh lp = rw (nlattr_bytes-nlattr 3 host) (
    rw (nested-nlattr 18 (link_info peer pid)) (
      omega (
        arith,
        length-append (nlattr 3 (fill host))
            (nlattr 4 (ne32 1500) ++ nlattr 18 (link_info peer pid)),
        length-append (nlattr 4 (ne32 1500)) (nlattr 18 (link_info peer pid)),
        length-nlattr 3 (fill host),
        length-fill host,
        length-nlattr 4 (ne32 1500),
        length-nlattr 18 (link_info peer pid),
        length-link_info peer pid,
        length-peer_data peer pid,
        ns_pid_attr-IsSmall pid,
      )))

length-create_veth_msg :
    (host peer : Text) (pid : Option ℕ)
    → length host ≤ 15
    → length peer ≤ 15
    → read32 (create_veth_msg host peer pid) 0 ≡ length (create_veth_msg host peer pid)
unfolding create_veth_msg
length-create_veth_msg host peer pid lh lp =
    header_length 16 1541 (body_of host peer pid)
      (omega (arith, length-body_of host peer pid lh lp))

names_short : (uid : Text) → (length (veth_name_from_uid uid) ≤ 15) × (length (peer_name uid) ≤ 15)
unfolding veth_name_from_uid peer_name
names_short uid =
    let e = length-drop (length (hex_digits uid) - 8) (hex_digits uid) in
    (omega (arith, e), omega (arith, e))

-- Behind its length the message has the type RTM_NEWLINK (16), the flags of a request that creates,
-- fails if there is one already, and asks for an answer (0x605), the sequence number 1 and no port;
-- then an `ifinfomsg` of zeros only.
abbrev pub veth_head : Bytes
veth_head =
    (16 ∷ 0 ∷ 5 ∷ 6 ∷ 1 ∷ 0 ∷ 0 ∷ 0 ∷ 0 ∷ 0 ∷ 0 ∷ 0 ∷ [])
    ++ (0 ∷ 0 ∷ 0 ∷ 0 ∷ 0 ∷ 0 ∷ 0 ∷ 0 ∷ 0 ∷ 0 ∷ 0 ∷ 0 ∷ 0 ∷ 0 ∷ 0 ∷ 0 ∷ [])

head_bytes :
    (host peer : Text) (pid : Option ℕ)
    → take 28 (drop 4 (create_veth_msg host peer pid)) ≡ veth_head
unfolding create_veth_msg
head_bytes host peer pid = refl

-- Whatever the pod, the message that creates its interfaces states its own length, and its next 28
-- bytes are the type RTM_NEWLINK (16), the flags REQUEST, ACK, EXCL and CREATE (0x605), the sequence
-- number 1, and zeros: no port and an empty `ifinfomsg`. Its attributes are the host's interface
-- name filled with zeros, the MTU 1500 and the link's data, in which stand the kind `veth` and the
-- peer; the peer's attributes are its name and, if there is one, the process whose namespace it is
-- made in.
pub create_pod_veth_lem :
    (uid : Text) (pid : Option ℕ)
    → let msg = create_veth_msg (veth_name_from_uid uid) (peer_name uid) pid in
      let peer = peer_data (peer_name uid) pid in
      (read32 msg 0 ≡ length msg)
      × (take 28 (drop 4 msg) ≡ veth_head)
      × (walk 4 (drop 32 msg)
          ≡ some (
              (3, fill (veth_name_from_uid uid))
              ∷ (4, ne32 1500)
              ∷ (18, link_info (peer_name uid) pid)
              ∷ []))
      × (walk 3 (link_info (peer_name uid) pid)
          ≡ some ((1, codes "veth" ++ zeros 4) ∷ (2, nlattr_nested 1 peer) ∷ []))
      × (walk 1 (nlattr_nested 1 peer) ≡ some ((1, peer) ∷ []))
      × (walk 3 (drop 16 peer) ≡ some ((3, fill (peer_name uid)) ∷ ns_pid pid))
create_pod_veth_lem uid pid =
    let (lh, lp) = names_short uid in
    (
      length-create_veth_msg (veth_name_from_uid uid) (peer_name uid) pid lh lp,
      head_bytes (veth_name_from_uid uid) (peer_name uid) pid,
      link_attrs (veth_name_from_uid uid) (peer_name uid) pid lh lp,
      info_attrs (peer_name uid) pid lp,
      ap (walk 1) (nested-nlattr 1 (peer_data (peer_name uid) pid))
          ∙ walk_last 0 1 (peer_data (peer_name uid) pid) (peer_data-Fits (peer_name uid) pid lp),
      peer_attrs (peer_name uid) pid lp,
    )
