-- ===== src/Net/Mux/Veth.antt =====
-- src/netmux/mod.rs: the names of the interfaces of a pod, and the cleaning of interfaces at startup.
-- What the kernel lists is an argument.
use z8s.Base.{
  ℕ, zero, suc, ◌+◌, ◌-◌, ◌≤◌, ◌≡◌, refl, sym, ap, ◌∙◌, ◌↔◌, Bool, true, not, ◌&&◌, ◌||◌, Option,
  none, some, List, [], ◌∷◌, ◌++◌, map, arith, leb, if◌then◌else◌, length, drop, length-append, any,
  All,
}
use z8s.Base.{length-drop}
use z8s.Base.Text.{Text, codes, text_eq}

-- `char::is_ascii_hexdigit`.
abbrev pub is_ascii_hexdigit : ℕ → Bool
is_ascii_hexdigit c = leb 48 c && leb c 57 || (leb 65 c && leb c 70 || leb 97 c && leb c 102)

-- `uid.chars().filter(|c| c.is_ascii_hexdigit())`: every byte of another character is left out.
unfoldable pub hex_digits : Text → Text
hex_digits [] = []
hex_digits (c ∷ s) = let rest = hex_digits s in if is_ascii_hexdigit c then c ∷ rest else rest

-- `hex[start..]`.
abbrev pub last_eight : Text → Text
last_eight hex = drop (length hex - 8) hex

-- `veth_name_from_uid`.
unfoldable pub veth_name_from_uid : Text → Text
unfolding hex_digits
veth_name_from_uid uid = codes "veth-" ++ last_eight (hex_digits uid)

-- The name of the peer in `create_pod_veth`.
unfoldable pub peer_name : Text → Text
unfolding hex_digits
peer_name uid = codes "zeth-" ++ last_eight (hex_digits uid)

abbrev pub has_name : Text → List Text → Bool
has_name name names = any (λ n. text_eq n name) names

unfoldable pub orphans : List Text → List (Text × ℕ) → List ℕ
orphans active [] = []
orphans active ((name, idx) ∷ veths) =
    let rest = orphans active veths in if not (has_name name active) then idx ∷ rest else rest

-- `clean_orphan_veths`: the interfaces that it asks the kernel to delete, in order, if the interfaces
-- can be listed.
unfoldable pub clean_orphan_veths : Option (List (Text × ℕ)) → List Text → Option (List ℕ)
unfolding orphans veth_name_from_uid
clean_orphan_veths none active_uids = none
clean_orphan_veths (some veths) active_uids =
    some (orphans (map veth_name_from_uid active_uids) veths)

hex_digits-append : (s t : Text) → hex_digits (s ++ t) ≡ hex_digits s ++ hex_digits t
unfolding hex_digits
hex_digits-append [] t = refl
hex_digits-append (c ∷ s) t = ground (arith, hex_digits-append s t)

-- Every byte is a hexadecimal digit.
abbrev pub IsHex : Text → Type 0
IsHex s = All (λ c. is_ascii_hexdigit c ≡ true) s

hex_digits_all : (s : Text) → IsHex s → hex_digits s ≡ s
unfolding hex_digits
hex_digits_all [] h = refl
hex_digits_all (c ∷ s) (h, hs) = ground (arith, h, hex_digits_all s hs)

drop-append : (s t : Text) (n m : ℕ) → m ≡ length s + n → drop m (s ++ t) ≡ drop n t
drop-append [] t n m e = ap (λ k. drop k t) (omega (arith, e))
drop-append (c ∷ s) t n zero e = absurd (omega arith)
drop-append (c ∷ s) t n (suc m) e = drop-append s t n m (omega arith)

-- The last eight bytes are those of a second part that has eight.
last_eight-append : (s t : Text) → 8 ≤ length t → last_eight (s ++ t) ≡ last_eight t
last_eight-append s t e =
    drop-append s t (length t - 8) (length (s ++ t) - 8) (omega (arith, length-append s t))

veth_name_suffix :
    (s t : Text) → IsHex t → length t ≡ 8 → veth_name_from_uid (s ++ t) ≡ codes "veth-" ++ t
unfolding veth_name_from_uid
veth_name_suffix s t h e =
    ap (λ x. codes "veth-" ++ x)
      (ap last_eight (hex_digits-append s t ∙ ap (λ x. hex_digits s ++ x) (hex_digits_all t h))
        ∙ last_eight-append (hex_digits s) t (omega (arith, e))
        ∙ ap (λ n. drop (n - 8) t) e)

same_tail : (s t : Text) → codes "veth-" ++ s ≡ codes "veth-" ++ t → s ≡ t
same_tail s t e = ap (drop 5) e

-- Two pods whose identifiers end in eight hexadecimal digits have one interface name exactly if these
-- eight digits are the same, and the name is within the kernel's fifteen bytes, as is the peer's
-- name.
pub veth_name_from_uid_iff :
    (p q s t : Text)
    → IsHex s
    → length s ≡ 8
    → IsHex t
    → length t ≡ 8
    → ((veth_name_from_uid (p ++ s) ≡ veth_name_from_uid (q ++ t)) ↔ (s ≡ t))
      × (length (veth_name_from_uid (p ++ s)) ≤ 15)
      × (length (peer_name (p ++ s)) ≤ 15)
unfolding peer_name
veth_name_from_uid_iff p q s t hs ls ht lt = (
  (
    λ e. same_tail s t (sym (veth_name_suffix p s hs ls) ∙ e ∙ veth_name_suffix q t ht lt),
    λ e.
        veth_name_suffix p s hs ls
        ∙ ap (λ x. codes "veth-" ++ x) e
        ∙ sym (veth_name_suffix q t ht lt),
  ),
  rw (veth_name_suffix p s hs ls) (omega arith),
  omega (arith, length-drop (length (hex_digits (p ++ s)) - 8) (hex_digits (p ++ s))),
)

-- A name forgets whatever stands before the last eight hexadecimal digits.
pub veth_name_forgets :
    (p q s : Text)
    → 8 ≤ length (hex_digits s)
    → veth_name_from_uid (p ++ s) ≡ veth_name_from_uid (q ++ s)
unfolding veth_name_from_uid
veth_name_forgets p q s h = ap (λ x. codes "veth-" ++ x) (tail p ∙ sym (tail q))
  where
    tail : (p : Text) → last_eight (hex_digits (p ++ s)) ≡ last_eight (hex_digits s)
    tail p =
        ap last_eight (hex_digits-append p s) ∙ last_eight-append (hex_digits p) (hex_digits s) h
