-- ===== src/Net/Nft/Names.antt =====
-- src/netmux/nftables.rs: the names of the chains.
use z8s.Base.{
  ℕ, zero, suc, ◌/◌, ◌%◌, ◌^◌, ◌<◌, ◌≡◌, refl, sym, ◌∙◌, ◌↔◌, ◌≢◌, List, [], ◌∷◌, ◌++◌, arith,
  length, length-append,
}
use z8s.Base.Text.{codes}
use native.Mathlib.Nat.{pow-suc}
use z8s.Net.Nft.{hex, hex_digit, chain_name, nodeport_chain}

-- Texts that begin with parts of one length agree in these parts and in the rest.
pub append_inj {ℓ} :
    {A : Type ℓ} (xs ys s t : List A)
    → length xs ≡ length ys
    → xs ++ s ≡ ys ++ t
    → (xs ≡ ys) × (s ≡ t)
append_inj [] [] s t h e = (refl, e)
append_inj [] (y ∷ ys) s t h e = absurd (omega (arith, h))
append_inj (x ∷ xs) [] s t h e = absurd (omega (arith, h))
append_inj (x ∷ xs) (y ∷ ys) s t h e =
    let (p, q) = append_inj xs ys s t (omega arith) (ground arith) in (ground arith, q)

length-hex : (w n : ℕ) → length (hex w n) ≡ w
unfolding hex
length-hex zero n = refl
length-hex (suc w) n =
    omega (arith, length-hex w (n / 16), length-append (hex w (n / 16)) (hex_digit (n % 16) ∷ []))

hex_digit_inj : (a b : ℕ) → hex_digit a ∷ [] ≡ hex_digit b ∷ [] → a ≡ b
hex_digit_inj a b e = ground arith

hex_inj : (w n m : ℕ) → n < 16 ^ w → m < 16 ^ w → hex w n ≡ hex w m → n ≡ m
unfolding hex
hex_inj zero n m h h' e = omega arith
hex_inj (suc w) n m h h' e =
    let (p, q) =
      append_inj (hex w (n / 16)) (hex w (m / 16)) (hex_digit (n % 16) ∷ [])
        (hex_digit (m % 16) ∷ []) (length-hex w (n / 16) ∙ sym (length-hex w (m / 16))) e in
    let high =
      hex_inj w (n / 16) (m / 16) (omega (arith, pow-suc 16 w)) (omega (arith, pow-suc 16 w)) p in
    omega (arith, hex_digit_inj (n % 16) (m % 16) q)

-- No two services share a chain: the names of two addresses below 2^32 with ports below 2^16 are
-- equal exactly if both the addresses and the ports are.
pub chain_name-eq_iff :
    (ip ip' port port' : ℕ)
    → ip < 2 ^ 32
    → ip' < 2 ^ 32
    → port < 2 ^ 16
    → port' < 2 ^ 16
    → (chain_name ip port ≡ chain_name ip' port') ↔ ((ip ≡ ip') × (port ≡ port'))
unfolding chain_name
chain_name-eq_iff ip ip' port port' hi hi' hp hp' = (
  λ e.
      let (_, tail) =
        append_inj (codes "svc-") (codes "svc-") (hex 8 ip ++ (b'-' ∷ hex 4 port))
          (hex 8 ip' ++ (b'-' ∷ hex 4 port')) refl e in
      let (a, b) =
        append_inj (hex 8 ip) (hex 8 ip') (b'-' ∷ hex 4 port) (b'-' ∷ hex 4 port')
          (length-hex 8 ip ∙ sym (length-hex 8 ip')) tail in
      (
        hex_inj 8 ip ip' (omega arith) (omega arith) a,
        hex_inj 4 port port' (omega arith) (omega arith) (ground arith),
      ),
  λ h. rw (h.0, h.1),
)

pub chain_name-ne : (ip port node_port : ℕ) → chain_name ip port ≢ nodeport_chain node_port
unfolding chain_name nodeport_chain
chain_name-ne ip port node_port e = cc
