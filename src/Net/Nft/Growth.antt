-- ===== src/Net/Nft/Growth.antt =====
-- src/netmux/nftables.rs: what has been sent is not taken back.
use z8s.Base.{
  ℕ, ◌≡◌, refl, sym, ap, inl, inr, Bool, true, false, List, [], ◌∷◌, ◌++◌, ◌==◌, Bool-cases, any,
  ◌/◌, ◌%◌,
}
use z8s.Base.{Has, Has-append_left, Has-append_right}
use z8s.Base.Text.{Text}
use z8s.Net.Nft.{
  Kernel, Batch, Expr, Matches, Nft, NftEngine, send, then_run, ◌>>◌, add_chain, nat_table,
  dnat_rule, jump_rule, hooks, is_pair, chain_name, nodeport_chain, service_matches, meta_nf_proto,
  daddr, tcp_dport, cmp_eq, immediate, dnat, nodeport_matches, add_backends, update_dnat_chain,
  add_jump_rules, track_service, track_nodeport, add_dnat, add_nodeport_dnat,
}
use z8s.Net.Nft.Sent.{Accepts}
use z8s.Net.Nft.Resync.{rules_of, rules_of-append, exprs_of, backend_rules, add_dnat_appends}
use mathlib.Core.List.{append_assoc, append-nil}

-- The batches of the second state begin with those of the first.
abbrev pub Grows : NftEngine → NftEngine → Type 0
Grows e d = (more : List Batch) × (d.sent ≡ e.sent ++ more)

pub Grows-refl : (e : NftEngine) → Grows e e
Grows-refl e = ([], sym (append-nil e.sent))

pub Grows-trans : (d e f : NftEngine) → Grows d e → Grows e f → Grows d f
Grows-trans d e f (p, h) (q, h') = (p ++ q, rw (h', h) (append_assoc d.sent p q))

-- A rule that has been sent for a chain.
abbrev pub IsRouted : Text → List Expr → NftEngine → Type 0
IsRouted chain rule e = Has rule (rules_of chain e.sent)

pub Grows-IsRouted :
    (chain : Text) (rule : List Expr) (e d : NftEngine)
    → Grows e d
    → IsRouted chain rule e
    → IsRouted chain rule d
Grows-IsRouted chain rule e d (more, h) r =
    rw (h, rules_of-append chain e.sent more)
      (Has-append_left rule (rules_of chain e.sent) (rules_of chain more) r)

module _ (k : Kernel) where
  send-Grows : (b : Batch) (e : NftEngine) → Grows e (send k b e).0
  unfolding send
  send-Grows b e = (b ∷ [], refl)

  pub >>-Grows :
      (m n : Nft) (e : NftEngine)
      → Grows e (m e).0
      → ((d : NftEngine) → Grows d (n d).0)
      → Grows e ((m >> n) e).0
  >>-Grows m n e p q = onward (m e) p
    where
      onward : (r : NftEngine × Bool) → Grows e r.0 → Grows e (then_run n r).0
      onward (d, true) p = Grows-trans e d (n d).0 p (q d)
      onward (d, false) p = p

  add_backends-Grows :
      (chain : Text) (ms : Matches) (backends : List (ℕ × ℕ)) (e : NftEngine)
      → Grows e (add_backends k chain ms backends e).0
  unfolding add_backends
  add_backends-Grows chain ms [] e = Grows-refl e
  add_backends-Grows chain ms ((ip, port) ∷ backends) e =
      >>-Grows (send k (dnat_rule chain ms ip port ∷ [])) (add_backends k chain ms backends) e
        (send-Grows (dnat_rule chain ms ip port ∷ []) e) (add_backends-Grows chain ms backends)

  update_dnat_chain-Grows :
      (chain : Text) (ms : Matches) (backends : List (ℕ × ℕ)) (e : NftEngine)
      → Grows e (update_dnat_chain k chain backends ms e).0
  unfolding update_dnat_chain
  update_dnat_chain-Grows chain ms backends e =
      >>-Grows (send k (add_chain nat_table chain ∷ [])) (add_backends k chain ms backends) e
        (send-Grows (add_chain nat_table chain ∷ []) e) (add_backends-Grows chain ms backends)

  add_jump_rules-Grows :
      (chain : Text) (hs : List Text) (e : NftEngine) → Grows e (add_jump_rules k chain hs e).0
  unfolding add_jump_rules
  add_jump_rules-Grows chain [] e = Grows-refl e
  add_jump_rules-Grows chain (h ∷ hs) e =
      >>-Grows (send k (jump_rule chain h ∷ [])) (add_jump_rules k chain hs) e
        (send-Grows (jump_rule chain h ∷ []) e) (add_jump_rules-Grows chain hs)

  track_service-Grows : (ip port : ℕ) (e : NftEngine) → Grows e (track_service k ip port e).0
  unfolding track_service
  track_service-Grows ip port e = elim (Bool-cases (any (is_pair ip port) e.jump_track)) [
    | inl old ↦ rw old (Grows-refl e)
    | inr un ↦ rw un (
        add_jump_rules-Grows (chain_name ip port) hooks
          (record e { jump_track = e.jump_track ++ ((ip, port) ∷ []) }))
  ]

  track_nodeport-Grows : (node_port : ℕ) (e : NftEngine) → Grows e (track_nodeport k node_port e).0
  unfolding track_nodeport
  track_nodeport-Grows node_port e =
      elim (Bool-cases (any (λ p. p == node_port) e.nodeport_jump_track)) [
        | inl old ↦ rw old (Grows-refl e)
        | inr un ↦ rw un (
            add_jump_rules-Grows (nodeport_chain node_port) hooks
              (record e { nodeport_jump_track = e.nodeport_jump_track ++ (node_port ∷ []) }))
      ]

  pub add_dnat-Grows :
      (ip port : ℕ) (backends : List (ℕ × ℕ)) (e : NftEngine)
      → Grows e (add_dnat k ip port backends e).0
  unfolding add_dnat
  add_dnat-Grows ip port backends e =
      >>-Grows (update_dnat_chain k (chain_name ip port) backends (service_matches ip port))
        (track_service k ip port) e
        (update_dnat_chain-Grows (chain_name ip port) (service_matches ip port) backends e)
        (track_service-Grows ip port)

  pub add_nodeport_dnat-Grows :
      (node_port : ℕ) (backends : List (ℕ × ℕ)) (e : NftEngine)
      → Grows e (add_nodeport_dnat k node_port backends e).0
  unfolding add_nodeport_dnat
  add_nodeport_dnat-Grows node_port [] e = Grows-refl e
  add_nodeport_dnat-Grows node_port (b ∷ backends) e =
      >>-Grows
        (update_dnat_chain k (nodeport_chain node_port) (b ∷ backends) (nodeport_matches node_port))
        (track_nodeport k node_port) e
        (update_dnat_chain-Grows (nodeport_chain node_port) (nodeport_matches node_port)
          (b ∷ backends) e)
        (track_nodeport-Grows node_port)

-- The rule that sends what comes over IPv4 (family 2) to an address and a TCP port on to another
-- address and port, the numbers as big-endian bytes.
abbrev pub rule_to : ℕ → ℕ → ℕ → ℕ → List Expr
rule_to ip port a target =
    meta_nf_proto
    ∷ cmp_eq (2 ∷ [])
    ∷ daddr
    ∷ cmp_eq ((ip / 16777216 % 256) ∷ (ip / 65536 % 256) ∷ (ip / 256 % 256) ∷ (ip % 256) ∷ [])
    ∷ tcp_dport
    ∷ cmp_eq ((port / 256 % 256) ∷ (port % 256) ∷ [])
    ∷ immediate ((a / 16777216 % 256) ∷ (a / 65536 % 256) ∷ (a / 256 % 256) ∷ (a % 256) ∷ []) 1
    ∷ immediate ((target / 256 % 256) ∷ (target % 256) ∷ []) 2
    ∷ dnat
    ∷ []

backend_rules-Has :
    (chain : Text) (ms : Matches) (a target : ℕ) (backends : List (ℕ × ℕ))
    → Has (a, target) backends
    → Has (exprs_of (dnat_rule chain ms a target)) (backend_rules chain ms backends)
backend_rules-Has chain ms a target [] h = elim h [ ]
backend_rules-Has chain ms a target ((ip, port) ∷ backends) (inl e) =
    inl (ap (λ (t : ℕ × ℕ). exprs_of (dnat_rule chain ms t.0 t.1)) e)
backend_rules-Has chain ms a target ((ip, port) ∷ backends) (inr h) =
    inr (backend_rules-Has chain ms a target backends h)

pub add_dnat-IsRouted :
    (k : Kernel)
    → Accepts k
    → (ip port a target : ℕ) (backends : List (ℕ × ℕ)) (e : NftEngine) → Has (a, target) backends
    → IsRouted (chain_name ip port) (rule_to ip port a target) (add_dnat k ip port backends e).0
add_dnat-IsRouted k accepts ip port a target backends e h =
    rw (add_dnat_appends k accepts ip port e backends) (
      Has-append_right (rule_to ip port a target) (rules_of (chain_name ip port) e.sent)
        (backend_rules (chain_name ip port) (service_matches ip port) backends)
        (backend_rules-Has (chain_name ip port) (service_matches ip port) a target backends h))
