-- ===== src/Net/Nft/Jumps/Once.antt =====
-- src/netmux/nftables.rs: while no service is removed, each is jumped to once from each hook.
use z8s.Base.{
  ℕ, ◌+◌, ◌<◌, ◌≤◌, ◌≡◌, ◌≢◌, refl, sym, ◌==◌, Bool, true, false, none, some, List, [], ◌∷◌, ◌++◌,
  arith, any, if◌then◌else◌, Bool-cases, inl, inr, ◌^◌, Option,
}
use z8s.Base.Text.{Text, text_eq, text_eq_iff}
use z8s.Net.Nft.{
  Kernel, Batch, NftEngine, new, send, add_dnat, add_nodeport_dnat, remove_nodeport_dnat,
  add_forward_allow, add_forward_deny, reset_nsg_rules, create_set, track_service, track_nodeport,
  update_dnat_chain, chain_name, nodeport_chain, is_pair, Nft, then_run, service_matches,
  nodeport_matches, Matches, add_set, filter_table, add_elements, Expr, retain_ports, del_chain,
  nat_table, with_network, add_chain, add_rule, nsg_rules, accept, snetwork, dnetwork,
}
use z8s.Net.Nft.Jumps.{
  jumps, Quiet, send-Quiet, update_dnat_chain-Quiet, add_jump_rules-jumps, add_jump_rules-track,
  jumps_in,
}
use z8s.Net.Nft.Names.{chain_name-eq_iff, chain_name-ne}

-- What the engine does while services, node ports and security rules come and go, but no service
-- address is removed.
pub data Step (k : Kernel) : NftEngine → NftEngine → Type 0 where
  sync :
      (e : NftEngine) (ip port : ℕ) (backends : List (ℕ × ℕ))
      → ip < 2 ^ 32
      → port < 2 ^ 16
      → Step k e (add_dnat k ip port backends e).0
  sync_nodeport :
      (e : NftEngine) (node_port : ℕ) (backends : List (ℕ × ℕ))
      → Step k e (add_nodeport_dnat k node_port backends e).0
  stop_nodeport : (e : NftEngine) (node_port : ℕ) → Step k e (remove_nodeport_dnat k node_port e).0
  reset : (e : NftEngine) → Step k e (reset_nsg_rules k e).0
  allow : (e : NftEngine) (src dst : Text) → Step k e (add_forward_allow k src dst e).0
  deny : (e : NftEngine) (src dst : Text) → Step k e (add_forward_deny k src dst e).0
  fill_set : (e : NftEngine) (name : Text) (ips : List ℕ) → Step k e (create_set k name ips e).0

pub data Reach (k : Kernel) (e : NftEngine) : NftEngine → Type 0 where
  here : Reach k e e
  next : {d f : NftEngine} → Reach k e d → Step k d f → Reach k e f

-- Every service has at most one jump from each hook, and none before it is tracked.
abbrev pub Once : NftEngine → Type 0
Once e =
    (ip port : ℕ) (h : Text)
    → ip < 2 ^ 32
    → port < 2 ^ 16
    → jumps (chain_name ip port) h e.sent ≤ (if any (is_pair ip port) e.jump_track then 1 else 0)

Quiet-Once :
    (e d : NftEngine)
    → ((ip port : ℕ) (h : Text) → Quiet (chain_name ip port) h e d)
    → Once e
    → Once d
Quiet-Once e d q o ip port h hi hp =
    rw ((q ip port h).same_jumps, (q ip port h).same_track) (o ip port h hi hp)

any-append :
    (ip port : ℕ) (t : ℕ × ℕ) (track : List (ℕ × ℕ))
    → any (is_pair ip port) (track ++ (t ∷ []))
      ≡ (if is_pair ip port t then true else any (is_pair ip port) track)
any-append ip port t [] = ground arith
any-append ip port (i, p) ((j, q) ∷ track) = ground (arith, any-append ip port (i, p) track)

-- One jump more for the service that becomes tracked, and none for the others.
tracked :
    (ip port : ℕ) (e : NftEngine)
    → ip < 2 ^ 32
    → port < 2 ^ 16
    → any (is_pair ip port) e.jump_track ≡ false
    → Once e
    → (i p : ℕ) (h : Text) → i < 2 ^ 32
    → p < 2 ^ 16
    → jumps (chain_name i p) h e.sent
        + (if text_eq (chain_name ip port) (chain_name i p) then 1 else 0)
      ≤ (if any (is_pair i p) (e.jump_track ++ ((ip, port) ∷ [])) then 1 else 0)
tracked ip port e hi hp un o i p h hi' hp' =
    rw (any-append i p (ip, port) e.jump_track) (elim (Bool-cases (is_pair i p (ip, port))) [
      | inl same ↦
          let ei : ip ≡ i = ground arith in
          let ep : port ≡ p = ground arith in
          let un' : any (is_pair i p) e.jump_track ≡ false = rw (ei, ep) at un in
          ground (arith, o i p h hi' hp')
      | inr other ↦ ground (
        arith,
        other,
        o i p h hi' hp',
        text_eq_iff (chain_name ip port) (chain_name i p),
        chain_name-eq_iff ip i port p hi hi' hp hp',
      )
    ])

track_service-Once :
    (k : Kernel) (ip port : ℕ) (e : NftEngine)
    → ip < 2 ^ 32
    → port < 2 ^ 16
    → Once e
    → Once (track_service k ip port e).0
unfolding track_service
track_service-Once k ip port e hi hp o i p h hi' hp' =
    elim (Bool-cases (any (is_pair ip port) e.jump_track)) [
      | inl old ↦ rw old (o i p h hi' hp')
      | inr un ↦
          rw
            (
              un,
              add_jump_rules-track k (chain_name i p) h (chain_name ip port)
                  (record e { jump_track = e.jump_track ++ ((ip, port) ∷ []) }),
            )
            (omega (
              arith,
              add_jump_rules-jumps k (chain_name i p) h (chain_name ip port)
                  (record e { jump_track = e.jump_track ++ ((ip, port) ∷ []) }),
              tracked ip port e hi hp un o i p h hi' hp',
            ))
    ]

sym-ne : (ip port node_port : ℕ) → nodeport_chain node_port ≢ chain_name ip port
sym-ne ip port node_port e = chain_name-ne ip port node_port (sym e)

module _ (k : Kernel) where
  -- The end of an operation that begins with quiet batches.
  then_run-Once :
      (n : Nft) (e : NftEngine) (r : NftEngine × Bool)
      → Once r.0
      → ((d : NftEngine) → Once d → Once (n d).0)
      → Once (then_run n r).0
  then_run-Once n e (d, true) o q = q d o
  then_run-Once n e (d, false) o q = o

  update-Once :
      (chain : Text) (backends : List (ℕ × ℕ)) (ms : Matches) (e : NftEngine)
      → Once e
      → Once (update_dnat_chain k chain backends ms e).0
  update-Once chain backends ms e =
      Quiet-Once e (update_dnat_chain k chain backends ms e).0
        (λ ip port h. update_dnat_chain-Quiet k (chain_name ip port) h chain ms backends e)

  track_nodeport-Once :
      (node_port : ℕ) (e : NftEngine) → Once e → Once (track_nodeport k node_port e).0
  unfolding track_nodeport
  track_nodeport-Once node_port e o ip port h hi hp =
      let chain = nodeport_chain node_port in
      let d : NftEngine = record e {
        nodeport_jump_track = e.nodeport_jump_track ++ (node_port ∷ []);
      } in
      elim (Bool-cases (any (λ p. p == node_port) e.nodeport_jump_track)) [
        | inl old ↦ rw old (o ip port h hi hp)
        | inr un ↦
            rw (un, add_jump_rules-track k (chain_name ip port) h chain d)
              (ground (
                arith,
                add_jump_rules-jumps k (chain_name ip port) h chain d,
                o ip port h hi hp,
                text_eq_iff chain (chain_name ip port),
                sym-ne ip port node_port,
              ))
      ]

  send-Once :
      (b : Batch) (e : NftEngine)
      → ((svc h : Text) → jumps_in svc h b ≡ 0)
      → Once e
      → Once (send k b e).0
  send-Once b e z =
      Quiet-Once e (send k b e).0
        (λ ip port h. send-Quiet k (chain_name ip port) h b e (z (chain_name ip port) h))

  rule-Once :
      (verdict : Expr) (src dst : Option (ℕ × ℕ)) (e : NftEngine)
      → Once e
      → Once
          (with_network k src
            (λ s. with_network k dst (λ d.
              send k
                (add_rule filter_table nsg_rules (snetwork s ∷ dnetwork d ∷ verdict ∷ []) ∷ [])))
            e).0
  rule-Once verdict none dst e o = o
  rule-Once verdict (some s) none e o = o
  rule-Once verdict (some s) (some d) e o =
      send-Once (add_rule filter_table nsg_rules (snetwork s ∷ dnetwork d ∷ verdict ∷ []) ∷ []) e
        (λ svc h. refl) o

  Step-Once : {d e : NftEngine} → Step k d e → Once d → Once e
  unfolding add_dnat add_nodeport_dnat remove_nodeport_dnat reset_nsg_rules create_set
      add_forward_allow add_forward_deny
  Step-Once (sync e ip port backends hi hp) o =
      then_run-Once (track_service k ip port) e
        (update_dnat_chain k (chain_name ip port) backends (service_matches ip port) e)
        (update-Once (chain_name ip port) backends (service_matches ip port) e o)
        (λ d. track_service-Once k ip port d hi hp)
  Step-Once (sync_nodeport e node_port []) o = o
  Step-Once (sync_nodeport e node_port (b ∷ backends)) o =
      then_run-Once (track_nodeport k node_port) e
        (update_dnat_chain k (nodeport_chain node_port) (b ∷ backends) (nodeport_matches node_port)
          e)
        (update-Once (nodeport_chain node_port) (b ∷ backends) (nodeport_matches node_port) e o)
        (track_nodeport-Once node_port)
  Step-Once (stop_nodeport e node_port) o =
      then_run-Once
        (λ d.
          (record d { nodeport_jump_track = retain_ports node_port d.nodeport_jump_track }, true))
        e (send k (del_chain nat_table (nodeport_chain node_port) ∷ []) e)
        (send-Once (del_chain nat_table (nodeport_chain node_port) ∷ []) e (λ svc h. refl) o)
        (λ d o'. o')
  Step-Once (reset e) o =
      then_run-Once (send k (add_chain filter_table nsg_rules ∷ [])) e
        (send k (del_chain filter_table nsg_rules ∷ []) e)
        (send-Once (del_chain filter_table nsg_rules ∷ []) e (λ svc h. refl) o)
        (λ d. send-Once (add_chain filter_table nsg_rules ∷ []) d (λ svc h. refl))
  Step-Once (allow e src dst) o = rule-Once accept (k.parse_network src) (k.parse_network dst) e o
  Step-Once (deny e src dst) o = rule-Once Expr.drop (k.parse_network src) (k.parse_network dst) e o
  Step-Once (fill_set e name ips) o =
      send-Once (add_set filter_table name ∷ add_elements filter_table name ips ∷ []) e
        (λ svc h. refl) o

  -- Whatever the kernel answers, and however often services and node ports are synced, node ports
  -- stopped, security rules reset or added and sets filled, in any order from a new engine: for
  -- every service address below 2^32 and port below 2^16, at most one jump rule from each hook to
  -- its chain has been sent, and none before the service is tracked.
  pub Reach-Once : {e : NftEngine} → Reach k new e → Once e
  Reach-Once here = start
    where
      start : Once new
      start ip port h hi hp = unfold jumps in omega arith
  Reach-Once (next r s) = Step-Once s (Reach-Once r)
