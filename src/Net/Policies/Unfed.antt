-- ===== src/Net/Policies/Unfed.antt =====
-- src/components/network/networkpolicy.rs and the calls of src/components/compute/pod.rs: every call
-- makes a controller of its own.
use z8s.Base.{
  ℕ, suc, ◌≡◌, refl, ap, ◌∙◌, Bool, true, false, Option, none, some, List, [], ◌∷◌, ◌++◌, unwrap_or,
}
use z8s.Base.Text.{Text, codes}
use z8s.Base.Dict.{Dict}
use z8s.Net.Nft.{
  Kernel, NftEngine, Batch, Message, Expr, add_set, add_elements, add_rule, filter_table, nsg_rules,
  snetwork, dnetwork, accept, lookup, send, with_network, create_set, add_forward_allow,
  add_forward_deny, add_forward_allow_set_src,
}
use z8s.Resource.{LabelSelector, IpBlock, PolicyPeer, PolicyRule, NetworkPolicySpec, NetworkPolicy}
use z8s.Net.Policies.{
  NetworkPolicyController, Control, onward, ◌>>◌, through, enter, set_name, any_network,
  create_policy_set, apply_pods, apply_namespaces, deny_all, apply_block, apply_peers, apply_rules,
  apply_spec, apply_network_policy, on_apply, update_policies, remove_policies, new,
}

abbrev pub put_in : Message → List ℕ → List ℕ
put_in (add_elements table set ips) rest = ips ++ rest
put_in _ rest = rest

abbrev pub put_by : Batch → List ℕ → List ℕ
put_by [] rest = rest
put_by (m ∷ ms) rest = put_in m (put_by ms rest)

-- The addresses that were put into the kernel's sets.
unfoldable pub addresses : List Batch → List ℕ
addresses [] = []
addresses (b ∷ bs) = put_by b (addresses bs)

-- A batch that puts no address into a set.
IsEmpty : Batch → Type 0
IsEmpty b = (rest : List ℕ) → put_by b rest ≡ rest

addresses-append :
    (bs : List Batch) (b : Batch) → IsEmpty b → addresses (bs ++ (b ∷ [])) ≡ addresses bs
unfolding addresses IsEmpty
addresses-append [] b h = h []
addresses-append (c ∷ bs) b h = ap (put_by c) (addresses-append bs b h)

-- An operation that puts no address into a set.
abbrev Feeds : NftEngine → NftEngine → Type 0
Feeds e d = addresses d.sent ≡ addresses e.sent

abbrev FeedsNone : Control → Type 0
FeedsNone m = (c : NetworkPolicyController) → Feeds c.nft (m c).0.nft

>>-FeedsNone : (m n : Control) → FeedsNone m → FeedsNone n → FeedsNone (m >> n)
>>-FeedsNone m n p q c = after (m c) (p c)
  where
    after :
        (r : NetworkPolicyController × Bool) → Feeds c.nft r.0.nft → Feeds c.nft (onward n r).0.nft
    after (d, true) p = q d ∙ p
    after (d, false) p = p

-- What happens to policies and pods.
pub data Event : Type 0 where
  policy_applied : NetworkPolicy → Event
  pod_running : ℕ → Dict Text → Event
  pod_deleted : ℕ → Event

module _ (k : Kernel) where
  send-Feeds : (b : Batch) (e : NftEngine) → IsEmpty b → Feeds e (send k b e).0
  unfolding send
  send-Feeds b e h = addresses-append e.sent b h

  create-Feeds : (n : Text) (e : NftEngine) → Feeds e (create_set k n [] e).0
  unfolding create_set IsEmpty
  create-Feeds n e =
      send-Feeds (add_set filter_table n ∷ add_elements filter_table n [] ∷ []) e (λ rest. refl)

  set_src-Feeds :
      (net : Option (ℕ × ℕ)) (n : Text) (e : NftEngine)
      → Feeds e
          (with_network k net
            (λ dst.
              send k (add_rule filter_table nsg_rules (lookup n ∷ dnetwork dst ∷ accept ∷ []) ∷ []))
            e).0
  unfolding IsEmpty
  set_src-Feeds none n e = refl
  set_src-Feeds (some dst) n e =
      send-Feeds (add_rule filter_table nsg_rules (lookup n ∷ dnetwork dst ∷ accept ∷ []) ∷ []) e
        (λ rest. refl)

  rule-Feeds :
      (verdict : Expr) (src dst : Option (ℕ × ℕ)) (e : NftEngine)
      → Feeds e
          (with_network k src
            (λ s. with_network k dst (λ d.
              send k
                (add_rule filter_table nsg_rules (snetwork s ∷ dnetwork d ∷ verdict ∷ []) ∷ [])))
            e).0
  unfolding IsEmpty
  rule-Feeds verdict none dst e = refl
  rule-Feeds verdict (some s) none e = refl
  rule-Feeds verdict (some s) (some d) e =
      send-Feeds (add_rule filter_table nsg_rules (snetwork s ∷ dnetwork d ∷ verdict ∷ []) ∷ []) e
        (λ rest. refl)

  set_src-FeedsNone : (n : Text) → FeedsNone (through (add_forward_allow_set_src k n any_network))
  unfolding add_forward_allow_set_src
  set_src-FeedsNone n c = set_src-Feeds (k.parse_network any_network) n c.nft

  apply_pods-FeedsNone :
      (ns name : Text) (idx : ℕ) (sel : Option LabelSelector)
      → FeedsNone (apply_pods k ns name idx sel)
  unfolding create_policy_set
  apply_pods-FeedsNone ns name idx none = λ c. refl
  apply_pods-FeedsNone ns name idx (some ps) =
      let n = set_name (codes "np:") ns name idx in
      let ent =
        enter n (record { ip_addrs = []; pod_selector = some ps; namespace_selector = none }) in
      >>-FeedsNone (create_policy_set k n ps >> through (add_forward_allow_set_src k n any_network))
        ent
        (>>-FeedsNone (create_policy_set k n ps)
          (through (add_forward_allow_set_src k n any_network)) (λ c. create-Feeds n c.nft)
          (set_src-FeedsNone n))
        (λ c. refl)

  apply_namespaces-FeedsNone :
      (ns name : Text) (idx : ℕ) (sel : Option LabelSelector)
      → FeedsNone (apply_namespaces k ns name idx sel)
  apply_namespaces-FeedsNone ns name idx none = λ c. refl
  apply_namespaces-FeedsNone ns name idx (some sel) =
      let n = set_name (codes "np:ns:") ns name idx in
      let ent =
        enter n (record { ip_addrs = []; pod_selector = none; namespace_selector = some sel }) in
      >>-FeedsNone
        (through (create_set k n []) >> through (add_forward_allow_set_src k n any_network)) ent
        (>>-FeedsNone (through (create_set k n []))
          (through (add_forward_allow_set_src k n any_network)) (λ c. create-Feeds n c.nft)
          (set_src-FeedsNone n))
        (λ c. refl)

  deny_all-FeedsNone : (excepts : List Text) → FeedsNone (deny_all k excepts)
  unfolding add_forward_deny
  deny_all-FeedsNone [] = λ c. refl
  deny_all-FeedsNone (x ∷ excepts) =
      >>-FeedsNone (through (add_forward_deny k x any_network)) (deny_all k excepts)
        (λ c. rule-Feeds Expr.drop (k.parse_network x) (k.parse_network any_network) c.nft)
        (deny_all-FeedsNone excepts)

  apply_block-FeedsNone : (b : Option IpBlock) → FeedsNone (apply_block k b)
  unfolding add_forward_allow
  apply_block-FeedsNone none = λ c. refl
  apply_block-FeedsNone (some b) =
      >>-FeedsNone (through (add_forward_allow k b.cidr any_network))
        (deny_all k (unwrap_or b.except []))
        (λ c. rule-Feeds accept (k.parse_network b.cidr) (k.parse_network any_network) c.nft)
        (deny_all-FeedsNone (unwrap_or b.except []))

  apply_peers-FeedsNone :
      (ns name : Text) (idx : ℕ) (from : List PolicyPeer)
      → FeedsNone (apply_peers k ns name idx from)
  apply_peers-FeedsNone ns name idx [] = λ c. refl
  apply_peers-FeedsNone ns name idx (peer ∷ from) =
      let pods = apply_pods k ns name idx peer.pod_selector in
      let spaces = apply_namespaces k ns name idx peer.namespace_selector in
      >>-FeedsNone (pods >> spaces >> apply_block k peer.ip_block) (apply_peers k ns name idx from)
        (>>-FeedsNone (pods >> spaces) (apply_block k peer.ip_block)
          (>>-FeedsNone pods spaces (apply_pods-FeedsNone ns name idx peer.pod_selector)
            (apply_namespaces-FeedsNone ns name idx peer.namespace_selector))
          (apply_block-FeedsNone peer.ip_block))
        (apply_peers-FeedsNone ns name idx from)

  apply_rules-FeedsNone :
      (ns name : Text) (idx : ℕ) (rules : List PolicyRule)
      → FeedsNone (apply_rules k ns name idx rules)
  unfolding apply_rules
  apply_rules-FeedsNone ns name idx [] = λ c. refl
  apply_rules-FeedsNone ns name idx (rule ∷ rules) =
      >>-FeedsNone (apply_peers k ns name idx (unwrap_or rule.from []))
        (apply_rules k ns name (suc idx) rules)
        (apply_peers-FeedsNone ns name idx (unwrap_or rule.from []))
        (apply_rules-FeedsNone ns name (suc idx) rules)

  apply_spec-FeedsNone :
      (ns name : Text) (spec : Option NetworkPolicySpec) → FeedsNone (apply_spec k ns name spec)
  apply_spec-FeedsNone ns name none = λ c. refl
  apply_spec-FeedsNone ns name (some spec) =
      apply_rules-FeedsNone ns name 0 (unwrap_or spec.ingress [])

  abbrev pub react : Event → NftEngine → NftEngine
  react (policy_applied np) e = (on_apply k np e).0
  react (pod_running ip labels) e = update_policies k ip labels e
  react (pod_deleted ip) e = remove_policies k ip e

  abbrev pub react_all : List Event → NftEngine → NftEngine
  react_all [] e = e
  react_all (ev ∷ evs) e = react_all evs (react ev e)

  react-Feeds : (ev : Event) (e : NftEngine) → Feeds e (react ev e)
  unfolding on_apply apply_network_policy update_policies remove_policies
  react-Feeds (policy_applied np) e =
      apply_spec-FeedsNone (unwrap_or np.metadata.namespace (codes "default"))
        (unwrap_or np.metadata.name (codes "unknown")) np.spec (new e)
  react-Feeds (pod_running ip labels) e = refl
  react-Feeds (pod_deleted ip) e = refl

  -- Since every call makes a controller without sets, no pod ever gets into the set of a policy:
  -- whatever policies are applied and whatever pods run or are deleted, in any order, the addresses
  -- that were put into the kernel's sets are those from before.
  pub policies_stay_empty :
      (evs : List Event) (e : NftEngine) → addresses (react_all evs e).sent ≡ addresses e.sent
  policies_stay_empty [] e = refl
  policies_stay_empty (ev ∷ evs) e = policies_stay_empty evs (react ev e) ∙ react-Feeds ev e
