-- ===== src/Net/Policies.antt =====
-- src/netmux/np_controller.rs: which pods a network policy's sets hold. A call that replaces a set in
-- the kernel is recorded with the addresses that it passes.
pub mod Unfed
mod Runs
use z8s.Base.{
  ℕ, zero, suc, ◌+◌, ◌-◌, ◌*◌, ◌/◌, ◌%◌, ◌^◌, ◌≤◌, ◌<◌, min, max, ◌≡◌, refl, sym, ap, ◌∙◌, ◌≢◌, ◌↔◌,
  ◌⊎◌, inl, inr, Bool, true, false, not, ◌&&◌, ◌||◌, Option, none, some, List, [], ◌∷◌, ◌++◌, map,
  arith, dec_lt, ltb, leb, ◌==◌, if◌then◌else◌, Bool-cases, Option-cases, unwrap_or, is_some,
  length, get_elem?, take, drop, length-append, any, all, All, All-append,
}
use z8s.Base.Text.{Text, codes, text_eq}
use z8s.Base.Dict
use z8s.Base.Dict.{Dict}
use z8s.Base.Numbers.{decimal}
use z8s.Net.Nft.{
  Kernel, NftEngine, Nft, create_set, replace_set, add_forward_allow, add_forward_deny,
  add_forward_allow_set_src,
}
use z8s.Resource.{
  LabelSelector, LabelSelectorRequirement, IpBlock, PolicyPeer, PolicyRule, NetworkPolicySpec,
  NetworkPolicy,
}

pub record PolicySet : Type 0 where
  pub ip_addrs : List ℕ
  pub pod_selector : Option LabelSelector
  pub namespace_selector : Option LabelSelector

abbrev contains_text : Text → List Text → Bool
contains_text v values = any (λ w. text_eq w v) values

abbrev is_value : Option Text → Text → Bool
is_value none v = false
is_value (some w) v = text_eq w v

abbrev all_labels : Dict Text → Dict Text → Bool
all_labels pod_labels [] = true
all_labels pod_labels ((k, v) ∷ match_labels) =
    is_value (Dict.get k pod_labels) v && all_labels pod_labels match_labels

abbrev in_values : Option (List Text) → Option Text → Bool
in_values (some values) (some v) = contains_text v values
in_values (some values) none = false
in_values none v = false

abbrev not_in_values : Option (List Text) → Option Text → Bool
not_in_values (some values) (some v) = not (contains_text v values)
not_in_values (some values) none = true
not_in_values none v = true

-- One expression of a selector.
abbrev pub expression_matches : Dict Text → LabelSelectorRequirement → Bool
expression_matches pod_labels expr =
    let pod_val = Dict.get expr.key pod_labels in
    if text_eq expr.operator (codes "In")
    then in_values expr.values pod_val
    else if text_eq expr.operator (codes "NotIn")
    then not_in_values expr.values pod_val
    else if text_eq expr.operator (codes "Exists")
    then is_some pod_val
    else if text_eq expr.operator (codes "DoesNotExist")
    then not (is_some pod_val)
    else false

-- `labels_match_selector`.
unfoldable pub labels_match_selector : Dict Text → LabelSelector → Bool
labels_match_selector pod_labels sel =
    all_labels pod_labels (unwrap_or sel.match_labels [])
    && all (expression_matches pod_labels) (unwrap_or sel.match_expressions [])

-- A set without a pod selector takes every pod.
abbrev pub selects : Dict Text → Option LabelSelector → Bool
selects pod_labels none = true
selects pod_labels (some sel) = labels_match_selector pod_labels sel

abbrev pub has_ip : ℕ → List ℕ → Bool
has_ip ip ips = any (λ i. i == ip) ips

-- The sets, and the names and addresses that `replace_set` is called with.
abbrev pub Updated : Type 0
Updated = Dict PolicySet × List (Text × List ℕ)

-- `update_pod`.
unfoldable pub update_pod : ℕ → Dict Text → Dict PolicySet → Updated
update_pod pod_ip labels [] = ([], [])
update_pod pod_ip labels ((n, ps) ∷ sets) =
    let rest = update_pod pod_ip labels sets in
    let ips = ps.ip_addrs ++ (pod_ip ∷ []) in
    if selects labels ps.pod_selector && not (has_ip pod_ip ps.ip_addrs)
    then ((n, record ps { ip_addrs = ips }) ∷ rest.0, (n, ips) ∷ rest.1)
    else ((n, ps) ∷ rest.0, rest.1)

-- `Vec::remove` at the first position of the address.
unfoldable pub remove_ip : ℕ → List ℕ → List ℕ
remove_ip ip [] = []
remove_ip ip (i ∷ ips) = let rest = remove_ip ip ips in if i == ip then ips else i ∷ rest

-- `remove_pod`.
unfoldable pub remove_pod : ℕ → Dict PolicySet → Updated
unfolding remove_ip
remove_pod pod_ip [] = ([], [])
remove_pod pod_ip ((n, ps) ∷ sets) =
    let rest = remove_pod pod_ip sets in
    let ips = remove_ip pod_ip ps.ip_addrs in
    if has_ip pod_ip ps.ip_addrs
    then ((n, record ps { ip_addrs = ips }) ∷ rest.0, (n, ips) ∷ rest.1)
    else ((n, ps) ∷ rest.0, rest.1)

pub record NetworkPolicyController : Type 0 where
  pub sets : Dict PolicySet
  pub nft : NftEngine

-- `NetworkPolicyController::new`: the engine is shared, and there are no sets.
abbrev pub new : NftEngine → NetworkPolicyController
new nft = record { sets = []; nft = nft }

-- `{ns}:{name}:{idx}` behind a prefix.
abbrev pub set_name : Text → Text → Text → ℕ → Text
set_name prefix ns name idx = prefix ++ (ns ++ (b':' ∷ (name ++ (b':' ∷ decimal idx))))

abbrev any_network : Text
any_network = codes "0.0.0.0/0"

-- An operation of the controller, and whether its result is `Ok`.
abbrev pub Control : Type 0
Control = NetworkPolicyController → NetworkPolicyController × Bool

abbrev pub onward : Control → NetworkPolicyController × Bool → NetworkPolicyController × Bool
onward n (c, true) = n c
onward n (c, false) = (c, false)

infixl 5 ◌>>◌
abbrev pub ◌>>◌ : Control → Control → Control
◌>>◌ m n c = onward n (m c)

abbrev pub through : Nft → Control
through n c = let (e, done) = n c.nft in (record c { nft = e }, done)

-- `entry(name).or_insert_with(…)`.
abbrev pub or_insert : Text → PolicySet → Option PolicySet → Dict PolicySet → Dict PolicySet
or_insert n ps none sets = Dict.put n ps sets
or_insert n ps (some old) sets = sets

abbrev pub enter : Text → PolicySet → Control
enter n ps c = (record c { sets = or_insert n ps (Dict.get n c.sets) c.sets }, true)

module _ (k : Kernel) where
  -- `create_policy_set`.
  unfoldable pub create_policy_set : Text → LabelSelector → Control
  create_policy_set n ps = through (create_set k n [])

  abbrev pub apply_pods : Text → Text → ℕ → Option LabelSelector → Control
  apply_pods ns name idx none c = (c, true)
  apply_pods ns name idx (some ps) c =
      (create_policy_set (set_name (codes "np:") ns name idx) ps
          >> through (add_forward_allow_set_src k (set_name (codes "np:") ns name idx) any_network)
          >> enter (set_name (codes "np:") ns name idx)
              (record { ip_addrs = []; pod_selector = some ps; namespace_selector = none }))
        c

  abbrev pub apply_namespaces : Text → Text → ℕ → Option LabelSelector → Control
  apply_namespaces ns name idx none c = (c, true)
  apply_namespaces ns name idx (some ns_sel) c =
      (through (create_set k (set_name (codes "np:ns:") ns name idx) [])
          >> through
              (add_forward_allow_set_src k (set_name (codes "np:ns:") ns name idx) any_network)
          >> enter (set_name (codes "np:ns:") ns name idx)
              (record { ip_addrs = []; pod_selector = none; namespace_selector = some ns_sel }))
        c

  abbrev pub deny_all : List Text → Control
  deny_all [] c = (c, true)
  deny_all (except ∷ excepts) c =
      (through (add_forward_deny k except any_network) >> deny_all excepts) c

  abbrev pub apply_block : Option IpBlock → Control
  apply_block none c = (c, true)
  apply_block (some b) c =
      (through (add_forward_allow k b.cidr any_network) >> deny_all (unwrap_or b.except [])) c

  abbrev pub apply_peers : Text → Text → ℕ → List PolicyPeer → Control
  apply_peers ns name idx [] c = (c, true)
  apply_peers ns name idx (peer ∷ from) c =
      (apply_pods ns name idx peer.pod_selector
          >> apply_namespaces ns name idx peer.namespace_selector
          >> apply_block peer.ip_block
          >> apply_peers ns name idx from)
        c

  unfoldable pub apply_rules : Text → Text → ℕ → List PolicyRule → Control
  apply_rules ns name idx [] c = (c, true)
  apply_rules ns name idx (rule ∷ rules) c =
      (apply_peers ns name idx (unwrap_or rule.from []) >> apply_rules ns name (suc idx) rules) c

  abbrev pub apply_spec : Text → Text → Option NetworkPolicySpec → Control
  apply_spec ns name none c = (c, true)
  apply_spec ns name (some spec) c = apply_rules ns name 0 (unwrap_or spec.ingress []) c

  -- `apply_network_policy`.
  unfoldable pub apply_network_policy : NetworkPolicy → Control
  unfolding apply_rules
  apply_network_policy np =
      apply_spec (unwrap_or np.metadata.namespace (codes "default"))
        (unwrap_or np.metadata.name (codes "unknown")) np.spec

  abbrev pub replace_all : List (Text × List ℕ) → NftEngine → NftEngine
  replace_all [] e = e
  replace_all ((n, ips) ∷ calls) e = replace_all calls (replace_set k n ips e).0

  -- `on_apply` of src/components/network/networkpolicy.rs: the controller, and with it its sets, is
  -- dropped at the end.
  unfoldable pub on_apply : NetworkPolicy → Nft
  unfolding apply_network_policy
  on_apply np e = let (c, done) = apply_network_policy np (new e) in (c.nft, done)

  -- What `reconcile` of src/components/compute/pod.rs does for the policies of a running pod: it
  -- makes a controller, hands the pod to it and drops it.
  unfoldable pub update_policies : ℕ → Dict Text → NftEngine → NftEngine
  unfolding update_pod
  update_policies pod_ip labels e = replace_all (update_pod pod_ip labels (new e).sets).1 e

  -- The same in `on_delete`.
  unfoldable pub remove_policies : ℕ → NftEngine → NftEngine
  unfolding remove_pod
  remove_policies pod_ip e = replace_all (remove_pod pod_ip (new e).sets).1 e
