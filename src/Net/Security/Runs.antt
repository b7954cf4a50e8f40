-- ===== src/Net/Security/Runs.antt =====
-- `apply_nsg` of src/netmux/mod.rs: a group of two rules, and one with a misspelt network.
use z8s.Base.{
  ℕ, ◌-◌, ◌/◌, ◌%◌, ◌^◌, ◌≡◌, refl, Bool, true, false, Option, none, some, List, [], ◌∷◌, arith,
  ◌==◌, if◌then◌else◌, unwrap_or, All, ◌++◌, map, inl,
}
use z8s.Base.Text.{Text, codes, text_eq}
use z8s.Net.Nft.{Kernel, Batch, done, is_ok, new, del_chain, add_chain, filter_table, nsg_rules}
use z8s.Net.Nft.Sent.{Accepts, after}
use z8s.Resource.{Nsg, NsgRule}
use z8s.Net.Security.{any_network, sort_by_priority, apply_nsg}
use z8s.Net.Security.Verdicts.{IsReadable, verdict, said, best, all_batches, pair_batch}
use z8s.Net.Security.Ports.{any_ports}
use z8s.Net.Security.Whitelist.{apply_nsg_whitelist}
use z8s.Net.Security.Sending.{expr_of}
use z8s.Net.Security.Malformed.{apply_nsg_malformed}

abbrev read : Text → Option (ℕ × ℕ)
read c =
    if text_eq c any_network
    then some (0, 0)
    else if text_eq c (codes "10.42.0.0/20")
    then some (170524672, 20)
    else none

abbrev kernel : Kernel
kernel = record { answer = λ h b. done; parse_network = read }

kernel-Accepts : Accepts kernel
unfolding is_ok
kernel-Accepts h b = refl

abbrev covers : ℕ × ℕ → ℕ → Bool
covers n a = a % 2 ^ 32 / 2 ^ (32 - n.1) == n.0 / 2 ^ (32 - n.1)

covers_all : (a : ℕ) → covers (0, 0) a ≡ true
covers_all a = ground arith

abbrev rule : Text → Text → Text → ℕ → NsgRule
rule action src dst priority = record {
  name = action;
  action = action;
  src_cidrs = src ∷ [];
  dst_cidrs = dst ∷ [];
  ports = codes "5432" ∷ [];
  protocol = codes "tcp";
  priority = priority;
}

abbrev pods : Text
pods = codes "10.42.0.0/20"

abbrev deny_pods : NsgRule
deny_pods = rule (codes "deny") pods pods 200

abbrev allow_pods : NsgRule
allow_pods = rule (codes "allow") pods any_network 100

abbrev misspelt : NsgRule
misspelt = record {
  name = codes "allow";
  action = codes "allow";
  src_cidrs = codes "10.42.0.0/20" ∷ codes "10.42.0/20" ∷ [];
  dst_cidrs = any_network ∷ [];
  ports = [];
  protocol = [];
  priority = 150;
}

abbrev group_of : List NsgRule → Nsg
group_of rules = record {
  metadata = record {
    name = some (codes "group");
    namespace = none;
    uid = none;
    labels = none;
    owner_references = none;
  };
  spec = record { target_vnets = []; rules = rules };
}

two_rules-IsReadable : All (IsReadable kernel covers) (deny_pods ∷ allow_pods ∷ [])
unfolding text_eq
two_rules-IsReadable = (((refl, tt), (refl, tt)), (((refl, tt), (refl, tt)), tt))

apply_nsg_whitelist_example :
    (fresh : List Batch) × (apply_nsg kernel (group_of (deny_pods ∷ allow_pods ∷ [])) new ≡ (
      after new (
          (del_chain filter_table nsg_rules ∷ [])
          ∷ (add_chain filter_table nsg_rules ∷ [])
          ∷ fresh),
      true,
    ))
    × ((s d : ℕ)
        → verdict kernel covers s d fresh
          ≡ some (
              unwrap_or
                (said kernel covers s d (best kernel covers s d (deny_pods ∷ allow_pods ∷ [])))
                false))
    × (apply_nsg kernel (group_of (deny_pods ∷ allow_pods ∷ [])) new
        ≡ apply_nsg kernel (any_ports (group_of (deny_pods ∷ allow_pods ∷ []))) new)
apply_nsg_whitelist_example =
    apply_nsg_whitelist kernel covers kernel-Accepts (group_of (deny_pods ∷ allow_pods ∷ [])) new
      two_rules-IsReadable (unfold text_eq in refl) (unfold text_eq in covers_all)

apply_nsg_malformed_example :
    apply_nsg kernel (group_of (deny_pods ∷ misspelt ∷ allow_pods ∷ [])) new ≡ (
      after new (
          (del_chain filter_table nsg_rules ∷ [])
          ∷ (add_chain filter_table nsg_rules ∷ [])
          ∷ (all_batches kernel covers (allow_pods ∷ [])
              ++ map
                  (λ (q : Text × Text). pair_batch kernel covers (expr_of true) q.0 q.1)
                  ((pods, any_network) ∷ []))),
      false,
    )
apply_nsg_malformed_example =
    apply_nsg_malformed kernel covers kernel-Accepts
      (group_of (deny_pods ∷ misspelt ∷ allow_pods ∷ [])) new (allow_pods ∷ []) (deny_pods ∷ [])
      misspelt true ((pods, any_network) ∷ []) [] (codes "10.42.0/20") any_network
      (unfold sort_by_priority in refl) (two_rules-IsReadable.1.0, tt) refl refl
      (unfold text_eq in ((refl, refl), tt)) (inl (unfold text_eq in refl))
