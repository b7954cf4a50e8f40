-- ===== src/Net/Policies/Runs.antt =====
-- A concrete run of a network policy's set, and the theorem at a concrete input.
use z8s.Base.{◌≡◌, refl, true, none, some, List, [], ◌∷◌}
use z8s.Base.Text.{Text, codes, text_eq}
use z8s.Base.Dict
use z8s.Base.Dict.{Dict}
use z8s.Resource.{LabelSelector}
use z8s.Net.Policies.{PolicySet, labels_match_selector}
use z8s.Net.Nft.{Kernel, done, NftEngine}
use z8s.Net.Nft
use z8s.Resource.{NetworkPolicy}
use z8s.Net.Policies.Unfed.{
  addresses, policy_applied, pod_running, pod_deleted, react_all, policies_stay_empty,
}
use z8s.Net.Policies.Unfed

abbrev web_only : LabelSelector
web_only = record {
  match_labels = some ((codes "app", codes "web") ∷ []);
  match_expressions = some (
      record { key = codes "tier"; operator = codes "NotIn"; values = some (codes "test" ∷ []) }
      ∷ []);
}

abbrev set_of_web : PolicySet
set_of_web = record { ip_addrs = []; pod_selector = some web_only; namespace_selector = none }

abbrev sets : Dict PolicySet
sets = (codes "np:default:web:0", set_of_web) ∷ []

abbrev web_labels : Dict Text
web_labels = (codes "app", codes "web") ∷ []

web_selected : labels_match_selector web_labels web_only ≡ true
unfolding labels_match_selector Dict.get text_eq
web_selected = refl

there : Dict.get (codes "np:default:web:0") sets ≡ some set_of_web
unfolding Dict.get text_eq
there = refl

abbrev kernel : Kernel
kernel = record { answer = λ h b. done; parse_network = λ s. some (0, 0) }

abbrev from_web : NetworkPolicy
from_web = record {
  metadata = record {
    name = some (codes "web");
    namespace = none;
    uid = none;
    labels = none;
    owner_references = none;
  };
  spec = some (record {
    ingress = some (
        record {
          from = some (
              record { pod_selector = some web_only; namespace_selector = none; ip_block = none }
              ∷ []);
        }
        ∷ []);
  });
}

abbrev course : List Unfed.Event
course = policy_applied from_web ∷ pod_running 7 web_labels ∷ pod_deleted 7 ∷ []

policies_stay_empty_example : addresses (react_all kernel course Nft.new).sent ≡ addresses []
policies_stay_empty_example = policies_stay_empty kernel course Nft.new
