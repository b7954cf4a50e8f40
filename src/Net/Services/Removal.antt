-- ===== src/Net/Services/Removal.antt =====
-- src/components/network/service.rs: what `remove_service` withdraws.
use z8s.Base.Numbers.{parse_uint}
use z8s.Base.{
  ℕ, ◌≡◌, refl, ap, ◌∙◌, inl, inr, Bool, true, false, ◌&&◌, ◌||◌, Option, none, some, List, [], ◌∷◌,
  arith, if◌then◌else◌, Bool-cases,
}
use z8s.Base.Text.{Text, codes, text_eq, text_eq_iff, starts_with}
use z8s.Base.Dict
use z8s.Base.Dict.{Dict, get, get-remove}
use z8s.Net.Nft.{Kernel, NftEngine, remove_dnat, send}
use z8s.Resource.{
  AnyResource, service, deployment, config_map, secret, persistent_volume, persistent_volume_claim,
  vnet, subnet, nsg, route_table, ingress, network_policy,
}
use z8s.Resource.Store.{ResourceStore, ResourceTracker}
use z8s.Net.Services.{
  NetworkManager, service_key, keys_with, withdraw, withdraw_at, withdraw_all, remove_keys,
  remove_service, addr_of, get_by_kind, namespace, cluster_ip_of, name, last_part, pod,
}

has_key : Text → List Text → Bool
has_key key [] = false
has_key key (j ∷ keys) = text_eq j key || has_key key keys

keys_with-starts :
    (key prefix : Text) (d : Dict (Unit {0}))
    → has_key key (keys_with prefix d) ≡ true
    → starts_with key prefix ≡ true
unfolding has_key
keys_with-starts key prefix [] h = absurd (ground arith)
keys_with-starts key prefix ((j, u) ∷ d) h = ground (
  arith,
  text_eq_iff j key,
  keys_with-starts key prefix d,
  λ (p : j ≡ key). ap (λ t. starts_with t prefix) p,
)

keys_with-get :
    (key prefix : Text) (d : Dict (Unit {0}))
    → (if has_key key (keys_with prefix d) then none else get key d)
      ≡ (if starts_with key prefix then none else get key d)
unfolding has_key get
keys_with-get key prefix [] = ground arith
keys_with-get key prefix ((j, u) ∷ d) = ground (
  arith,
  text_eq_iff j key,
  keys_with-get key prefix d,
  keys_with-starts key prefix d,
  λ (p : j ≡ key). ap (λ t. starts_with t prefix) p,
)

module _ (k : Kernel) (store : ResourceStore) where
  withdraw_at-nodeports :
      (ip port : Option ℕ) (e : NftEngine)
      → (withdraw_at k store ip port e).nodeport_jump_track ≡ e.nodeport_jump_track
  withdraw_at-nodeports none port e = refl
  withdraw_at-nodeports (some ip) none e = refl
  withdraw_at-nodeports (some ip) (some port) e = unfold remove_dnat send in ground arith

  withdraw-nodeports :
      (key : Text) (r : AnyResource) (e : NftEngine)
      → (withdraw k store key r e).nodeport_jump_track ≡ e.nodeport_jump_track
  withdraw-nodeports key (service svc) e =
      withdraw_at-nodeports (addr_of (cluster_ip_of svc.spec)) (parse_uint 65535 (last_part key)) e
  withdraw-nodeports key (pod r) e = refl
  withdraw-nodeports key (deployment r) e = refl
  withdraw-nodeports key (config_map r) e = refl
  withdraw-nodeports key (secret r) e = refl
  withdraw-nodeports key (persistent_volume r) e = refl
  withdraw-nodeports key (persistent_volume_claim r) e = refl
  withdraw-nodeports key (vnet r) e = refl
  withdraw-nodeports key (subnet r) e = refl
  withdraw-nodeports key (nsg r) e = refl
  withdraw-nodeports key (route_table r) e = refl
  withdraw-nodeports key (ingress r) e = refl
  withdraw-nodeports key (network_policy r) e = refl

  module _ (ns n : Text) where
    withdraw_all-nodeports :
        (key : Text) (ts : List ResourceTracker) (e : NftEngine)
        → (withdraw_all k store ns n key ts e).nodeport_jump_track ≡ e.nodeport_jump_track
    unfolding withdraw_all
    withdraw_all-nodeports key [] e = refl
    withdraw_all-nodeports key (t ∷ ts) e =
        elim (Bool-cases (text_eq (namespace t.resource) ns && text_eq (name t.resource) n)) [
          | inl same ↦
              rw (withdraw_all, same)
                (withdraw_all-nodeports key ts (withdraw k store key t.resource e)
                  ∙ withdraw-nodeports key t.resource e)
          | inr other ↦ rw (withdraw_all, other) (withdraw_all-nodeports key ts e)
        ]

    -- The state after one key.
    abbrev without : Text → NetworkManager → NetworkManager
    without key m = record m {
      proxies = Dict.remove key m.proxies;
      nft = withdraw_all k store ns n key (get_by_kind (codes "Service") store) m.nft;
    }

    get-remove_keys :
        (key : Text) (keys : List Text) (m : NetworkManager)
        → get key (remove_keys k store ns n keys m).proxies
          ≡ (if has_key key keys then none else get key m.proxies)
    unfolding remove_keys has_key
    get-remove_keys key [] m = refl
    get-remove_keys key (j ∷ keys) m =
        get-remove_keys key keys (without j m) ∙ ground (arith, get-remove j key m.proxies)

    remove_keys-nodeports :
        (keys : List Text) (m : NetworkManager)
        → (remove_keys k store ns n keys m).nft.nodeport_jump_track ≡ m.nft.nodeport_jump_track
    unfolding remove_keys
    remove_keys-nodeports [] m = refl
    remove_keys-nodeports (j ∷ keys) m =
        remove_keys-nodeports keys (without j m)
        ∙ withdraw_all-nodeports j (get_by_kind (codes "Service") store) m.nft

    -- After a service is removed, exactly the proxies are gone whose key begins with its namespace,
    -- a slash and its name; so are those of a service whose name begins with its name. The node
    -- ports that the engine tracks are left as they are.
    pub remove_service_lem :
        (m : NetworkManager)
        → ((key : Text)
            → get key (remove_service k store ns n m).proxies
              ≡ (if starts_with key (service_key ns n) then none else get key m.proxies))
          × ((remove_service k store ns n m).nft.nodeport_jump_track ≡ m.nft.nodeport_jump_track)
    unfolding remove_service
    remove_service_lem m = (
      λ key.
          get-remove_keys key (keys_with (service_key ns n) m.proxies) m
          ∙ keys_with-get key (service_key ns n) m.proxies,
      remove_keys-nodeports (keys_with (service_key ns n) m.proxies) m,
    )
