-- ===== src/Net/Services/Growth.antt =====
-- src/components/network/service.rs: no rule that was sent is taken back by a sync.
use z8s.Base.{◌&&◌, inl, inr, Option, none, some, List, [], ◌∷◌, Bool-cases, unwrap_or}
use z8s.Base.Text.{Text, codes, text_eq}
use z8s.Base.Int.{as_u16, ℤ}
use z8s.Base.Dict.{Dict}
use z8s.Net.Ipv4.{parse_addr}
use z8s.Net.Nft.{Kernel, add_dnat, add_nodeport_dnat}
use z8s.Net.Nft.Growth.{Grows, Grows-refl, Grows-trans, add_dnat-Grows, add_nodeport_dnat-Grows}
use z8s.Resource.{
  AnyResource, Service, ServiceSpec, ServicePort, pod, service, deployment, config_map, secret,
  persistent_volume, persistent_volume_claim, vnet, subnet, nsg, route_table, ingress,
  network_policy,
}
use z8s.Resource.Store.{ResourceStore, ResourceTracker}
use z8s.Scheduler.Process.{RunningContainer}
use z8s.Compute.Deployment.{labels_match}
use z8s.Net.Services.{
  NetworkManager, default_ip, is_headless, has_nodeport, publish, backends_of, bind_clusterip,
  bind_nodeport, bind_ports, sync_spec, sync_with, sync_service_proxies, service_key, sync_if,
  sync_all, selector_of, has_entries,
}

module _ (k : Kernel) (store : ResourceStore) (running : Dict RunningContainer) where
  pub bind_clusterip-Grows :
      (key : Text) (selector : Dict Text) (ns cluster_ip : Text) (p : ServicePort)
      (m : NetworkManager)
      → Grows m.nft (bind_clusterip k store running key selector ns cluster_ip p m).nft
  unfolding bind_clusterip
  bind_clusterip-Grows key selector ns cluster_ip p m = elim (Bool-cases (is_headless cluster_ip)) [
    | inl none_there ↦ rw none_there (Grows-refl m.nft)
    | inr some_there ↦ rw some_there (
        add_dnat-Grows k (unwrap_or (parse_addr cluster_ip) default_ip) (as_u16 p.port)
          (backends_of k store running selector ns p) m.nft)
  ]

  publish-Grows :
      (key : Text) (selector : Dict Text) (ns cluster_ip : Text) (p : ServicePort) (n : Option ℤ)
      (m : NetworkManager)
      → Grows m.nft (publish k store running key selector ns cluster_ip p n m).nft
  publish-Grows key selector ns cluster_ip p none m = Grows-refl m.nft
  publish-Grows key selector ns cluster_ip p (some n) m =
      let e =
        (add_dnat k (unwrap_or (parse_addr cluster_ip) default_ip) (as_u16 p.port)
          (backends_of k store running selector ns p) m.nft).0 in
      Grows-trans m.nft e
        (add_nodeport_dnat k (as_u16 n) (backends_of k store running selector ns p) e).0
        (add_dnat-Grows k (unwrap_or (parse_addr cluster_ip) default_ip) (as_u16 p.port)
          (backends_of k store running selector ns p) m.nft)
        (add_nodeport_dnat-Grows k (as_u16 n) (backends_of k store running selector ns p) e)

  pub bind_nodeport-Grows :
      (key : Text) (selector : Dict Text) (ns cluster_ip svc_type : Text) (p : ServicePort)
      (m : NetworkManager)
      → Grows m.nft (bind_nodeport k store running key selector ns cluster_ip svc_type p m).nft
  unfolding bind_nodeport
  bind_nodeport-Grows key selector ns cluster_ip svc_type p m =
      elim (Bool-cases (has_nodeport svc_type)) [
        | inl open_there ↦ rw open_there (publish-Grows key selector ns cluster_ip p p.node_port m)
        | inr not_there ↦ rw not_there (Grows-refl m.nft)
      ]

  -- One round of the loop.
  abbrev pub bound :
      Text → Dict Text → Text → Text → Text → ServicePort → NetworkManager → NetworkManager
  bound key selector ns cluster_ip svc_type p m =
      bind_nodeport k store running key selector ns cluster_ip svc_type p
        (bind_clusterip k store running key selector ns cluster_ip p m)

  pub bound-Grows :
      (key : Text) (selector : Dict Text) (ns cluster_ip svc_type : Text) (p : ServicePort)
      (m : NetworkManager)
      → Grows m.nft (bound key selector ns cluster_ip svc_type p m).nft
  bound-Grows key selector ns cluster_ip svc_type p m =
      let b = bind_clusterip k store running key selector ns cluster_ip p m in
      Grows-trans m.nft b.nft (bound key selector ns cluster_ip svc_type p m).nft
        (bind_clusterip-Grows key selector ns cluster_ip p m)
        (bind_nodeport-Grows key selector ns cluster_ip svc_type p b)

  pub bind_ports-Grows :
      (key : Text) (selector : Dict Text) (ns cluster_ip svc_type : Text) (ports : List ServicePort)
      (m : NetworkManager)
      → Grows m.nft (bind_ports k store running key selector ns cluster_ip svc_type ports m).nft
  unfolding bind_ports
  bind_ports-Grows key selector ns cluster_ip svc_type [] m = Grows-refl m.nft
  bind_ports-Grows key selector ns cluster_ip svc_type (p ∷ ports) m =
      let b = bound key selector ns cluster_ip svc_type p m in
      Grows-trans m.nft b.nft
        (bind_ports k store running key selector ns cluster_ip svc_type ports b).nft
        (bound-Grows key selector ns cluster_ip svc_type p m)
        (bind_ports-Grows key selector ns cluster_ip svc_type ports b)

  sync_spec-Grows :
      (key ns : Text) (spec : ServiceSpec) (selector : Dict Text) (m : NetworkManager)
      → Grows m.nft (sync_spec k store running key ns spec selector m).nft
  sync_spec-Grows key ns spec [] m = Grows-refl m.nft
  sync_spec-Grows key ns spec (entry ∷ selector) m =
      bind_ports-Grows key (entry ∷ selector) ns (unwrap_or spec.cluster_ip [])
        (unwrap_or spec.type_ (codes "ClusterIP")) (unwrap_or spec.ports []) m

  sync_with-Grows :
      (key ns : Text) (spec : Option ServiceSpec) (m : NetworkManager)
      → Grows m.nft (sync_with k store running key ns spec m).nft
  sync_with-Grows key ns none m = Grows-refl m.nft
  sync_with-Grows key ns (some spec) m = sync_spec-Grows key ns spec (unwrap_or spec.selector []) m

  pub sync_service_proxies-Grows :
      (svc : Service) (m : NetworkManager)
      → Grows m.nft (sync_service_proxies k store running svc m).nft
  unfolding sync_service_proxies
  sync_service_proxies-Grows svc m =
      sync_with-Grows
        (service_key (unwrap_or svc.metadata.namespace (codes "default"))
          (unwrap_or svc.metadata.name []))
        (unwrap_or svc.metadata.namespace (codes "default")) svc.spec m

  sync_if-Grows :
      (ns : Text) (labels : Dict Text) (r : AnyResource) (m : NetworkManager)
      → Grows m.nft (sync_if k store running ns labels r m).nft
  sync_if-Grows ns labels (service svc) m =
      elim (Bool-cases (
        text_eq (unwrap_or svc.metadata.namespace (codes "default")) ns
        && (has_entries (selector_of svc.spec) && labels_match (selector_of svc.spec) labels))) [
          | inl synced ↦ rw synced (sync_service_proxies-Grows svc m)
          | inr passed ↦ rw passed (Grows-refl m.nft)
        ]
  sync_if-Grows ns labels (deployment r) m = Grows-refl m.nft
  sync_if-Grows ns labels (config_map r) m = Grows-refl m.nft
  sync_if-Grows ns labels (secret r) m = Grows-refl m.nft
  sync_if-Grows ns labels (persistent_volume r) m = Grows-refl m.nft
  sync_if-Grows ns labels (persistent_volume_claim r) m = Grows-refl m.nft
  sync_if-Grows ns labels (vnet r) m = Grows-refl m.nft
  sync_if-Grows ns labels (subnet r) m = Grows-refl m.nft
  sync_if-Grows ns labels (nsg r) m = Grows-refl m.nft
  sync_if-Grows ns labels (route_table r) m = Grows-refl m.nft
  sync_if-Grows ns labels (ingress r) m = Grows-refl m.nft
  sync_if-Grows ns labels (network_policy r) m = Grows-refl m.nft
  sync_if-Grows ns labels (pod r) m = Grows-refl m.nft

  pub sync_all-Grows :
      (ns : Text) (labels : Dict Text) (ts : List ResourceTracker) (m : NetworkManager)
      → Grows m.nft (sync_all k store running ns labels ts m).nft
  unfolding sync_all
  sync_all-Grows ns labels [] m = Grows-refl m.nft
  sync_all-Grows ns labels (t ∷ ts) m =
      let b = sync_if k store running ns labels t.resource m in
      Grows-trans m.nft b.nft (sync_all k store running ns labels ts b).nft
        (sync_if-Grows ns labels t.resource m) (sync_all-Grows ns labels ts b)
