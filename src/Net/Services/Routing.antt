-- ===== src/Net/Services/Routing.antt =====
-- src/components/network/service.rs: when a pod is up, the services that select it route to it.
use z8s.Base.{
  ℕ, ◌≡◌, ◌≢◌, refl, inl, inr, true, false, ◌&&◌, Option, none, some, List, [], ◌∷◌, arith,
  Bool-cases, unwrap_or,
}
use z8s.Base.{Has}
use z8s.Base.Text.{Text, codes, text_eq, text_eq_iff, text_eq_refl}
use z8s.Base.Int.{as_u16, ℤ}
use z8s.Base.Dict.{Dict}
use z8s.Net.Ipv4.{parse_addr, octet}
use z8s.Net.Nft.{Kernel, chain_name, add_dnat, add_nodeport_dnat}
use z8s.Net.Nft.Sent.{Accepts}
use z8s.Net.Nft.Growth.{
  Grows, IsRouted, Grows-IsRouted, rule_to, add_nodeport_dnat-Grows, add_dnat-IsRouted,
}
use z8s.Resource.{Pod, Service, ServiceSpec, ServicePort, pod, service, IntOrString, int, string}
use z8s.Resource.Store.{ResourceStore, ResourceTracker, get_by_kind}
use z8s.Scheduler.Process.{RunningContainer}
use z8s.Compute.Deployment.{labels_match}
use z8s.Net.Services.{
  NetworkManager, is_headless, publish, target_of, backends_of, bind_clusterip, bind_nodeport,
  bind_ports, sync_spec, sync_service_proxies, sync_if, sync_all, container_port,
  resolve_named_port, sync_services_for_labels, service_key, selector_of, has_entries,
}
use z8s.Net.Services.Addressed.{IsAddressed}
use z8s.Net.Services.Backends.{Matches, Backend, labels_match_iff, resolve_backend_pods_iff}
use z8s.Net.Services.Kinds.{IsHeadless, IsOpened, headless, not_headless, opened, entries}
use z8s.Net.Services.Growth.{bound, bind_nodeport-Grows, bind_ports-Grows, sync_all-Grows}

-- The address that a service is routed at: its own, or 10.96.0.1 when that cannot be read.
abbrev pub at_ip : Text → ℕ
at_ip cluster_ip = unwrap_or (parse_addr cluster_ip) 174063617

module _ (k : Kernel) (store : ResourceStore) (running : Dict RunningContainer) where
  abbrev Sends : Text → Text → ServicePort → ℕ → NetworkManager → Type 0
  Sends cluster_ip ns p a m =
      IsRouted (chain_name (at_ip cluster_ip) (as_u16 p.port))
        (rule_to (at_ip cluster_ip) (as_u16 p.port) a (target_of k store running ns p)) m.nft

  -- The port that the target port of a service port stands for: the port itself when there is no
  -- target port, a number for itself, a name for the port that a pod of the namespace gives it, or
  -- else for the port itself.
  abbrev pub Targets : Text → ServicePort → Option IntOrString → ℕ → Type 0
  Targets ns p none target = target ≡ as_u16 p.port
  Targets ns p (some (int n)) target = target ≡ as_u16 n
  Targets ns p (some (string n)) target =
      target ≡ unwrap_or (resolve_named_port store ns n) (as_u16 p.port)

  target_of-Targets :
      (ns : Text) (p : ServicePort) → Targets ns p p.target_port (target_of k store running ns p)
  unfolding target_of container_port
  target_of-Targets ns p = targets p.target_port
    where
      targets :
          (o : Option IntOrString)
          → Targets ns p o (container_port k store running ns p (unwrap_or o (int p.port)))
      targets none = refl
      targets (some (int n)) = refl
      targets (some (string n)) = refl

  -- The kernel has been sent the rule from a port of a service to an address and the port that the
  -- target port stands for.
  abbrev pub LeadsTo : Text → Text → ServicePort → ℕ → NetworkManager → Type 0
  LeadsTo cluster_ip ns p a m =
      (target : ℕ) × Targets ns p p.target_port target
      × IsRouted (chain_name (at_ip cluster_ip) (as_u16 p.port))
          (rule_to (at_ip cluster_ip) (as_u16 p.port) a target) m.nft

  keeps :
      (cluster_ip ns : Text) (p : ServicePort) (a : ℕ) (m m' : NetworkManager)
      → Grows m.nft m'.nft
      → Sends cluster_ip ns p a m
      → Sends cluster_ip ns p a m'
  keeps cluster_ip ns p a m m' =
      Grows-IsRouted (chain_name (at_ip cluster_ip) (as_u16 p.port))
        (rule_to (at_ip cluster_ip) (as_u16 p.port) a (target_of k store running ns p)) m.nft m'.nft

  module _ (accepts : Accepts k) (selector : Dict Text) (ns : Text) (a : ℕ)
      (backend : Backend running selector ns store a) where
    bind_clusterip-Sends :
        (key cluster_ip : Text) (p : ServicePort) (m : NetworkManager)
        → is_headless cluster_ip ≡ false
        → Sends cluster_ip ns p a (bind_clusterip k store running key selector ns cluster_ip p m)
    unfolding bind_clusterip backends_of
    bind_clusterip-Sends key cluster_ip p m h = rw h (
        add_dnat-IsRouted k accepts (at_ip cluster_ip) (as_u16 p.port) a
          (target_of k store running ns p) (backends_of k store running selector ns p) m.nft
          ((resolve_backend_pods_iff running selector ns store a (target_of k store running ns p)
              (target_of k store running ns p)).1
            (refl, backend)))

    bind_ports-Sends :
        (key cluster_ip svc_type : Text) (p : ServicePort) (ports : List ServicePort)
        (m : NetworkManager)
        → is_headless cluster_ip ≡ false
        → Has p ports
        → Sends cluster_ip ns p a
            (bind_ports k store running key selector ns cluster_ip svc_type ports m)
    unfolding bind_ports
    bind_ports-Sends key cluster_ip svc_type p [] m h i = elim i [ ]
    bind_ports-Sends key cluster_ip svc_type p (q ∷ ports) m h (inl e) =
        let c = bind_clusterip k store running key selector ns cluster_ip p m in
        let b = bound k store running key selector ns cluster_ip svc_type p m in
        rw e (
          keeps cluster_ip ns p a b
            (bind_ports k store running key selector ns cluster_ip svc_type ports b)
            (bind_ports-Grows k store running key selector ns cluster_ip svc_type ports b)
            (keeps cluster_ip ns p a c b
              (bind_nodeport-Grows k store running key selector ns cluster_ip svc_type p c)
              (bind_clusterip-Sends key cluster_ip p m h)))
    bind_ports-Sends key cluster_ip svc_type p (q ∷ ports) m h (inr i) =
        bind_ports-Sends key cluster_ip svc_type p ports
          (bound k store running key selector ns cluster_ip svc_type q m) h i

    module _ (p : ServicePort) (spec : ServiceSpec)
        (has_address : is_headless (unwrap_or spec.cluster_ip []) ≡ false)
        (has_port : Has p (unwrap_or spec.ports []))
        (selects : unwrap_or spec.selector [] ≡ selector)
        (not_empty : has_entries selector ≡ true) where
      sync_spec-Sends :
          (key : Text) (sel : Dict Text) (m : NetworkManager)
          → sel ≡ selector
          → has_entries sel ≡ true
          → Sends
              (unwrap_or spec.cluster_ip [])
              ns
              p
              a
              (sync_spec k store running key ns spec sel m)
      sync_spec-Sends key [] m e h = absurd (ground arith)
      sync_spec-Sends key (entry ∷ sel) m e h = rw e (
          bind_ports-Sends key (unwrap_or spec.cluster_ip [])
            (unwrap_or spec.type_ (codes "ClusterIP")) p (unwrap_or spec.ports []) m has_address
            has_port)

      sync_service-Sends :
          (svc : Service) (m : NetworkManager)
          → svc.spec ≡ some spec
          → unwrap_or svc.metadata.namespace (codes "default") ≡ ns
          → Sends (unwrap_or spec.cluster_ip []) ns p a (sync_service_proxies k store running svc m)
      unfolding sync_service_proxies
      sync_service-Sends svc m e in_ns =
          rw (e, in_ns)
            (sync_spec-Sends (service_key ns (unwrap_or svc.metadata.name []))
              (unwrap_or spec.selector []) m selects (rw selects not_empty))

  module _ (t u : ResourceTracker) (q : Pod) (svc : Service) (spec : ServiceSpec) (p : ServicePort)
      (a : ℕ) where
    -- The namespace and the labels of the pod.
    abbrev pub pod_ns : Text
    pod_ns = unwrap_or q.metadata.namespace (codes "default")

    abbrev pub pod_labels : Dict Text
    pod_labels = unwrap_or q.metadata.labels []

    -- A tracked pod for whose name an address is found.
    abbrev pub IsUp : Type 0
    IsUp =
        Has t (get_by_kind (codes "Pod") store)
        × (t.resource ≡ pod q)
        × IsAddressed (unwrap_or q.metadata.name []) running a

    -- A tracked service of the pod's namespace with an address of its own and a port, whose
    -- selector has entries and finds all of them among the pod's labels.
    abbrev pub Selects : Type 0
    Selects =
        Has u (get_by_kind (codes "Service") store)
        × (u.resource ≡ service svc)
        × (svc.spec ≡ some spec)
        × (unwrap_or svc.metadata.namespace (codes "default") ≡ pod_ns)
        × (IsHeadless (unwrap_or spec.cluster_ip []) → ⊥)
        × Has p (unwrap_or spec.ports [])
        × (unwrap_or spec.selector [] ≢ [])
        × Matches (unwrap_or spec.selector []) pod_labels

    module _ (accepts : Accepts k) (up : IsUp) (sel : Selects) where
      backend : Backend running (unwrap_or spec.selector []) pod_ns store a
      backend = (
        t,
        up.0,
        record { the_pod = q; is_pod = up.1; in_ns = refl; matches = sel.7; has_address = up.2 },
      )

      chosen :
          text_eq (unwrap_or svc.metadata.namespace (codes "default")) pod_ns
            && (has_entries (selector_of svc.spec)
                && labels_match (selector_of svc.spec) pod_labels)
          ≡ true
      chosen = rw (
        sel.3,
        sel.2,
        text_eq_refl pod_ns,
        entries (unwrap_or spec.selector []) sel.6,
        (labels_match_iff (unwrap_or spec.selector []) pod_labels).1 sel.7,
      )

      sync_if-Sends :
          (m : NetworkManager)
          → Sends
              (unwrap_or spec.cluster_ip [])
              pod_ns
              p
              a
              (sync_if k store running pod_ns pod_labels u.resource m)
      sync_if-Sends m =
          rw (sel.1, chosen)
            (sync_service-Sends accepts (unwrap_or spec.selector []) pod_ns a backend p spec
              (not_headless (unwrap_or spec.cluster_ip []) sel.4) sel.5 refl
              (entries (unwrap_or spec.selector []) sel.6) svc m sel.2 sel.3)

      sync_all-Sends :
          (ts : List ResourceTracker) (m : NetworkManager)
          → Has u ts
          → Sends
              (unwrap_or spec.cluster_ip [])
              pod_ns
              p
              a
              (sync_all k store running pod_ns pod_labels ts m)
      unfolding sync_all
      sync_all-Sends [] m h = elim h [ ]
      sync_all-Sends (v ∷ ts) m (inl e) =
          let b = sync_if k store running pod_ns pod_labels v.resource m in
          keeps (unwrap_or spec.cluster_ip []) pod_ns p a b
            (sync_all k store running pod_ns pod_labels ts b)
            (sync_all-Grows k store running pod_ns pod_labels ts b) (rw e (sync_if-Sends m))
      sync_all-Sends (v ∷ ts) m (inr h) =
          sync_all-Sends ts (sync_if k store running pod_ns pod_labels v.resource m) h

      -- Once a pod is up, syncing the services for its namespace and labels has sent the kernel,
      -- if that takes every batch, a rule from every port of every service that selects the pod,
      -- and that has an address, to the pod's address and the port behind it, whatever else is in
      -- the store and whatever was sent before.
      pub sync_services-LeadsTo :
          (m : NetworkManager)
          → LeadsTo
              (unwrap_or spec.cluster_ip [])
              pod_ns
              p
              a
              (sync_services_for_labels k store running pod_ns pod_labels m)
      unfolding sync_services_for_labels
      sync_services-LeadsTo m = (
        target_of k store running pod_ns p,
        target_of-Targets pod_ns p,
        sync_all-Sends (get_by_kind (codes "Service") store) m sel.0,
      )

  headless_unparsed :
      (cluster_ip : Text) → is_headless cluster_ip ≡ true → parse_addr cluster_ip ≡ none
  headless_unparsed cluster_ip h = elim (Bool-cases (text_eq cluster_ip [])) [
    | inl empty ↦ rw ((text_eq_iff cluster_ip []).0 empty) (unfold parse_addr in refl)
    | inr other ↦
        rw ((text_eq_iff cluster_ip (codes "None")).0 (ground (arith, h, other)))
          (unfold parse_addr octet in refl)
  ]

  -- A node port of a service that has no cluster address, for instance a headless one, takes over
  -- 10.96.0.1: if the kernel takes every batch, a round of the loop over the ports sends a rule
  -- from that address and the service's port to the address found for each pod that the service
  -- selects, and the port that the target port stands for.
  pub headless_nodeport-IsRouted :
      Accepts k
      → (key : Text) (selector : Dict Text) (ns cluster_ip svc_type : Text) (p : ServicePort)
        (n : ℤ) (a : ℕ) (m : NetworkManager)
      → IsHeadless cluster_ip
      → IsOpened svc_type
      → p.node_port ≡ some n
      → Backend running selector ns store a
      → (target : ℕ) × Targets ns p p.target_port target
        × IsRouted
            (chain_name 174063617 (as_u16 p.port))
            (rule_to 174063617 (as_u16 p.port) a target)
            (bound k store running key selector ns cluster_ip svc_type p m).nft
  unfolding bind_clusterip bind_nodeport backends_of
  headless_nodeport-IsRouted accepts key selector ns cluster_ip svc_type p n a m h t e backend =
      let bs = backends_of k store running selector ns p in
      let d = (add_dnat k 174063617 (as_u16 p.port) bs m.nft).0 in
      let round : bound k store running key selector ns cluster_ip svc_type p m
          ≡ publish k store running key selector ns cluster_ip p (some n) m =
        rw (headless cluster_ip h, opened svc_type t, e) in
      (
        target_of k store running ns p,
        target_of-Targets ns p,
        rw (round, headless_unparsed cluster_ip (headless cluster_ip h))
            (Grows-IsRouted (chain_name 174063617 (as_u16 p.port))
              (rule_to 174063617 (as_u16 p.port) a (target_of k store running ns p)) d
              (add_nodeport_dnat k (as_u16 n) bs d).0 (add_nodeport_dnat-Grows k (as_u16 n) bs d)
              (add_dnat-IsRouted k accepts 174063617 (as_u16 p.port) a
                (target_of k store running ns p) bs m.nft
                ((resolve_backend_pods_iff running selector ns store a
                    (target_of k store running ns p) (target_of k store running ns p)).1
                  (refl, backend)))),
      )
