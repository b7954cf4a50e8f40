-- ===== src/Net/Services/Backends.antt =====
-- src/components/network/service.rs: the pods behind a service.
use z8s.Base.{
  ℕ, ◌≡◌, refl, ◌↔◌, ◌⊎◌, inl, inr, true, Option, none, some, List, [], ◌∷◌, arith, Bool-cases,
  unwrap_or, All,
}
use z8s.Base.{Has}
use z8s.Base.Text.{Text, codes, text_eq, text_eq_iff, text_eq_refl}
use z8s.Base.Dict
use z8s.Base.Dict.{Dict}
use z8s.Resource.{
  AnyResource, Pod, pod, deployment, service, config_map, secret, persistent_volume,
  persistent_volume_claim, vnet, subnet, nsg, route_table, ingress, network_policy,
}
use z8s.Resource.Store.{ResourceStore, ResourceTracker, get_by_kind}
use z8s.Scheduler.Process.{RunningContainer, pod_ip}
use z8s.Compute.Deployment.{labels_match, has_value}
use z8s.Net.Services.Addressed.{IsAddressed, pod_ip-IsAddressed, IsAddressed-pod_ip}
use z8s.Net.Services.{backend_of, backends_among, resolve_backend_pods, push_backend}

-- Every entry of a selector is among the labels.
abbrev pub Matches : Dict Text → Dict Text → Type 0
Matches selector labels =
    All (λ (entry : Text × Text). Dict.get entry.0 labels ≡ some entry.1) selector

has_value_iff : (o : Option Text) (v : Text) → (has_value o v ≡ true) ↔ (o ≡ some v)
has_value_iff none v = ground arith
has_value_iff (some w) v = ground (arith, text_eq_iff w v)

pub labels_match_iff :
    (selector labels : Dict Text) → (labels_match selector labels ≡ true) ↔ Matches selector labels
unfolding labels_match
labels_match_iff [] labels = (λ h. tt, λ h. refl)
labels_match_iff ((key, value) ∷ selector) labels =
    ground (arith, has_value_iff (Dict.get key labels) value, labels_match_iff selector labels)

module _ (running : Dict RunningContainer) (selector : Dict Text) (ns : Text) where
  -- A pod of the namespace whose labels match and for whose name the address is found.
  pub record Serves (r : AnyResource) (a : ℕ) : Type 0 where
    pub the_pod : Pod
    pub is_pod : r ≡ pod the_pod
    pub in_ns : unwrap_or the_pod.metadata.namespace (codes "default") ≡ ns
    pub matches : Matches selector (unwrap_or the_pod.metadata.labels [])
    pub has_address : IsAddressed (unwrap_or the_pod.metadata.name []) running a

  abbrev pub Backend : ResourceStore → ℕ → Type 0
  Backend store a =
      (t : ResourceTracker) × Has t (get_by_kind (codes "Pod") store) × Serves t.resource a

  push_backend-Has :
      (port a : ℕ) (o : Option ℕ) (rest : List (ℕ × ℕ))
      → o ≡ some a
      → Has (a, port) (push_backend port o rest)
  push_backend-Has port a none rest e = absurd (ground arith)
  push_backend-Has port a (some b) rest e = inl (ground arith)

  push_backend-later :
      (x : ℕ × ℕ) (port : ℕ) (o : Option ℕ) (rest : List (ℕ × ℕ))
      → Has x rest
      → Has x (push_backend port o rest)
  push_backend-later x port none rest h = h
  push_backend-later x port (some b) rest h = inr h

  backend_of-Serves :
      (port a : ℕ) (r : AnyResource) (rest : List (ℕ × ℕ))
      → Serves r a
      → Has (a, port) (backend_of running selector ns port r rest)
  backend_of-Serves port a r rest s =
      rw
        (
          s.is_pod,
          s.in_ns,
          text_eq_refl ns,
          (labels_match_iff selector (unwrap_or s.the_pod.metadata.labels [])).1 s.matches,
        )
        (push_backend-Has port a (pod_ip (unwrap_or s.the_pod.metadata.name []) running) rest
          (IsAddressed-pod_ip (unwrap_or s.the_pod.metadata.name []) running a s.has_address))

  backend_of-later :
      (x : ℕ × ℕ) (port : ℕ) (r : AnyResource) (rest : List (ℕ × ℕ))
      → Has x rest
      → Has x (backend_of running selector ns port r rest)
  backend_of-later x port (pod p) rest h =
      elim (Bool-cases (text_eq (unwrap_or p.metadata.namespace (codes "default")) ns)) [
        | inr other ↦ rw other h
        | inl here ↦ elim (Bool-cases (labels_match selector (unwrap_or p.metadata.labels []))) [
          | inr differ ↦ rw (here, differ) h
          | inl match ↦
              rw (here, match)
                (push_backend-later x port (pod_ip (unwrap_or p.metadata.name []) running) rest h)
        ]
      ]
  backend_of-later x port (deployment r) rest h = h
  backend_of-later x port (service r) rest h = h
  backend_of-later x port (config_map r) rest h = h
  backend_of-later x port (secret r) rest h = h
  backend_of-later x port (persistent_volume r) rest h = h
  backend_of-later x port (persistent_volume_claim r) rest h = h
  backend_of-later x port (vnet r) rest h = h
  backend_of-later x port (subnet r) rest h = h
  backend_of-later x port (nsg r) rest h = h
  backend_of-later x port (route_table r) rest h = h
  backend_of-later x port (ingress r) rest h = h
  backend_of-later x port (network_policy r) rest h = h

  push_backend-inv :
      (a q port : ℕ) (o : Option ℕ) (rest : List (ℕ × ℕ))
      → Has (a, q) (push_backend port o rest)
      → ((q ≡ port) × (o ≡ some a)) ⊎ Has (a, q) rest
  push_backend-inv a q port none rest h = inr h
  push_backend-inv a q port (some b) rest (inl e) = inl (ground arith, ground arith)
  push_backend-inv a q port (some b) rest (inr h) = inr h

  -- Who put a backend there.
  Source : ℕ → ℕ → ℕ → AnyResource → List (ℕ × ℕ) → Type 0
  Source a q port r rest = ((q ≡ port) × Serves r a) ⊎ Has (a, q) rest

  pod-Source :
      (a q port : ℕ) (p : Pod) (rest : List (ℕ × ℕ))
      → unwrap_or p.metadata.namespace (codes "default") ≡ ns
      → Matches selector (unwrap_or p.metadata.labels [])
      → ((q ≡ port) × (pod_ip (unwrap_or p.metadata.name []) running ≡ some a)) ⊎ Has (a, q) rest
      → Source a q port (pod p) rest
  unfolding Source
  pod-Source a q port p rest here match (inl (e, ip)) = inl (
    e,
    record {
      the_pod = p;
      is_pod = refl;
      in_ns = here;
      matches = match;
      has_address = pod_ip-IsAddressed (unwrap_or p.metadata.name []) running a ip;
    },
  )
  pod-Source a q port p rest here match (inr h) = inr h

  backend_of-inv :
      (a q port : ℕ) (r : AnyResource) (rest : List (ℕ × ℕ))
      → Has (a, q) (backend_of running selector ns port r rest)
      → Source a q port r rest
  unfolding Source
  backend_of-inv a q port (pod p) rest h =
      elim (Bool-cases (text_eq (unwrap_or p.metadata.namespace (codes "default")) ns)) [
        | inr other ↦ inr (rw other at h)
        | inl here ↦ elim (Bool-cases (labels_match selector (unwrap_or p.metadata.labels []))) [
          | inr differ ↦ inr (rw (here, differ) at h)
          | inl match ↦
              pod-Source a q port p rest
                ((text_eq_iff (unwrap_or p.metadata.namespace (codes "default")) ns).0 here)
                ((labels_match_iff selector (unwrap_or p.metadata.labels [])).0 match)
                (push_backend-inv a q port (pod_ip (unwrap_or p.metadata.name []) running) rest
                  (rw (here, match) at h))
        ]
      ]
  backend_of-inv a q port (deployment r) rest h = inr h
  backend_of-inv a q port (service r) rest h = inr h
  backend_of-inv a q port (config_map r) rest h = inr h
  backend_of-inv a q port (secret r) rest h = inr h
  backend_of-inv a q port (persistent_volume r) rest h = inr h
  backend_of-inv a q port (persistent_volume_claim r) rest h = inr h
  backend_of-inv a q port (vnet r) rest h = inr h
  backend_of-inv a q port (subnet r) rest h = inr h
  backend_of-inv a q port (nsg r) rest h = inr h
  backend_of-inv a q port (route_table r) rest h = inr h
  backend_of-inv a q port (ingress r) rest h = inr h
  backend_of-inv a q port (network_policy r) rest h = inr h

  abbrev Among : List ResourceTracker → ℕ → Type 0
  Among ts a = (t : ResourceTracker) × Has t ts × Serves t.resource a

  Among-to :
      (a port : ℕ) (ts : List ResourceTracker)
      → Among ts a
      → Has (a, port) (backends_among running selector ns port ts)
  unfolding backends_among
  Among-to a port [] (t, h, s) = elim h [ ]
  Among-to a port (u ∷ ts) (t, inl e, s) =
      backend_of-Serves port a u.resource (backends_among running selector ns port ts) (rw e s)
  Among-to a port (u ∷ ts) (t, inr h, s) =
      backend_of-later (a, port) port u.resource (backends_among running selector ns port ts)
        (Among-to a port ts (t, h, s))

  Among-step :
      (a q port : ℕ) (u : ResourceTracker) (ts : List ResourceTracker)
      → ((q ≡ port) × Serves u.resource a) ⊎ ((q ≡ port) × Among ts a)
      → (q ≡ port) × Among (u ∷ ts) a
  Among-step a q port u ts (inl (e, s)) = (e, (u, inl refl, s))
  Among-step a q port u ts (inr (e, (t, h, s))) = (e, (t, inr h, s))

  Among-from :
      (a q port : ℕ) (ts : List ResourceTracker)
      → Has (a, q) (backends_among running selector ns port ts)
      → (q ≡ port) × Among ts a
  unfolding backends_among Source
  Among-from a q port [] h = elim h [ ]
  Among-from a q port (u ∷ ts) h =
      Among-step a q port u ts
        (elim (backend_of-inv a q port u.resource (backends_among running selector ns port ts) h) [
          | inl s ↦ inl s
          | inr h' ↦ inr (Among-from a q port ts h')
        ])

  -- The backends of a service are, with the port asked for, exactly the addresses found for the
  -- pods that the store holds in its namespace and whose labels have every entry of its selector.
  -- The address found for a pod is that of the first running container that has one among those
  -- whose ids begin with the pod's name and a dash, whoever's container that is: a stopped pod
  -- `web` gets the address of a running `web-1`.
  pub resolve_backend_pods_iff :
      (store : ResourceStore) (a q port : ℕ)
      → Has (a, q) (resolve_backend_pods store running selector ns port)
        ↔ ((q ≡ port) × Backend store a)
  unfolding resolve_backend_pods
  resolve_backend_pods_iff store a q port = (
    Among-from a q port (get_by_kind (codes "Pod") store),
    λ h. rw (h.0) (Among-to a port (get_by_kind (codes "Pod") store) h.1),
  )
