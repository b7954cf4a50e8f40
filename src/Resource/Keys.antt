-- ===== src/Resource/Keys.antt =====
-- src/types.rs: a resource is found by its kind, namespace and name, and by nothing else.
use z8s.Base.{ℕ, ◌≡◌, refl, ◌↔◌, [], ◌∷◌, ◌++◌, arith}
use z8s.Base.Text.{Text}
use z8s.Base.Text.Split.{Lacks}
use z8s.Resource.{
  AnyResource, kind, namespace, name, uid, pod, deployment, service, config_map, secret,
  persistent_volume, persistent_volume_claim, vnet, subnet, nsg, route_table, ingress,
  network_policy,
}

-- A text is cut at its first `c` in one way only.
pub cut_unique :
    (c : ℕ) (s s' t t' : Text)
    → Lacks c s
    → Lacks c s'
    → s ++ (c ∷ t) ≡ s' ++ (c ∷ t')
    → (s ≡ s') × (t ≡ t')
cut_unique c [] [] t t' h h' e = (refl, cc)
cut_unique c [] (x ∷ s') t t' h (ne, h') e = absurd (ne (cc))
cut_unique c (x ∷ s) [] t t' (ne, h) h' e = absurd (ne (cc))
cut_unique c (x ∷ s) (y ∷ s') t t' (ne, h) (ne', h') e =
    let (p, q) = cut_unique c s s' t t' h h' (ground arith) in (ground arith, q)

pub kind-Lacks : (r : AnyResource) → Lacks b'/' (kind r)
unfolding kind
kind-Lacks (pod _) = omega arith
kind-Lacks (deployment _) = omega arith
kind-Lacks (service _) = omega arith
kind-Lacks (config_map _) = omega arith
kind-Lacks (secret _) = omega arith
kind-Lacks (persistent_volume _) = omega arith
kind-Lacks (persistent_volume_claim _) = omega arith
kind-Lacks (vnet _) = omega arith
kind-Lacks (subnet _) = omega arith
kind-Lacks (nsg _) = omega arith
kind-Lacks (route_table _) = omega arith
kind-Lacks (ingress _) = omega arith
kind-Lacks (network_policy _) = omega arith

-- Two resources whose namespaces hold no slash have the same key exactly if they agree in kind,
-- namespace and name.
pub uid-eq_iff :
    (a b : AnyResource)
    → Lacks b'/' (namespace a)
    → Lacks b'/' (namespace b)
    → (uid a ≡ uid b) ↔ ((kind a ≡ kind b) × (namespace a ≡ namespace b) × (name a ≡ name b))
unfolding uid
uid-eq_iff a b ha hb = (
  λ e.
      let (k, rest) =
        cut_unique b'/' (kind a) (kind b) (namespace a ++ (b'/' ∷ name a))
          (namespace b ++ (b'/' ∷ name b)) (kind-Lacks a) (kind-Lacks b) e in
      let (n, m) = cut_unique b'/' (namespace a) (namespace b) (name a) (name b) ha hb rest in
      (k, n, m),
  λ h. rw (h.0, h.1, h.2),
)
