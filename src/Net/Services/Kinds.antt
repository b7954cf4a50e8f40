-- ===== src/Net/Services/Kinds.antt =====
-- src/components/network/service.rs: what the tests on the kind and the selector of a service say.
use z8s.Base.{◌≡◌, ◌≢◌, ◌⊎◌, refl, inl, inr, true, false, [], ◌∷◌, Bool-cases}
use z8s.Base.Text.{Text, codes, text_eq, text_eq_iff}
use z8s.Base.Dict.{Dict}
use z8s.Net.Services.{is_headless, has_nodeport, has_entries}

-- A service without an address of its own, and one that is opened at a port of the node.
abbrev pub IsHeadless : Text → Type 0
IsHeadless cluster_ip = (cluster_ip ≡ []) ⊎ (cluster_ip ≡ codes "None")

abbrev pub IsOpened : Text → Type 0
IsOpened svc_type = (svc_type ≡ codes "NodePort") ⊎ (svc_type ≡ codes "LoadBalancer")

pub headless : (cluster_ip : Text) → IsHeadless cluster_ip → is_headless cluster_ip ≡ true
unfolding text_eq
headless cluster_ip (inl e) = rw e refl
headless cluster_ip (inr e) = rw e refl

pub not_headless :
    (cluster_ip : Text) → (IsHeadless cluster_ip → ⊥) → is_headless cluster_ip ≡ false
not_headless cluster_ip h = elim (Bool-cases (text_eq cluster_ip [])) [
  | inl e ↦ absurd (h (inl ((text_eq_iff cluster_ip []).0 e)))
  | inr e ↦ elim (Bool-cases (text_eq cluster_ip (codes "None"))) [
    | inl f ↦ absurd (h (inr ((text_eq_iff cluster_ip (codes "None")).0 f)))
    | inr f ↦ rw (e, f) refl
  ]
]

pub opened : (svc_type : Text) → IsOpened svc_type → has_nodeport svc_type ≡ true
unfolding text_eq
opened svc_type (inl e) = rw e refl
opened svc_type (inr e) = rw e refl

pub entries : (selector : Dict Text) → selector ≢ [] → has_entries selector ≡ true
entries [] h = absurd (h refl)
entries (entry ∷ selector) h = refl
