-- ===== src/Net/Services/Addressed.antt =====
-- src/scheduler/process.rs: the address that is found for the name of a pod.
use z8s.Base.{
  ℕ, ◌≡◌, refl, ap, ◌∙◌, inl, inr, Bool, true, false, Option, none, some, [], ◌∷◌, ◌++◌, arith,
  if◌then◌else◌, Bool-cases, Option-cases, All,
}
use z8s.Base.Text.{Text, starts_with}
use z8s.Base.Dict.{Dict}
use z8s.Scheduler.Process.{RunningContainer, pod_ip, or_else}

-- The id of the container begins with the name of the pod and a dash.
abbrev pub Begins : Text → Text × RunningContainer → Type 0
Begins pod_name c = starts_with c.0 (pod_name ++ (b'-' ∷ [])) ≡ true

-- Of the running containers whose ids begin with the name and a dash, the first that has an
-- address has this one. It need not be a container of the pod: those of `web-1` begin `web-`.
pub record IsAddressed (pod_name : Text) (running : Dict RunningContainer) (a : ℕ) : Type 0 where
  pub before : Dict RunningContainer
  pub container : Text × RunningContainer
  pub behind : Dict RunningContainer
  pub listed : running ≡ before ++ (container ∷ behind)
  pub begins : Begins pod_name container
  pub address : container.1.instance.pod_ip ≡ some a
  pub first :
      All (λ (c : Text × RunningContainer). Begins pod_name c → c.1.instance.pod_ip ≡ none) before

passed :
    (b : Bool) (o rest : Option ℕ)
    → (b ≡ true → o ≡ none)
    → (if b then or_else o rest else rest) ≡ rest
passed true o rest h = rw (h refl) refl
passed false o rest h = refl

pod_ip-found :
    (pod_name : Text) (before behind : Dict RunningContainer) (c : Text × RunningContainer) (a : ℕ)
    → Begins pod_name c
    → c.1.instance.pod_ip ≡ some a
    → All (λ (d : Text × RunningContainer). Begins pod_name d → d.1.instance.pod_ip ≡ none) before
    → pod_ip pod_name (before ++ (c ∷ behind)) ≡ some a
unfolding pod_ip
pod_ip-found pod_name [] behind (cid, rc) a h e others = rw (h, e) refl
pod_ip-found pod_name ((id, other) ∷ before) behind c a h e (unaddressed, others) =
    passed (starts_with id (pod_name ++ (b'-' ∷ []))) other.instance.pod_ip
      (pod_ip pod_name (before ++ (c ∷ behind))) unaddressed
    ∙ pod_ip-found pod_name before behind c a h e others

later :
    (pod_name : Text) (c : Text × RunningContainer) (running : Dict RunningContainer) (a : ℕ)
    → (Begins pod_name c → c.1.instance.pod_ip ≡ none)
    → IsAddressed pod_name running a
    → IsAddressed pod_name (c ∷ running) a
later pod_name c running a unaddressed s = record {
  before = c ∷ s.before;
  container = s.container;
  behind = s.behind;
  listed = ap (λ (r : Dict RunningContainer). c ∷ r) s.listed;
  begins = s.begins;
  address = s.address;
  first = (unaddressed, s.first);
}

pub pod_ip-IsAddressed :
    (pod_name : Text) (running : Dict RunningContainer) (a : ℕ)
    → pod_ip pod_name running ≡ some a
    → IsAddressed pod_name running a
unfolding pod_ip
pod_ip-IsAddressed pod_name [] a h = absurd (ground (arith, h))
pod_ip-IsAddressed pod_name ((cid, rc) ∷ running) a h =
    elim (Bool-cases (starts_with cid (pod_name ++ (b'-' ∷ [])))) [
      | inr other ↦
          later pod_name (cid, rc) running a (λ e. absurd (ground (arith, e, other)))
            (pod_ip-IsAddressed pod_name running a (rw other at h))
      | inl mine ↦ elim (Option-cases rc.instance.pod_ip) [
        | inl absent ↦
            later pod_name (cid, rc) running a (λ e. absent)
              (pod_ip-IsAddressed pod_name running a (rw (mine, absent) at h))
        | inr (b, has) ↦ record {
          before = [];
          container = (cid, rc);
          behind = running;
          listed = refl;
          begins = mine;
          address = has ∙ (rw (mine, has) at h);
          first = tt;
        }
      ]
    ]

pub IsAddressed-pod_ip :
    (pod_name : Text) (running : Dict RunningContainer) (a : ℕ)
    → IsAddressed pod_name running a
    → pod_ip pod_name running ≡ some a
IsAddressed-pod_ip pod_name running a s =
    rw (s.listed) (pod_ip-found pod_name s.before s.behind s.container a s.begins s.address s.first)
