-- ===== src/Scheduler/Process/Exits/Policy.antt =====
-- src/scheduler/process.rs: what the restart policy of a pod decides.
use z8s.Base.{
  ℕ, zero, suc, ◌+◌, ◌-◌, ◌*◌, ◌^◌, ◌≤◌, ◌<◌, ◌≡◌, refl, sym, ap, ◌∙◌, ◌≢◌, ◌↔◌, ◌⊎◌, inl, inr,
  Bool, true, false, not, some, List, [], ◌∷◌, ◌++◌, arith, if◌then◌else◌, Bool-cases, unwrap_or,
  none, All,
}
use z8s.Base.Text.{Text, codes, text_eq, text_eq_iff, starts_with}
use z8s.Base.Int.{ℤ, pos, negsuc}
use z8s.Base.Dict
use z8s.Base.Dict.{Dict}
use z8s.Base.Checked.{Checked, ok, add32_ok}
use z8s.Resource.{
  AnyResource, Pod, PodSpec, uid, kind, namespace, name, pod, deployment, service, config_map,
  secret, persistent_volume, persistent_volume_claim, vnet, subnet, nsg, route_table, ingress,
  network_policy,
}
use z8s.Resource.Store.{
  ResourceTracker, ResourceStore, ResourceState, succeeded, failed, get_all, get,
}
use z8s.Resource.Store.Laws.{store_changes, restate}
use z8s.Scheduler.Process.Backoff.{delay_secs, delay_secs_lem}
use z8s.Scheduler.Process.Exits.{
  exit_text, owns, policy_in, pod_policy, Exits, Restart, owner, policy_of, should_restart, is_zero,
  final_state, schedule, finish, handle_exited,
}

-- A container is started again under every policy but `Never`, under `OnFailure` if its code is not 0.
abbrev pub Restarts : Text → ℤ → Type 0
Restarts policy code = (policy ≢ codes "Never") × ((policy ≡ codes "OnFailure") → code ≢ pos 0)

zero_code : (code : ℤ) → (is_zero code ≡ true) ↔ (code ≡ pos 0)
zero_code (pos zero) = (λ p. refl, λ p. refl)
zero_code (pos (suc n)) = (λ p. absurd (ground (arith, p)), λ p. absurd (ground (arith, p)))
zero_code (negsuc n) = (λ p. absurd (ground (arith, p)), λ p. absurd (ground (arith, p)))

restarts : (policy : Text) (code : ℤ) → should_restart policy code ≡ true → Restarts policy code
unfolding text_eq
restarts policy code h = (
  λ never. absurd (ground (arith, ap (λ p. should_restart p code) (sym never) ∙ h)),
  λ failure zero. absurd (
      ground (
        arith,
        ap (λ p. should_restart p (pos 0)) (sym failure)
            ∙ ap (should_restart policy) (sym zero)
            ∙ h,
      )),
)

refusal :
    (a b c z : Bool)
    → (if a then true else if b then not z else if c then false else true) ≡ false
    → (c ≡ true) ⊎ ((b ≡ true) × (z ≡ true))
refusal true b c z h = absurd (ground (arith, h))
refusal false true c true h = inr (refl, refl)
refusal false true c false h = absurd (ground (arith, h))
refusal false false true z h = inl refl
refusal false false false z h = absurd (ground (arith, h))

stays : (policy : Text) (code : ℤ) → should_restart policy code ≡ false → Restarts policy code → ⊥
stays policy code h (never, failure) =
    elim (refusal (text_eq policy (codes "Always")) (text_eq policy (codes "OnFailure"))
      (text_eq policy (codes "Never")) (is_zero code) h) [
        | inl n ↦ never ((text_eq_iff policy (codes "Never")).0 n)
        | inr (f, z) ↦ failure ((text_eq_iff policy (codes "OnFailure")).0 f) ((zero_code code).0 z)
      ]

-- The pod's restart policy: the one that its spec names, or `Always`.
abbrev pub Declares : Pod → Text → Type 0
Declares p policy =
    ((sp : PodSpec) × (p.spec ≡ some sp) × (sp.restart_policy ≡ some policy))
    ⊎ ((policy ≡ codes "Always")
        × ((p.spec ≡ none) ⊎ ((sp : PodSpec) × (p.spec ≡ some sp) × (sp.restart_policy ≡ none))))

declared :
    (p : Pod) (t : ResourceTracker) (policy : Text)
    → t.resource ≡ pod p
    → Declares p policy
    → policy_of (some t) ≡ policy
declared p t policy e (inl (sp, has, says)) =
    ap (λ r. unwrap_or (policy_in r) (codes "Always")) e
    ∙ ap (λ o. unwrap_or (pod_policy o) (codes "Always")) has
    ∙ ap (λ o. unwrap_or o (codes "Always")) says
declared p t policy e (inr (always, inl has)) =
    ap (λ r. unwrap_or (policy_in r) (codes "Always")) e
    ∙ ap (λ o. unwrap_or (pod_policy o) (codes "Always")) has
    ∙ sym always
declared p t policy e (inr (always, inr (sp, has, says))) =
    ap (λ r. unwrap_or (policy_in r) (codes "Always")) e
    ∙ ap (λ o. unwrap_or (pod_policy o) (codes "Always")) has
    ∙ ap (λ o. unwrap_or o (codes "Always")) says
    ∙ sym always

-- The id of a container begins with the name of a pod and a dash.
abbrev pub Begins : Text → AnyResource → Type 0
Begins id (pod q) = starts_with id (name (pod q) ++ codes "-") ≡ true
Begins id _ = ⊥

-- The pod that the tracker takes for the container's: the first of the store whose name and a dash
-- begin the id, which need not be the container's own (`web-1` has containers that begin `web-`).
pub record IsOwner (id : Text) (store : ResourceStore) (t : ResourceTracker) (p : Pod)
    : Type 0 where
  pub before : List ResourceTracker
  pub behind : List ResourceTracker
  pub stored : get_all store ≡ before ++ (t ∷ behind)
  pub is_pod : t.resource ≡ pod p
  pub begins : Begins id (pod p)
  pub no_other : All (λ (u : ResourceTracker). Begins id u.resource → ⊥) before

passed : (id : Text) (r : AnyResource) → (Begins id r → ⊥) → owns id r ≡ false
passed id (pod q) none_of = elim (Bool-cases (starts_with id (name (pod q) ++ codes "-"))) [
  | inl e ↦ absurd (none_of e)
  | inr e ↦ e
]
passed id (deployment q) none_of = refl
passed id (service q) none_of = refl
passed id (config_map q) none_of = refl
passed id (secret q) none_of = refl
passed id (persistent_volume q) none_of = refl
passed id (persistent_volume_claim q) none_of = refl
passed id (vnet q) none_of = refl
passed id (subnet q) none_of = refl
passed id (nsg q) none_of = refl
passed id (route_table q) none_of = refl
passed id (ingress q) none_of = refl
passed id (network_policy q) none_of = refl

owner_behind :
    (id : Text) (before behind : List ResourceTracker) (t : ResourceTracker) (p : Pod)
    → t.resource ≡ pod p
    → Begins id (pod p)
    → All (λ (u : ResourceTracker). Begins id u.resource → ⊥) before
    → owner id (before ++ (t ∷ behind)) ≡ some t
unfolding owner
owner_behind id [] behind t p e h others =
    let mine : owns id t.resource ≡ true = ap (owns id) e ∙ h in rw mine refl
owner_behind id (u ∷ before) behind t p e h (not_u, others) =
    rw (passed id u.resource not_u) (owner_behind id before behind t p e h others)

-- The delay before the `n`th restart: none, then ten seconds, doubled up to the sixth, then five
-- minutes.
abbrev pub Waits : ℕ → ℕ → Type 0
Waits n d =
    ((n ≤ 1) × (d ≡ 0)) ⊎ (((2 ≤ n) × (n ≤ 6) × (d ≡ 10 * 2 ^ (n - 2))) ⊎ ((7 ≤ n) × (d ≡ 300)))

delay-Waits : (n : ℕ) → Waits n (delay_secs n)
unfolding delay_secs
delay-Waits zero = inl (omega arith, refl)
delay-Waits (suc zero) = inl (omega arith, refl)
delay-Waits (suc (suc zero)) = inr (inl (omega arith, omega arith, refl))
delay-Waits (suc (suc (suc zero))) = inr (inl (omega arith, omega arith, refl))
delay-Waits (suc (suc (suc (suc zero)))) = inr (inl (omega arith, omega arith, refl))
delay-Waits (suc (suc (suc (suc (suc zero))))) = inr (inl (omega arith, omega arith, refl))
delay-Waits (suc (suc (suc (suc (suc (suc zero)))))) = inr (inl (omega arith, omega arith, refl))
delay-Waits (suc (suc (suc (suc (suc (suc (suc n))))))) =
    let seven : suc (suc (suc (suc (suc (suc (suc n)))))) ≡ n + 7 = omega arith in
    inr (inr (omega arith, ap delay_secs seven ∙ (delay_secs_lem n).3))

-- The state that the exit code gives.
abbrev pub Final : ℤ → ResourceState → Type 0
Final code st =
    ((code ≡ pos 0) × (st ≡ succeeded))
    ⊎ ((code ≢ pos 0) × (st ≡ failed (codes "exit code " ++ exit_text code)))

final_state-Final : (code : ℤ) → Final code (final_state code)
final_state-Final code = elim (Bool-cases (is_zero code)) [
  | inl z ↦ inl ((zero_code code).0 z, rw z refl)
  | inr z ↦ inr (λ e. absurd (ground (arith, z, (zero_code code).1 e)), rw z refl)
]

-- What becomes of the tracker and the store when a container of the pod `t` exits.
abbrev pub Handled : ℕ → Exits → Text → ℤ → ResourceTracker → Text → Checked Exits → Type 0
Handled now e id code t policy r =
    (Restarts policy code
      × ((d : ℕ) × Waits (unwrap_or (Dict.get id e.restart_counts) 0 + 1) d
          × (r
              ≡ ok (record e {
                running = Dict.remove id e.running;
                restart_counts =
                    Dict.put id (unwrap_or (Dict.get id e.restart_counts) 0 + 1) e.restart_counts;
                restarts = record { delay_secs = d; uid = uid t.resource } ∷ e.restarts;
              }))))
    ⊎ ((Restarts policy code → ⊥)
        × ((s : ResourceStore) × (st : ResourceState) × Final code st
            × (r ≡ ok (record e { running = Dict.remove id e.running; store = s }))
            × ((j : Text)
                → get j s ≡ (
                    if text_eq (uid t.resource) j
                    then restate now st (get (uid t.resource) e.store)
                    else get j e.store))))

not_empty : (s t : Text) (c : ℕ) → s ++ (c ∷ t) ≢ []
not_empty [] t c p = absurd (ground (arith, p))
not_empty (x ∷ s) t c p = absurd (ground (arith, p))

uid-not_empty : (r : AnyResource) → uid r ≢ []
unfolding uid
uid-not_empty r = not_empty (kind r) (namespace r ++ (b'/' ∷ name r)) b'/'

schedule-not_empty :
    (key : Text) (n : ℕ) (rs : List Restart)
    → key ≢ []
    → schedule key n rs ≡ record { delay_secs = delay_secs n; uid = key } ∷ rs
schedule-not_empty [] n rs ne = absurd (ne refl)
schedule-not_empty (c ∷ s) n rs ne = refl

finish-get :
    (now : ℕ) (key j : Text) (code : ℤ) (s : ResourceStore) (r : AnyResource)
    → key ≢ []
    → get j (finish now key code s)
      ≡ (if text_eq key j then restate now (final_state code) (get key s) else get j s)
finish-get now [] j code s r ne = absurd (ne refl)
finish-get now (c ∷ key) j code s r ne = (store_changes now r (c ∷ key) j (final_state code) s).2

-- A container that exits is no longer among the running ones. What follows is decided by the pod
-- that the tracker takes for its own, the first in the store whose name and a dash begin the
-- container's id. If that pod's restart policy says so, the count of the container goes up by one
-- and the pod is scheduled to become `Pending` after the delay of the new count; the store stays.
-- Otherwise the pod's state becomes `Succeeded` for the code 0 and `Failed` with the code for any
-- other, every other key of the store stays, and nothing is scheduled.
pub handle_exited_lem :
    (now : ℕ) (e : Exits) (id : Text) (code : ℤ) (t : ResourceTracker) (p : Pod) (policy : Text)
    → IsOwner id e.store t p
    → Declares p policy
    → unwrap_or (Dict.get id e.restart_counts) 0 + 1 < 2 ^ 32
    → Handled now e id code t policy (handle_exited now e (id, code))
unfolding handle_exited
handle_exited_lem now e id code t p policy own says fits =
    let found : owner id (get_all e.store) ≡ some t =
      ap (owner id) own.stored
      ∙ owner_behind id own.before own.behind t p own.is_pod own.begins own.no_other in
    let chosen : policy_of (some t) ≡ policy = declared p t policy own.is_pod says in
    elim (Bool-cases (should_restart policy code)) [
      | inl again ↦
          rw (found, chosen, again, add32_ok (unwrap_or (Dict.get id e.restart_counts) 0) 1 fits)
            (inl (
              restarts policy code again,
              (
                delay_secs (unwrap_or (Dict.get id e.restart_counts) 0 + 1),
                delay-Waits (unwrap_or (Dict.get id e.restart_counts) 0 + 1),
                ap
                    (λ (rs : List Restart). ok (record e {
                      running = Dict.remove id e.running;
                      restart_counts =
                          Dict.put id (unwrap_or (Dict.get id e.restart_counts) 0 + 1)
                            e.restart_counts;
                      restarts = rs;
                    }))
                    (schedule-not_empty (uid t.resource)
                      (unwrap_or (Dict.get id e.restart_counts) 0 + 1) e.restarts
                      (uid-not_empty t.resource)),
              ),
            ))
      | inr last ↦
          rw (found, chosen, last)
            (inr (
              stays policy code last,
              (
                finish now (uid t.resource) code e.store,
                final_state code,
                final_state-Final code,
                refl,
                λ j.
                    finish-get now (uid t.resource) j code e.store t.resource
                      (uid-not_empty t.resource),
              ),
            ))
    ]
