-- ===== src/Scheduler/Process/Exits/Removal.antt =====
-- src/scheduler/process.rs: which containers `handle_exited_containers` removes.
use z8s.Base.{
  ℕ, suc, ◌+◌, ◌^◌, ◌<◌, ◌≡◌, refl, sym, ap, ◌∙◌, ◌≢◌, inl, inr, Bool, true, false, ◌&&◌, ◌||◌,
  Option, none, some, List, [], ◌∷◌, arith, if◌then◌else◌, Bool-cases, unwrap_or, is_some, length,
  any, All,
}
use z8s.Base.Text.{Text, text_eq, text_eq_iff}
use z8s.Base.Int.{ℤ}
use mathlib.Core.Path.{subst}
use z8s.Base.Dict
use z8s.Base.Dict.{Dict, get-remove}
use z8s.Base.Checked.{Checked, ok, ◌>>=◌, add32_ok}
use z8s.Resource.Store.{get_all}
use z8s.Scheduler.Process.{RunningContainer, lookup}
use z8s.Scheduler.Process.Exits.{
  Exits, exit_of, dead_at, dead_of, push_dead, dead_in, owner, policy_of, should_restart,
  handle_exited, handle_dead, handle_exited_containers,
}

-- Every container stands under its id, and no id stands twice.
abbrev pub Fresh : Text → Dict RunningContainer → Type 0
Fresh k running = All (λ e. k ≢ e.0) running

abbrev pub IsTracked : Dict RunningContainer → Type 0
IsTracked [] = Unit
IsTracked ((k, rc) ∷ running) = (k ≡ rc.instance.container_id) × Fresh k running × IsTracked running

-- No count is so high that `n` more restarts overflow its u32.
abbrev pub HasRoom : ℕ → Dict ℕ → Type 0
HasRoom n counts = All (λ e. e.1 + n < 2 ^ 32) counts

abbrev is_dead : Text → List (Text × ℤ) → Bool
is_dead k dead = any (λ d. text_eq d.0 k) dead

get-HasRoom :
    (k : Text) (n : ℕ) (counts : Dict ℕ)
    → n < 2 ^ 32
    → HasRoom n counts
    → unwrap_or (Dict.get k counts) 0 + n < 2 ^ 32
unfolding Dict.get
get-HasRoom k n [] small h = omega (arith, small)
get-HasRoom k n ((j, c) ∷ counts) small (h, hs) = elim (Bool-cases (text_eq j k)) [
  | inl e ↦ rw e h
  | inr e ↦ rw e (get-HasRoom k n counts small hs)
]

less-HasRoom : (n : ℕ) (counts : Dict ℕ) → HasRoom (suc n) counts → HasRoom n counts
less-HasRoom n [] h = tt
less-HasRoom n ((j, c) ∷ counts) (h, hs) = (omega arith, less-HasRoom n counts hs)

put-HasRoom :
    (k : Text) (c n : ℕ) (counts : Dict ℕ)
    → c + n < 2 ^ 32
    → HasRoom n counts
    → HasRoom n (Dict.put k c counts)
unfolding Dict.put
put-HasRoom k c n [] h hs = (h, tt)
put-HasRoom k c n ((j, d) ∷ counts) h (hd, hs) = elim (Bool-cases (text_eq j k)) [
  | inl e ↦ rw e (h, hs)
  | inr e ↦ rw e (hd, put-HasRoom k c n counts h hs)
]

-- What a round leaves.
abbrev Left : ℕ → Text → Exits → Checked Exits → Type 0
Left n id e r =
    (e' : Exits) × (r ≡ ok e')
    × (e'.running ≡ Dict.remove id e.running)
    × HasRoom n e'.restart_counts

handle_exited-HasRoom :
    (now n : ℕ) (e : Exits) (id : Text) (code : ℤ)
    → suc n < 2 ^ 32
    → HasRoom (suc n) e.restart_counts
    → Left n id e (handle_exited now e (id, code))
unfolding handle_exited
handle_exited-HasRoom now n e id code small h =
    elim (Bool-cases (should_restart (policy_of (owner id (get_all e.store))) code)) [
      | inl yes_ ↦
          rw
            (
              yes_,
              add32_ok (unwrap_or (Dict.get id e.restart_counts) 0) 1
                  (omega (arith, get-HasRoom id (suc n) e.restart_counts small h)),
            )
            (
              _,
              refl,
              refl,
              put-HasRoom id (unwrap_or (Dict.get id e.restart_counts) 0 + 1) n e.restart_counts
                  (omega (arith, get-HasRoom id (suc n) e.restart_counts small h))
                  (less-HasRoom n e.restart_counts h),
            )
      | inr no_ ↦ rw no_ (_, refl, refl, less-HasRoom n e.restart_counts h)
    ]

-- What the whole loop leaves.
abbrev LeftAll : List (Text × ℤ) → Exits → Checked Exits → Type 0
LeftAll dead e r =
    (e' : Exits) × (r ≡ ok e')
    × ((k : Text) → Dict.get k e'.running ≡ (if is_dead k dead then none else Dict.get k e.running))

either_dead :
    (a b : Bool) (o : Option RunningContainer)
    → (if b then none else (if a then none else o)) ≡ (if a || b then none else o)
either_dead true true o = refl
either_dead true false o = refl
either_dead false b o = refl

handle_dead-HasRoom :
    (now : ℕ) (e : Exits) (dead : List (Text × ℤ))
    → length dead < 2 ^ 32
    → HasRoom (length dead) e.restart_counts
    → LeftAll dead e (handle_dead now e dead)
unfolding handle_dead
handle_dead-HasRoom now e [] small h = (e, refl, λ k. refl)
handle_dead-HasRoom now e ((id, code) ∷ dead) small h =
    let (e1, r1, run1, room1) = handle_exited-HasRoom now (length dead) e id code small h in
    let (e2, r2, run2) = handle_dead-HasRoom now e1 dead (omega arith) room1 in
    (
      e2,
      ap (λ (r : Checked Exits). r >>= λ e'. handle_dead now e' dead) r1 ∙ r2,
      λ k.
          run2 k
          ∙ ap (λ (m : Dict RunningContainer). if is_dead k dead then none else Dict.get k m) run1
          ∙ ap (λ o. if is_dead k dead then none else o) (get-remove id k e.running)
          ∙ either_dead (text_eq id k) (is_dead k dead) (Dict.get k e.running),
    )

pushed_exit :
    (id k : Text) (code : Option ℤ) (dead : List (Text × ℤ))
    → is_dead k (push_dead (exit_of id code) dead)
      ≡ (is_some (exit_of id code) && text_eq id k || is_dead k dead)
pushed_exit id k none dead = refl
pushed_exit id k (some code) dead = refl

-- A container that died is among the dead under its id.
pushed_dead :
    (reaped : List (ℕ × ℤ)) (id k : Text) (pid : Option ℕ) (dead : List (Text × ℤ))
    → is_dead k (push_dead (dead_at reaped id pid) dead)
      ≡ (is_some (dead_at reaped id pid) && text_eq id k || is_dead k dead)
pushed_dead reaped id k none dead = refl
pushed_dead reaped id k (some pid) dead = pushed_exit id k (lookup pid reaped) dead

-- The dead among the containers of a map that has not the id.
Fresh-alive :
    (reaped : List (ℕ × ℤ)) (k : Text) (running : Dict RunningContainer)
    → Fresh k running
    → IsTracked running
    → is_dead k (dead_in reaped (Dict.values running)) ≡ false
unfolding dead_in Dict.values
Fresh-alive reaped k [] h v = refl
Fresh-alive reaped k ((i, u) ∷ running) (ne, h) (eq, fresh, v) =
    pushed_dead reaped u.instance.container_id k u.instance.pid
      (dead_in reaped (Dict.values running))
    ∙ both_false _ _ _ (not_eq (λ p. ne (sym (eq ∙ p)))) (Fresh-alive reaped k running h v)
  where
    both_false : (a b c : Bool) → b ≡ false → c ≡ false → (a && b || c) ≡ false
    both_false true b c p q = rw (p, q) refl
    both_false false b c p q = q

    not_eq : (u.instance.container_id ≢ k) → text_eq u.instance.container_id k ≡ false
    not_eq ne = elim (Bool-cases (text_eq u.instance.container_id k)) [
      | inl same ↦ absurd (ne ((text_eq_iff u.instance.container_id k).0 same))
      | inr other ↦ other
    ]

-- A container of the map is dead exactly if its own process was reaped.
found_dead :
    (reaped : List (ℕ × ℤ)) (k : Text) (rc : RunningContainer) (running : Dict RunningContainer)
    → IsTracked running
    → Dict.get k running ≡ some rc
    → is_dead k (dead_in reaped (Dict.values running)) ≡ is_some (dead_of reaped rc)
unfolding dead_in Dict.values Dict.get
found_dead reaped k rc [] v e = absurd (ground arith)
found_dead reaped k rc ((i, u) ∷ running) (eq, fresh, v) e = elim (Bool-cases (text_eq i k)) [
  | inl same ↦
      let here : text_eq u.instance.container_id k ≡ true = ap (λ t. text_eq t k) (sym eq) ∙ same in
      let gone : is_dead k (dead_in reaped (Dict.values running)) ≡ false =
        Fresh-alive reaped k running (rename ((text_eq_iff i k).0 same)) v in
      pushed_dead reaped u.instance.container_id k u.instance.pid
        (dead_in reaped (Dict.values running))
      ∙ here_only (is_some (dead_of reaped u)) _ _ here gone
      ∙ ap (λ (x : RunningContainer). is_some (dead_of reaped x))
          (some_eq u rc (ground (arith, same, e)))
  | inr other ↦
      let away : text_eq u.instance.container_id k ≡ false =
        ap (λ t. text_eq t k) (sym eq) ∙ other in
      pushed_dead reaped u.instance.container_id k u.instance.pid
        (dead_in reaped (Dict.values running))
      ∙ later_only (is_some (dead_of reaped u)) _ _ away
      ∙ found_dead reaped k rc running v (ground (arith, other, e))
]
  where
    rename : i ≡ k → Fresh k running
    rename p = subst (λ t. Fresh t running) p fresh

    here_only : (a b c : Bool) → b ≡ true → c ≡ false → (a && b || c) ≡ a
    here_only true b c p q = rw p refl
    here_only false b c p q = q

    later_only : (a b c : Bool) → b ≡ false → (a && b || c) ≡ c
    later_only true b c p = rw p refl
    later_only false b c p = refl

    some_eq : (a b : RunningContainer) → some a ≡ some b → a ≡ b
    some_eq a b p = cc

-- What becomes of a container.
abbrev pub survivor : List (ℕ × ℤ) → Option RunningContainer → Option RunningContainer
survivor reaped_map none = none
survivor reaped_map (some rc) = if is_some (dead_of reaped_map rc) then none else some rc

-- When every container stands under its id and no restart count is about to overflow, the handler
-- returns, and of the containers it removes those whose process was reaped and leaves the others.
pub handle_exited_containers_lem :
    (now : ℕ) (reaped_map : List (ℕ × ℤ)) (e : Exits)
    → IsTracked e.running
    → length (dead_in reaped_map (Dict.values e.running)) < 2 ^ 32
    → HasRoom (length (dead_in reaped_map (Dict.values e.running))) e.restart_counts
    → (e' : Exits) × (handle_exited_containers now reaped_map e ≡ ok e')
      × ((k : Text) → Dict.get k e'.running ≡ survivor reaped_map (Dict.get k e.running))
unfolding handle_exited_containers
handle_exited_containers_lem now reaped_map e v small room =
    let dead : List (Text × ℤ) = dead_in reaped_map (Dict.values e.running) in
    let (e', r, left) = handle_dead-HasRoom now e dead small room in
    (e', r, λ k. left k ∙ of_found reaped_map k e.running (Dict.get k e.running) v refl)
  where
    either_none : (b : Bool) → if◌then◌else◌ {A = Option RunningContainer} b none none ≡ none
    either_none true = refl
    either_none false = refl

    of_found :
        (reaped : List (ℕ × ℤ)) (k : Text) (running : Dict RunningContainer)
        (o : Option RunningContainer)
        → IsTracked running
        → Dict.get k running ≡ o
        → (if is_dead k (dead_in reaped (Dict.values running)) then none else o) ≡ survivor reaped o
    of_found reaped k running none v h =
        either_none (is_dead k (dead_in reaped (Dict.values running)))
    of_found reaped k running (some rc) v h =
        ap (λ b. if b then none else some rc) (found_dead reaped k rc running v h)
