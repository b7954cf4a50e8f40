-- ===== src/Scheduler/Process/Backoff.antt =====
-- src/scheduler/process.rs: the delay of a restart.
use z8s.Base.{
  ℕ, zero, suc, ◌+◌, ◌-◌, ◌*◌, ◌^◌, ◌≤◌, min, ◌≡◌, refl, sym, ap, ◌∙◌, false, arith, leb,
  if◌then◌else◌,
}

-- `delay_secs`, in u64: at most 10 << 5 before the minimum.
unfoldable pub delay_secs : ℕ → ℕ
delay_secs restart_count =
    if leb restart_count 1 then 0 else min (10 * 2 ^ min (restart_count - 2) 5) 300

capped : (n : ℕ) → 5 ≤ n → delay_secs (n + 2) ≡ 300
unfolding delay_secs
capped n h =
    let five : min (n + 2 - 2) 5 ≡ 5 = omega arith in
    let later : leb (n + 2) 1 ≡ false = ground arith in rw (delay_secs, later, five) refl

doubled : (n : ℕ) → delay_secs (n + 3) ≡ min (2 * delay_secs (n + 2)) 300
unfolding delay_secs
doubled zero = refl
doubled (suc zero) = refl
doubled (suc (suc zero)) = refl
doubled (suc (suc (suc zero))) = refl
doubled (suc (suc (suc (suc zero)))) = refl
doubled (suc (suc (suc (suc (suc n))))) =
    let now = capped (n + 5) (omega arith) in
    let next = capped (n + 6) (omega arith) in
    let now_at : n + 5 + 2 ≡ suc (suc (suc (suc (suc n)))) + 2 = omega arith in
    let next_at : n + 6 + 2 ≡ suc (suc (suc (suc (suc n)))) + 3 = omega arith in
    ap delay_secs (sym next_at) ∙ next ∙ ap (λ d. min (2 * d) 300) (sym now ∙ ap delay_secs now_at)

-- The first restart has no delay and the second one of ten seconds. Each later delay is double the
-- one before, but at most 300 seconds, which all restarts from the seventh on wait.
pub delay_secs_lem :
    (n : ℕ)
    → (delay_secs 1 ≡ 0)
      × (delay_secs 2 ≡ 10)
      × (delay_secs (n + 3) ≡ min (2 * delay_secs (n + 2)) 300)
      × (delay_secs (n + 7) ≡ 300)
unfolding delay_secs
delay_secs_lem n =
    (refl, refl, doubled n, ap delay_secs (omega arith) ∙ capped (n + 5) (omega arith))
