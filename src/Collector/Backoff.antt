-- ===== src/Collector/Backoff.antt =====
-- The delay before the next attempt of a task.
use work_smt.Base.{
  refl, ◌+◌, ◌-◌, sym, ap, ◌∙◌, subst, inr, leb→le, inl, leb, Bool-cases, zero, arith, ◌^◌, ◌*◌,
  ◌≡◌, ◌≤◌, ℕ,
}
use work_smt.Collector.Models.{CollectorTask, RetryConfig}
use work_smt.Base.Bytes.{Bytes}
use work_smt.Collector.Worker.{schedule_retry, back_off}
use native.Mathlib.Nat.{mul_assoc, pow-succ'}
use Prim.Native.Nat.{suc, min}

double_pow : (d n : ℕ) → d * 2 * 2 ^ n ≡ d * 2 ^ suc n
double_pow d n = mul_assoc d 2 (2 ^ n) ∙ ap (d *◌) (sym (pow-succ' 2 n))

le-mul_pow : (d n : ℕ) → d ≤ d * 2 ^ n
le-mul_pow d zero = omega arith
le-mul_pow d (suc n) = subst (λ x. d ≤ x) (double_pow d n) (omega (arith, le-mul_pow (d * 2) n))

back_off_capped :
    (retry : RetryConfig) (rounds delay : ℕ)
    → delay ≤ retry.max_delay_ms
    → back_off retry rounds delay ≡ min (delay * 2 ^ rounds) retry.max_delay_ms
unfolding back_off
back_off_capped retry zero delay h = omega arith
back_off_capped retry (suc rounds) delay h =
    let e = double_pow delay rounds in
    elim (Bool-cases (leb (delay * 2) retry.max_delay_ms)) [
      | inl l ↦
          let m : min (delay * 2) retry.max_delay_ms ≡ delay * 2 = ground arith in
          rw (m, ← e) (back_off_capped retry rounds (delay * 2) (leb→le _ _ l))
      | inr l ↦
          let m : min (delay * 2) retry.max_delay_ms ≡ retry.max_delay_ms = ground arith in
          let r = back_off_capped retry rounds retry.max_delay_ms (omega arith) in
          let a = le-mul_pow retry.max_delay_ms rounds in
          let b = le-mul_pow (delay * 2) rounds in rw (m, ← e, r) (ground arith)
    ]

-- With a base delay of at most the maximal delay, and at least one back-off step, a retry counts one
-- attempt up to the number of steps, and the next attempt is due after the base delay doubled for
-- each counted attempt but the first, cut at the maximal delay. The delay is at least the base delay,
-- and the state and the upload of the task stay.
pub schedule_retry_lem :
    (retry : RetryConfig) (now : ℕ) (code : Bytes) (task : CollectorTask)
    → retry.base_delay_ms ≤ retry.max_delay_ms
    → 1 ≤ retry.max_backoff_steps
    → let t = schedule_retry retry now code task in
      let delay = min (retry.base_delay_ms * 2 ^ (t.retry_attempts - 1)) retry.max_delay_ms in
      (1 ≤ t.retry_attempts)
      × (t.retry_attempts ≤ retry.max_backoff_steps)
      × (t.next_attempt_milliseconds ≡ now + delay)
      × (retry.base_delay_ms ≤ delay)
      × (t.state ≡ task.state)
      × (t.upload_id ≡ task.upload_id)
unfolding schedule_retry
schedule_retry_lem retry now code task h k =
    let attempts = min (task.retry_attempts + 1) retry.max_backoff_steps in
    (
      omega arith,
      omega arith,
      ap (now +◌) (back_off_capped retry (attempts - 1) retry.base_delay_ms h),
      omega (arith, le-mul_pow retry.base_delay_ms (attempts - 1)),
      refl,
      refl,
    )
