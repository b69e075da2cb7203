-- ===== src/Helpers/Polling.antt =====
-- assertions.go: AssertEventually and AssertNever, which poll a condition until a deadline. The condition is
-- the caller's, and so a parameter: its answer, and the calls that it made. The interval is positive.
pub mod Verdicts
use browserpm.Common.{ℕ, zero, suc, ◌-◌, Bool, true, false, ◌∷◌, ltb, if◌then◌else◌}
use browserpm.Common.Int.{ℤ, pos, pos_part, ◌+ℤ◌}
use browserpm.Errors.{Wait, returned, hangs}
use browserpm.Driver.{Trace, clock_read, slept}
use browserpm.Helpers.Bench.{Flow, pass, error_f}

module _ (now : Trace → ℕ) (condition : Trace → Bool × Trace) where
  -- The loop of AssertEventually, and the failure after it.
  unfoldable pub eventually_loop : ℕ → ℕ → Bool → Trace → Wait Flow × Trace
  eventually_loop zero deadline failed t = (hangs, t)
  eventually_loop (suc fuel) deadline failed t =
      let (holds, t') = condition (clock_read ∷ t) in
      let rest = eventually_loop fuel deadline failed (slept ∷ t') in
      if ltb (now t) deadline
      then (if holds then (returned (pass failed), t') else rest)
      else (returned (error_f failed), clock_read ∷ t)

  -- The loop of AssertNever, which fails inside.
  unfoldable pub never_loop : ℕ → ℕ → Bool → Trace → Wait Flow × Trace
  never_loop zero deadline failed t = (hangs, t)
  never_loop (suc fuel) deadline failed t =
      let (holds, t') = condition (clock_read ∷ t) in
      let rest = never_loop fuel deadline failed (slept ∷ t') in
      if ltb (now t) deadline
      then (if holds then (returned (error_f failed), t') else rest)
      else (returned (pass failed), clock_read ∷ t)

  abbrev pub deadline_after : ℤ → Trace → ℕ
  deadline_after timeout t = pos_part (pos (now t) +ℤ timeout)

  unfoldable pub assert_eventually : ℤ → Bool → Trace → Wait Flow × Trace
  assert_eventually timeout failed t =
      let deadline = deadline_after timeout t in
      eventually_loop (suc (deadline - now t)) deadline failed (clock_read ∷ t)

  unfoldable pub assert_never : ℤ → Bool → Trace → Wait Flow × Trace
  assert_never duration failed t =
      let deadline = deadline_after duration t in
      never_loop (suc (deadline - now t)) deadline failed (clock_read ∷ t)
