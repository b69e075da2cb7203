-- ===== src/Helpers/Polling/Verdicts.antt =====
-- assertions.go: what AssertEventually and AssertNever find out.
use browserpm.Common.{
  ℕ, zero, suc, ◌-◌, ◌≤◌, ◌<◌, ◌≡◌, ◌⊎◌, inl, inr, Bool, true, false, ◌∷◌, arith, Bool-cases, ltb,
  ltb→lt,
}
use browserpm.Common.Int.{ℤ}
use browserpm.Errors.{returned}
use browserpm.Driver.{Trace, IsClock, clock_read, slept}
use browserpm.Helpers.Bench.{goes_on}
use browserpm.Helpers.Polling.{
  eventually_loop, never_loop, deadline_after, assert_eventually, assert_never,
}

-- The condition holds at one of the polls, which follow each other at the interval, before the deadline.
pub data HoldsBefore (now : Trace → ℕ) (condition : Trace → Bool × Trace) (deadline : ℕ)
    : Trace → Type 0 where
  at_once :
      {t : Trace}
      → now t < deadline
      → (condition (clock_read ∷ t)).0 ≡ true
      → HoldsBefore now condition deadline t
  at_later_poll :
      {t : Trace}
      → now t < deadline
      → HoldsBefore now condition deadline (slept ∷ (condition (clock_read ∷ t)).1)
      → HoldsBefore now condition deadline t

HoldsBefore-cases :
    {now : Trace → ℕ} {condition : Trace → Bool × Trace} {deadline : ℕ} {t : Trace}
    → HoldsBefore now condition deadline t
    → (now t < deadline)
      × (((condition (clock_read ∷ t)).0 ≡ true)
          ⊎ HoldsBefore now condition deadline (slept ∷ (condition (clock_read ∷ t)).1))
HoldsBefore-cases (at_once early holds) = (early, inl holds)
HoldsBefore-cases (at_later_poll early later) = (early, inr later)

module _ (now : Trace → ℕ) (clock : IsClock now) (condition : Trace → Bool × Trace)
    (forward : (t : Trace) → now t ≤ now (condition t).1) where
  -- Both loops come to an end, and their verdicts are opposite: the condition held at a poll before
  -- the deadline, or at none.
  loops_lem :
      (fuel deadline : ℕ) (failed : Bool) (t : Trace)
      → deadline - now t < fuel
      → (HoldsBefore now condition deadline t
          × ((eventually_loop now condition fuel deadline failed t).0 ≡ returned (goes_on failed))
          × ((never_loop now condition fuel deadline failed t).0 ≡ returned (goes_on true)))
        ⊎ ((HoldsBefore now condition deadline t → ⊥)
            × ((eventually_loop now condition fuel deadline failed t).0 ≡ returned (goes_on true))
            × ((never_loop now condition fuel deadline failed t).0 ≡ returned (goes_on failed)))
  unfolding eventually_loop never_loop
  loops_lem zero deadline failed t h = elim h [ ]
  loops_lem (suc fuel) deadline failed t h = elim (Bool-cases (ltb (now t) deadline)) [
    | inr late ↦ inr (
      λ x. ground (arith, late, (HoldsBefore-cases x).0),
      ground (arith, late),
      ground (arith, late),
    )
    | inl early ↦ elim (Bool-cases (condition (clock_read ∷ t)).0) [
      | inl holds ↦ inl (
        at_once (ltb→lt _ _ early) holds,
        ground (arith, early, holds),
        ground (arith, early, holds),
      )
      | inr fails ↦
          let t' : Trace = (condition (clock_read ∷ t)).1 in
          let less : deadline - now (slept ∷ t') < fuel = omega (
            arith,
            h,
            ltb→lt _ _ early,
            clock.forward clock_read t,
            forward (clock_read ∷ t),
            clock.sleep_passes t',
          ) in
          elim (loops_lem fuel deadline failed (slept ∷ t') less) [
            | inl (later, e, n) ↦ inl (
              at_later_poll (ltb→lt _ _ early) later,
              ground (arith, early, fails, e),
              ground (arith, early, fails, n),
            )
            | inr (never, e, n) ↦ inr (
              λ x. elim (HoldsBefore-cases x).1 [
                | inl holds ↦ cc (holds, fails)
                | inr later ↦ never later
              ],
              ground (arith, early, fails, e),
              ground (arith, early, fails, n),
            )
          ]
    ]
  ]

  -- AssertEventually and AssertNever, on the same condition and for the same time, both come to an end, if the
  -- clock passes at every sleep and the condition takes no time back. The one passes and the other fails
  -- if the condition holds at a poll before the deadline, and the other way round if it holds at none.
  pub eventually-never :
      (duration : ℤ) (t : Trace)
      → let polled =
          HoldsBefore now condition (deadline_after now condition duration t) (clock_read ∷ t) in
        let eventually = (assert_eventually now condition duration false t).0 in
        let never = (assert_never now condition duration false t).0 in
        (polled × (eventually ≡ returned (goes_on false)) × (never ≡ returned (goes_on true)))
        ⊎ ((polled → ⊥)
            × (eventually ≡ returned (goes_on true))
            × (never ≡ returned (goes_on false)))
  unfolding assert_eventually assert_never
  eventually-never duration t =
      let deadline : ℕ = deadline_after now condition duration t in
      loops_lem (suc (deadline - now t)) deadline false (clock_read ∷ t)
        (omega (arith, clock.forward clock_read t))
