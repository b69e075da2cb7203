-- ===== src/Helpers/Runs/Totals.antt =====
-- setup.go: the scenario loops come to an end and count every operation.
use browserpm.Common.{
  ℕ, zero, suc, ◌+◌, ◌≡◌, refl, inl, inr, true, ◌⊎◌, Option, none, some, List, String, arith,
}
use browserpm.Common.Int.{ℤ, pos, pos_part, ◌+ℤ◌}
use browserpm.Errors.{Error, Outcome}
use browserpm.Driver.{Driver, Trace, IsClock}
use browserpm.Session.State.{Session, Others, Caller, Reply, replied, waits, crashed}
use browserpm.Session.Share.{do_share}
use browserpm.Session.Progress.{is_reply, KeepsPool, do_share_returns}
use browserpm.Mocks.Killer.{Processes, Log}
use browserpm.Helpers.Faults.{FaultInjectionTest}
use browserpm.Helpers.Runs.{
  Counts, drop_loop, crash_loop, run_crash_scenario, run_connection_drop_scenario,
}

-- The counts of a run, if it has come to an end, add up to the number of operations.
abbrev AddsUp : ℕ → Option Counts → Type 0
AddsUp n none = ⊥
AddsUp n (some c) = c.successes + c.failures ≡ n

replied-cases :
    (r : Reply) → is_reply r ≡ true → (r ≡ replied none) ⊎ ((e : Error) × (r ≡ replied (some e)))
replied-cases (replied none) h = inl refl
replied-cases (replied (some e)) h = inr (e, refl)
replied-cases waits h = cc
replied-cases crashed h = cc

module _ (d : Driver) (others : Others) (caller : Caller) (clock : IsClock d.now)
    (keeps : KeepsPool others) where
  drop_loop-AddsUp :
      (rounds : ℕ) (c : Counts) (s : Session) (t : Trace) (n : ℕ)
      → c.successes + c.failures + rounds ≡ n
      → AddsUp n (drop_loop d others caller rounds c s t).0
  unfolding drop_loop
  drop_loop-AddsUp zero c s t n h = omega (arith, h)
  drop_loop-AddsUp (suc rounds) c s t n h =
      let (r, s', t') = do_share d others caller s t in
      elim (replied-cases r (do_share_returns d others caller clock keeps s t)) [
        | inl fine ↦ rw (drop_loop, fine) (drop_loop-AddsUp rounds _ s' t' n (omega (arith, h)))
        | inr (e, failed) ↦
            rw (drop_loop, failed) (drop_loop-AddsUp rounds _ s' t' n (omega (arith, h)))
      ]

  module _ (x : Processes) (infos_of : Log → Outcome (List (ℤ × String))) where
    crash_loop-AddsUp :
        (crash_at : ℤ) (rounds i : ℕ) (c : Counts) (f : FaultInjectionTest) (l : Log) (s : Session)
        (t : Trace) (n : ℕ)
        → c.successes + c.failures + rounds ≡ n
        → AddsUp n (crash_loop d others caller x infos_of crash_at rounds i c f l s t).0
    unfolding crash_loop
    crash_loop-AddsUp crash_at zero i c f l s t n h = omega (arith, h)
    crash_loop-AddsUp crash_at (suc rounds) i c f l s t n h =
        let (r, s', t') = do_share d others caller s t in
        elim (replied-cases r (do_share_returns d others caller clock keeps s t)) [
          | inl fine ↦
              rw (crash_loop, fine)
                (crash_loop-AddsUp crash_at rounds (suc i) _ _ _ s' t' n (omega (arith, h)))
          | inr (e, failed) ↦
              rw (crash_loop, failed)
                (crash_loop-AddsUp crash_at rounds (suc i) _ _ _ s' t' n (omega (arith, h)))
        ]

    -- Both scenarios come to an end, if the clock passes at every tick and no other goroutine takes the
    -- pool off the session, whatever dies meanwhile, and the operations that they count as successes
    -- and as errors are all that they ran: five more than precede the crash, and ten more than precede
    -- the drop.
    pub scenarios-AddsUp :
        (k : ℤ) (f : FaultInjectionTest) (l : Log) (s : Session) (t : Trace)
        → AddsUp (pos_part (k +ℤ pos 5)) (run_crash_scenario d others caller x infos_of k f l s t).0
          × AddsUp (pos_part (k +ℤ pos 10)) (run_connection_drop_scenario d others caller k s t).0
    unfolding run_crash_scenario run_connection_drop_scenario
    scenarios-AddsUp k f l s t = (
      crash_loop-AddsUp k (pos_part (k +ℤ pos 5)) 0 _ f l s t _ (omega arith),
      drop_loop-AddsUp (pos_part (k +ℤ pos 10)) _ s t _ (omega arith),
    )
