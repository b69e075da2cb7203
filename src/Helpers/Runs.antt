-- ===== src/Helpers/Runs.antt =====
-- setup.go: the two scenario loops. A call that does not return ends them; of what they log, the two counts
-- are kept. Their operation, a call of page.Evaluate, is the driver's.
pub mod Totals
use browserpm.Common.{
  ℕ, zero, suc, Bool, true, false, String, Option, none, some, List, ◌==◌, if◌then◌else◌,
}
use browserpm.Common.Int.{ℤ, pos, pos_part, ◌+ℤ◌, eqb_ℤ}
use browserpm.Errors.{Outcome}
use browserpm.Driver.{Driver, Trace}
use browserpm.Session.State.{Session, Others, Caller, replied, waits, crashed}
use browserpm.Session.Share.{do_share}
use browserpm.Mocks.Killer.{Processes, Log}
use browserpm.Mocks.Crash.{CrashSimulator, kill_renderer_process}
use browserpm.Helpers.Faults.{FaultInjectionTest, kill_renderer}

-- How many operations succeeded, and how many returned an error.
pub record Counts : Type 0 where
  pub successes : ℕ
  pub failures : ℕ

abbrev pub no_counts : Counts
no_counts = record { successes = 0; failures = 0 }

abbrev counted : Bool → Counts → Counts
counted true c = record c { successes = suc c.successes }
counted false c = record c { failures = suc c.failures }

module _ (d : Driver) (others : Others) (caller : Caller) where
  -- The loop of RunConnectionDropScenario, for so many rounds. The drop is only logged.
  unfoldable pub drop_loop : ℕ → Counts → Session → Trace → Option Counts × Session × Trace
  drop_loop zero c s t = (some c, s, t)
  drop_loop (suc rounds) c s t =
      let (r, s', t') = do_share d others caller s t in
      elim r [
        | replied none ↦ drop_loop rounds (counted true c) s' t'
        | replied (some e) ↦ drop_loop rounds (counted false c) s' t'
        | waits ↦ (none, s', t')
        | crashed ↦ (none, s', t')
      ]

  unfoldable pub run_connection_drop_scenario :
      ℤ → Session → Trace → Option Counts × Session × Trace
  run_connection_drop_scenario drop_after s t =
      drop_loop (pos_part (drop_after +ℤ pos 10)) no_counts s t

  module _ (x : Processes) (infos_of : Log → Outcome (List (ℤ × String))) where
    -- The killing of the round whose index is `crash_at`; its error is dropped.
    abbrev crash : ℤ → ℕ → FaultInjectionTest → Log → FaultInjectionTest × Log
    crash crash_at i f l =
        let (w, f', l') = kill_renderer x infos_of f l in
        if eqb_ℤ (pos i) crash_at then (f', l') else (f, l)

    -- The loop of RunCrashScenario, from the index `i` on.
    unfoldable pub crash_loop :
        ℤ
        → ℕ
        → ℕ
        → Counts
        → FaultInjectionTest
        → Log
        → Session
        → Trace
        → Option Counts × FaultInjectionTest × Session × Trace
    crash_loop crash_at zero i c f l s t = (some c, f, s, t)
    crash_loop crash_at (suc rounds) i c f l s t =
        let (r, s', t') = do_share d others caller s t in
        let (f', l') = crash crash_at i f l in
        elim r [
          | replied none ↦ crash_loop crash_at rounds (suc i) (counted true c) f' l' s' t'
          | replied (some e) ↦ crash_loop crash_at rounds (suc i) (counted false c) f' l' s' t'
          | waits ↦ (none, f, s', t')
          | crashed ↦ (none, f, s', t')
        ]

    unfoldable pub run_crash_scenario :
        ℤ
        → FaultInjectionTest
        → Log
        → Session
        → Trace
        → Option Counts × FaultInjectionTest × Session × Trace
    run_crash_scenario ops_before_crash f l s t =
        crash_loop ops_before_crash (pos_part (ops_before_crash +ℤ pos 5)) 0 no_counts f l s t
