-- ===== src/Helpers/Faults.antt =====
-- setup.go: FaultInjectionTest, less its manager and its scenario loops. It has a killer of its own besides that
-- of its crash simulator. The processes of the browser, as the manager's GetProcessInfos tells them, are
-- the parameter `infos_of`.
use browserpm.Common.{
  ◌≡◌, refl, false, String, ℕ, Bool, ◌&&◌, Option, none, some, List, [], ◌∷◌, length, if◌then◌else◌,
}
use browserpm.Common.Int.{ℤ, pos, ltb_ℤ, eqb_ℤ}
use browserpm.Errors.{Error, Outcome, Called, Wait, returned, hangs}
use browserpm.Mocks.Crash.{
  CrashSimulator, new_crash_simulator, kill_main_process, kill_all_processes, kill_renderer_process,
}
use browserpm.Mocks.Faults.{
  generate_connection_error, generate_timeout_error, generate_network_error,
}
use browserpm.Mocks.Killer.{new_process_killer, Processes, ProcessKiller, KillRecord, Log}
use browserpm.Mocks.Killer
use browserpm.Helpers.Bench.{Flow, error_f, pass}

pub record FaultInjectionTest : Type 0 where
  pub killer : ProcessKiller
  pub crash_sim : CrashSimulator
  pub setup_count : ℤ

-- NewFaultInjectionTest, SetupCrashOnOp, Killer and CrashSimulator.
abbrev pub new_fault_injection_test : FaultInjectionTest
new_fault_injection_test = record {
  killer = new_process_killer;
  crash_sim = new_crash_simulator;
  setup_count = pos 0;
}

abbrev pub setup_crash_on_op : ℤ → FaultInjectionTest → FaultInjectionTest
setup_crash_on_op after_ops f = record f { setup_count = after_ops }

-- The loop of AssertProcessKilled over the history.
unfoldable pub killed_loop : List KillRecord → ℤ → Bool → Flow
killed_loop [] pid failed = error_f failed
killed_loop (r ∷ history) pid failed =
    let rest = killed_loop history pid failed in
    if eqb_ℤ r.pid pid && r.success then pass failed else rest

abbrev pub assert_process_killed : ℤ → ProcessKiller → Bool → Flow
assert_process_killed pid pk failed = killed_loop pk.kill_history pid failed

unfoldable pub assert_process_count_killed : ℤ → ProcessKiller → Bool → Flow
assert_process_count_killed min_count pk failed =
    if ltb_ℤ (pos (length pk.killed_pids)) min_count then error_f failed else pass failed

module _ (x : Processes) where
  -- KillBrowserProcess.
  abbrev pub kill_browser_process :
      ℤ → ProcessKiller → Log → Wait (Option Error) × ProcessKiller × Log
  kill_browser_process pid pk t = Killer.kill_process x pid pk t

  -- KillBrowser: the first of the errors.
  unfoldable pub kill_browser : ProcessKiller → Log → Wait (Option Error) × ProcessKiller × Log
  kill_browser pk t =
      let (w, pk', t') = Killer.kill_browser x pk t in
      (
        elim w [
          | hangs ↦ hangs
          | returned (killed, []) ↦ returned none
          | returned (killed, e ∷ errs) ↦ returned (some e)
        ],
        pk',
        t',
      )

  module _ (infos_of : Log → Outcome (List (ℤ × String))) where
    -- KillMainBrowserProcess, KillAllBrowserProcesses and KillRendererProcess.
    unfoldable pub kill_main_browser_process :
        FaultInjectionTest → Log → Wait (Option Error) × FaultInjectionTest × Log
    kill_main_browser_process f t =
        let (w, s, t') = kill_main_process x infos_of f.crash_sim t in
        (w, record f { crash_sim = s }, t')

    unfoldable pub kill_all_browser_processes :
        FaultInjectionTest → Log → Wait (ℕ × Option Error) × FaultInjectionTest × Log
    kill_all_browser_processes f t =
        let (w, s, t') = kill_all_processes x infos_of f.crash_sim t in
        (w, record f { crash_sim = s }, t')

    unfoldable pub kill_renderer :
        FaultInjectionTest → Log → Wait (Option Error) × FaultInjectionTest × Log
    kill_renderer f t =
        let (w, s, t') = kill_renderer_process x infos_of f.crash_sim t in
        (w, record f { crash_sim = s }, t')

    -- What the crash simulator kills is not in the history that AssertProcessKilled looks at.
    pub kill_main_browser_process-unseen :
        (f : FaultInjectionTest) (pid : ℤ) (t : Log)
        → let (w, f', t') = kill_main_browser_process f t in
          assert_process_killed pid f'.killer false ≡ assert_process_killed pid f.killer false
    unfolding kill_main_browser_process
    kill_main_browser_process-unseen f pid t = refl

-- InjectConnectionError, InjectTimeoutError and InjectNetworkError.
abbrev pub inject_connection_error : ℕ → Called Error
inject_connection_error idx = generate_connection_error idx

abbrev pub inject_timeout_error : Error
inject_timeout_error = generate_timeout_error

abbrev pub inject_network_error : ℕ → Called Error
inject_network_error idx = generate_network_error idx
