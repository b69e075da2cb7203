-- ===== src/Mocks/Crash.antt =====
-- browser.go of test_scenarios/mock: BrowserCrashSimulator. What tells it the processes of the browser, with
-- their ids and types, is a function of its own and so a parameter.
pub mod Counts
use text.Mathlib.Text.{◌==◌}
use browserpm.Common.{
  ℕ, suc, Bool, true, false, ◌||◌, Option, none, some, List, [], ◌∷◌, String, if◌then◌else◌,
}
use browserpm.Common.Int.{ℤ, negsuc, eqb_ℤ}
use browserpm.Errors.{Error, Outcome, ok, err, foreign, foreign_wrap, Wait, returned, hangs}
use browserpm.Mocks.Killer.{
  Processes, ProcessKiller, Log, infos_asked, kill_process, new_process_killer,
}

pub record CrashSimulator : Type 0 where
  pub killer : ProcessKiller
  pub crashed : Bool

-- NewBrowserCrashSimulator, IsCrashed and Reset.
abbrev pub new_crash_simulator : CrashSimulator
new_crash_simulator = record { killer = new_process_killer; crashed = false }

abbrev pub is_crashed : CrashSimulator → Bool
is_crashed s = s.crashed

abbrev pub clear_crash : CrashSimulator → CrashSimulator
clear_crash s = record s { crashed = false }

-- The loop of KillMainProcess over the types, with -1 for none.
unfoldable pub browser_pid : List (ℤ × String) → ℤ
browser_pid [] = negsuc 0
browser_pid ((pid, type) ∷ infos) =
    let rest = browser_pid infos in if type == "browser" then pid else rest

abbrev pub first_pid : List (ℤ × String) → ℤ
first_pid [] = negsuc 0
first_pid ((pid, type) ∷ infos) = pid

-- The process that KillMainProcess picks: without one of the type browser, the first.
abbrev pub main_pid : List (ℤ × String) → ℤ
main_pid infos =
    let pid = browser_pid infos in if eqb_ℤ pid (negsuc 0) then first_pid infos else pid

-- The loops of KillRendererProcess and KillGPUProcess.
unfoldable pub renderer_pid : List (ℤ × String) → Option ℤ
renderer_pid [] = none
renderer_pid ((pid, type) ∷ infos) =
    let rest = renderer_pid infos in if type == "renderer" || type == "tab" then some pid else rest

unfoldable pub gpu_pid : List (ℤ × String) → Option ℤ
gpu_pid [] = none
gpu_pid ((pid, type) ∷ infos) = let rest = gpu_pid infos in if type == "gpu" then some pid else rest

module _ (x : Processes) where
  abbrev kill_by : ℤ → CrashSimulator → Log → Wait (Option Error) × CrashSimulator × Log
  kill_by pid s t =
      let (w, pk, t') = kill_process x pid s.killer t in (w, record s { killer = pk }, t')

  -- The loop of KillAllProcesses, with the count and the last error.
  unfoldable pub kill_all_loop :
      List (ℤ × String)
      → ℕ
      → Option Error
      → ProcessKiller
      → Log
      → Wait (ℕ × Option Error) × ProcessKiller × Log
  kill_all_loop [] killed last_err pk t = (returned (killed, last_err), pk, t)
  kill_all_loop ((pid, type) ∷ infos) killed last_err pk t =
      let (w, pk', t') = kill_process x pid pk t in
      elim w [
        | hangs ↦ (hangs, pk', t')
        | returned none ↦ kill_all_loop infos (suc killed) last_err pk' t'
        | returned (some e) ↦ kill_all_loop infos killed (some e) pk' t'
      ]

module _ (x : Processes) (infos_of : Log → Outcome (List (ℤ × String))) where
  unfoldable pub kill_main_process :
      CrashSimulator → Log → Wait (Option Error) × CrashSimulator × Log
  kill_main_process s t =
      let t1 : Log = infos_asked ∷ t in
      elim (infos_of t) [
        | err e ↦ (returned (some (foreign_wrap "failed to get process infos" e)), s, t1)
        | ok infos ↦
            if eqb_ℤ (main_pid infos) (negsuc 0)
            then (returned (some (foreign "no browser process found")), s, t1)
            else kill_by x (main_pid infos) (record s { crashed = true }) t1
      ]

  unfoldable pub kill_all_processes :
      CrashSimulator → Log → Wait (ℕ × Option Error) × CrashSimulator × Log
  kill_all_processes s t =
      let t1 : Log = infos_asked ∷ t in
      elim (infos_of t) [
        | err e ↦ (returned (0, some (foreign_wrap "failed to get process infos" e)), s, t1)
        | ok infos ↦
            let (w, pk, t') = kill_all_loop x infos 0 none s.killer t1 in
            (w, record s { killer = pk; crashed = true }, t')
      ]

  -- What KillRendererProcess and KillGPUProcess do with the process that they find.
  unfoldable pub kill_found :
      (List (ℤ × String) → Option ℤ)
      → String
      → CrashSimulator
      → Log
      → Wait (Option Error) × CrashSimulator × Log
  kill_found pick missing s t =
      let t1 : Log = infos_asked ∷ t in
      elim (infos_of t) [
        | err e ↦ (returned (some (foreign_wrap "failed to get process infos" e)), s, t1)
        | ok infos ↦ elim (pick infos) [
          | none ↦ (returned (some (foreign missing)), s, t1)
          | some pid ↦ kill_by x pid s t1
        ]
      ]

  abbrev pub kill_renderer_process :
      CrashSimulator → Log → Wait (Option Error) × CrashSimulator × Log
  kill_renderer_process s t = kill_found renderer_pid "no renderer process found" s t

  abbrev pub kill_gpu_process : CrashSimulator → Log → Wait (Option Error) × CrashSimulator × Log
  kill_gpu_process s t = kill_found gpu_pid "no GPU process found" s t
