-- ===== src/Mocks/Killer.antt =====
-- browser.go of test_scenarios/mock: ProcessKiller. The processes of the system, which the library gopsutil
-- shows and kills, are a parameter: answers that depend on the calls made before, newest first. The
-- numbers that fmt.Errorf puts into the messages are left out.
pub mod Records
use browserpm.Common.{
  ℕ, zero, suc, ◌-◌, ◌+◌, Bool, true, false, Option, none, some, List, [], ◌∷◌, ◌++◌, String, ltb,
  leb, length, ◌&&◌, ◌||◌, if◌then◌else◌,
}
use browserpm.Common.Text.{codes}
use browserpm.Helpers.Substring.{same, contains_helper}
use browserpm.Common.Int.{ℤ, pos, ltb_ℤ}
use browserpm.Errors.{Error, Outcome, ok, err, foreign, foreign_wrap, Wait, returned, hangs}

pub data ProcessCall : Type 0 where
  exists_asked process_opened process_killed : ℤ → ProcessCall
  clock_read slept processes_listed infos_asked : ProcessCall

abbrev pub Log : Type 0
Log = List ProcessCall

-- process.PidExists, NewProcess and Kill, the clock, and process.Processes with what Name says of each.
pub record Processes : Type 0 where
  pub pid_exists : ℤ → Log → Outcome Bool
  pub new_process : ℤ → Log → Option Error
  pub kill : ℤ → Log → Option Error
  pub processes : Log → Outcome (List (ℤ × Option String))
  pub now : Log → ℕ

pub data KillSignal : Type 0 where
  sigkill sigterm : KillSignal

pub record KillRecord : Type 0 where
  pub pid : ℤ
  pub signal : String
  pub timestamp : ℕ
  pub success : Bool
  pub error : Option Error

pub record ProcessKiller : Type 0 where
  pub killed_pids : List ℤ
  pub kill_history : List KillRecord
  pub dry_run : Bool
  pub skip_kill : Bool
  pub kill_signal : KillSignal
  pub grace_period : ℤ

abbrev pub new_process_killer : ProcessKiller
new_process_killer = record {
  killed_pids = [];
  kill_history = [];
  dry_run = false;
  skip_kill = false;
  kill_signal = sigkill;
  grace_period = pos 0;
}

-- SetDryRun, SetSkipKill, SetKillSignal, SetGracePeriod and Reset.
abbrev pub set_dry_run : Bool → ProcessKiller → ProcessKiller
set_dry_run b pk = record pk { dry_run = b }

abbrev pub set_skip_kill : Bool → ProcessKiller → ProcessKiller
set_skip_kill b pk = record pk { skip_kill = b }

abbrev pub set_kill_signal : KillSignal → ProcessKiller → ProcessKiller
set_kill_signal s pk = record pk { kill_signal = s }

abbrev pub set_grace_period : ℤ → ProcessKiller → ProcessKiller
set_grace_period d pk = record pk { grace_period = d }

abbrev pub reset : ProcessKiller → ProcessKiller
reset pk = record pk { killed_pids = []; kill_history = [] }

abbrev pub signal_name : KillSignal → String
signal_name sigkill = "SIGKILL"
signal_name sigterm = "SIGTERM"

-- The record that KillProcess starts with.
abbrev pub new_record : ℤ → ℕ → KillRecord
new_record pid now = record {
  pid = pid;
  signal = "";
  timestamp = now;
  success = false;
  error = none;
}

abbrev pub failed_with : KillRecord → Error → KillRecord
failed_with r e = record r { error = some e }

-- The deferred function: the record goes into the history, and the process id into the list.
unfoldable pub put_down : KillRecord → ProcessKiller → ProcessKiller
put_down r pk = record pk {
  kill_history = pk.kill_history ++ (r ∷ []);
  killed_pids = pk.killed_pids ++ (r.pid ∷ []);
}

abbrev pub browser_names : List String
browser_names =
    "chromium" ∷ "chrome" ∷ "Chromium" ∷ "Chrome" ∷ "chromium-browser" ∷ "google-chrome" ∷ []

-- containsSubstring; its helper is that of assertions.go.
unfoldable pub contains_substring : List ℕ → List ℕ → Bool
contains_substring s substr =
    leb (length substr) (length s)
    && (same s substr || (ltb (length substr) (length s) && contains_helper s substr))

-- The inner loop of FindBrowserProcesses.
unfoldable pub is_browser : List ℕ → List String → Bool
is_browser name [] = false
is_browser name (b ∷ bs) =
    let rest = is_browser name bs in
    if same name (codes b) || contains_substring name (codes b) then true else rest

-- Its outer loop; a process whose name cannot be read is passed over.
unfoldable pub find_loop : List (ℤ × Option String) → List ℤ
find_loop [] = []
find_loop ((pid, none) ∷ ps) = find_loop ps
find_loop ((pid, some name) ∷ ps) =
    let rest = find_loop ps in if is_browser (codes name) browser_names then pid ∷ rest else rest

module _ (x : Processes) where
  -- The loop that waits for the end of the process; an error of PidExists counts as its end.
  unfoldable pub verify_loop : ℕ → ℕ → ℤ → Log → Wait (Unit {0}) × Log
  verify_loop zero deadline pid t = (hangs, t)
  verify_loop (suc fuel) deadline pid t =
      let t1 : Log = clock_read ∷ t in
      let t2 : Log = exists_asked pid ∷ t1 in
      let rest = verify_loop fuel deadline pid (slept ∷ t2) in
      if ltb (x.now t) deadline
      then (elim (x.pid_exists pid t1) [ ok true ↦ rest | _ ↦ (returned tt, t2) ])
      else (returned tt, t1)

  -- The end of KillProcess, after the signal: the grace period, and five seconds for the process to end.
  unfoldable pub verify : ProcessKiller → KillRecord → Log → Wait KillRecord × Log
  verify pk r t =
      let t1 : Log = if ltb_ℤ (pos 0) pk.grace_period then slept ∷ t else t in
      let deadline = x.now t1 + 5000000000 in
      let (w, t2) = verify_loop (suc (deadline - x.now t1)) deadline r.pid (clock_read ∷ t1) in
      (elim w [ hangs ↦ hangs | returned _ ↦ returned (record r { success = true }) ], t2)

  -- The middle of KillProcess, for a process that exists.
  unfoldable pub send : ProcessKiller → KillRecord → Log → Wait (KillRecord × Option Error) × Log
  send pk r t =
      let t1 : Log = process_opened r.pid ∷ t in
      let t2 : Log = process_killed r.pid ∷ t1 in
      let named : KillRecord = record r { signal = signal_name pk.kill_signal } in
      let (w, t3) = verify pk named t2 in
      elim (x.new_process r.pid t) [
        | some e ↦ (returned (failed_with r e, some (foreign_wrap "failed to find process" e)), t1)
        | none ↦ elim (x.kill r.pid t1) [
          | some e ↦
              (returned (failed_with named e, some (foreign_wrap "failed to kill process" e)), t2)
          | none ↦ (elim w [ hangs ↦ hangs | returned r' ↦ returned (r', none) ], t3)
        ]
      ]

  -- KillProcess without its deferred function: the record and what is returned.
  unfoldable pub attempt : ProcessKiller → KillRecord → Log → Wait (KillRecord × Option Error) × Log
  attempt pk r t =
      let t1 : Log = exists_asked r.pid ∷ t in
      let gone : Error = foreign "process does not exist" in
      if pk.dry_run
      then (returned (record r { signal = "DRY_RUN"; success = true }, none), t)
      else (elim (x.pid_exists r.pid t) [
        | err e ↦ (
          returned (failed_with r e, some (foreign_wrap "failed to check if process exists" e)),
          t1,
        )
        | ok false ↦ (returned (failed_with r gone, some gone), t1)
        | ok true ↦ send pk r t1
      ])

  -- KillProcess.
  unfoldable pub kill_process : ℤ → ProcessKiller → Log → Wait (Option Error) × ProcessKiller × Log
  kill_process pid pk t =
      let (w, t') = attempt pk (new_record pid (x.now t)) (clock_read ∷ t) in
      if pk.skip_kill
      then (returned none, pk, t)
      else (elim w [ hangs ↦ (hangs, pk, t') | returned (r, e) ↦ (returned e, put_down r pk, t') ])

  -- FindBrowserProcesses.
  unfoldable pub find_browser_processes : Log → Outcome (List ℤ) × Log
  find_browser_processes t = (
    elim (x.processes t) [
      | err e ↦ err (foreign_wrap "failed to list processes" e)
      | ok ps ↦ ok (find_loop ps)
    ],
    processes_listed ∷ t,
  )

  -- The loop of KillBrowser.
  unfoldable pub kill_each :
      List ℤ → ℕ → List Error → ProcessKiller → Log → Wait (ℕ × List Error) × ProcessKiller × Log
  kill_each [] killed errs pk t = (returned (killed, errs), pk, t)
  kill_each (pid ∷ pids) killed errs pk t =
      let (w, pk', t') = kill_process pid pk t in
      let good = kill_each pids (suc killed) errs pk' t' in
      elim w [
        | hangs ↦ (hangs, pk', t')
        | returned none ↦ good
        | returned (some e) ↦ kill_each pids killed (errs ++ (e ∷ [])) pk' t'
      ]

  -- KillBrowser.
  unfoldable pub kill_browser : ProcessKiller → Log → Wait (ℕ × List Error) × ProcessKiller × Log
  kill_browser pk t =
      let (r, t') = find_browser_processes t in
      elim r [ err e ↦ (returned (0, e ∷ []), pk, t') | ok pids ↦ kill_each pids 0 [] pk t' ]
