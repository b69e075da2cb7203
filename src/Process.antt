-- ===== src/Process.antt =====
-- process.go: the browser's processes, from a reply of the DevTools protocol and the system's tables.
pub mod Reply
pub mod Memory
pub mod Infos
use browserpm.Common.{ℕ, Bool, Option, none, some, List, [], ◌∷◌, String, if◌then◌else◌}
use browserpm.Common.Int.{ℤ}
use browserpm.Errors.{Error, Outcome, ok, err, new_error, wrap_error, invalid_state, internal}
use browserpm.Driver.{Trace, cdp_sent}
use browserpm.Manager.Operations.{Manager}
use browserpm.Process.Reply.{
  Value, Items, nil, cons, Fields, get_field, as_object, as_array, as_number, as_text,
}
use browserpm.Process.Memory.{Processes, Usage, get_process_memory}

-- What lies outside: CDPSession.Send, and Go's float64 with its conversion to int32.
pub record Inspector (Real : Type 0) : Type 0 where
  pub send : Trace → Outcome (Value Real)
  pub zero_real : Real
  pub to_int32 : Real → ℤ
  pub processes : Processes

pub record ProcessInfo (Real : Type 0) : Type 0 where
  pub kind : String
  pub id : ℤ
  pub cpu : Real
  pub memory : Usage

module _ {Real : Type 0} (x : Inspector Real) where
  -- safeFloat.
  abbrev pub safe_float : Value Real → Real
  safe_float v = elim (as_number v) [ some f ↦ f | none ↦ x.zero_real ]

  -- The body of the loop for an entry with a process number.
  unfoldable pub process_info : Real → Fields Real → Trace → ProcessInfo Real × Trace
  process_info pid_float entry t =
      let pid = x.to_int32 pid_float in
      let (m, t') = get_process_memory x.processes pid t in
      (
        record {
          kind = elim (as_text (get_field "type" entry)) [ some s ↦ s | none ↦ "" ];
          id = pid;
          cpu = safe_float (get_field "cpuTime" entry);
          memory = m;
        },
        t',
      )

  -- The loop over the entries; what is no object or has no number is passed over.
  unfoldable pub process_loop : Items Real → Trace → List (ProcessInfo Real) × Trace
  process_loop nil t = ([], t)
  process_loop (cons item items) t = elim (as_object item) [
    | none ↦ process_loop items t
    | some entry ↦ elim (as_number (get_field "id" entry)) [
      | none ↦ process_loop items t
      | some pid_float ↦
          (let (info, t1) = process_info pid_float entry t in
            let (infos, t2) = process_loop items t1 in (info ∷ infos, t2))
    ]
  ]

  -- What GetProcessInfos makes of the results of Send.
  unfoldable pub read_reply :
      Outcome (Value Real) → Trace → Outcome (List (ProcessInfo Real)) × Trace
  read_reply (err e) t = (err (wrap_error e internal "failed to send CDP command"), t)
  read_reply (ok resp) t = elim (as_object resp) [
    | none ↦ (err (new_error internal "invalid CDP response format"), t)
    | some raw ↦ elim (as_array (get_field "processInfo" raw)) [
      | none ↦ (err (new_error internal "processInfo field missing or invalid"), t)
      | some items ↦ (let (infos, t') = process_loop items t in (ok infos, t'))
    ]
  ]

  -- GetProcessInfos.
  unfoldable pub get_process_infos : Manager → Trace → Outcome (List (ProcessInfo Real)) × Trace
  get_process_infos m t =
      if m.has_cdp
      then read_reply (x.send t) (cdp_sent ∷ t)
      else (err (new_error invalid_state "CDP session is nil"), t)
