-- ===== src/Helpers/Sessions.antt =====
-- setup.go: TestSession, and the sessions that a TestManager and a FaultInjectionTest create. The one option
-- of a browser context that they set is the user agent. A session's driver calls its providers.
pub mod Works
use text.Mathlib.Text.{◌==◌}
use browserpm.Common.{
  ℕ, ◌+◌, Bool, true, false, not, Option, none, some, List, [], ◌∷◌, String, if◌then◌else◌,
}
use browserpm.Common.Assoc.{lookup}
use browserpm.Errors.{Error, Outcome, ok, err}
use browserpm.Config.{SessionOption}
use browserpm.Driver.{Driver, Trace}
use browserpm.Providers.{
  FuncContextProvider, FuncPageProvider, new_context_provider, new_page_provider, with_providers,
}
use browserpm.Session.State.{Session, Others, Caller, Reply}
use browserpm.Session.Exclusive.{run_do}
use browserpm.Session.Share
use browserpm.Session.Share.{do_share}
use browserpm.Manager.Operations.{Manager, create_session}
use browserpm.Helpers.Bench.{Flow, fatal_f, pass}
use browserpm.Helpers.Cleanup.{TestManager, add_cleanup}

abbrev pub test_context_provider : FuncContextProvider String
test_context_provider = new_context_provider "browserpm-test/1.0" (some (λ x c t. none))

abbrev pub test_page_provider : Driver → FuncPageProvider
test_page_provider d =
    new_page_provider (some (λ x h t. none)) (some (λ x h t. not (d.is_closed h t)))

-- With page.Goto as a parameter.
abbrev pub navigating_page_provider :
    Driver → (String → ℕ → Trace → Option Error) → String → FuncPageProvider
navigating_page_provider d goto url =
    new_page_provider (some (λ x h t. goto url h t)) (some (λ x h t. not (d.is_closed h t)))

-- The providers of CreateSessionWithFaultInjection; a nil function injects nothing.
abbrev pub fault_context_provider : FuncContextProvider String
fault_context_provider = new_context_provider "browserpm-fault-test/1.0" none

abbrev pub fault_page_provider : Driver → Option (Trace → Option Error) → FuncPageProvider
fault_page_provider d inject_fault =
    new_page_provider (some (λ x h t. elim inject_fault [ some inject ↦ inject t | none ↦ none ]))
      (some (λ x h t. not (d.is_closed h t)))

pub record TestSession : Type 0 where
  pub session : Session
  pub driver : Driver

-- The map with another session under a name that it has.
unfoldable pub replace : String → Session → List (String × Session) → List (String × Session)
replace name s [] = []
replace name s ((k, v) ∷ m) =
    let rest = replace name s m in if k == name then (k, s) ∷ m else (k, v) ∷ rest

module _ (d : Driver) (others : Others) where
  -- The cleanup function: Close of the session, which is in the map for as long as it is open.
  unfoldable pub close_session_of : String → Manager × Trace → Manager × Trace
  close_session_of name (m, t) = elim (lookup name m.sessions) [
    | none ↦ (m, t)
    | some s ↦
        let (w, s', t') = Share.close d others s t in
        (record m { sessions = replace name s' m.sessions }, t')
  ]

  -- What CreateSession and CreateSessionWithNavigation do with the provider of pages that they make.
  unfoldable pub create_with :
      FuncPageProvider
      → String
      → List SessionOption
      → Bool
      → TestManager (Manager × Trace)
      → Manager
      → Trace
      → Option TestSession × Flow × TestManager (Manager × Trace) × Manager × Trace
  create_with pp name opts failed tm m t =
      let d' = with_providers test_context_provider pp d in
      let (r, m', t') = create_session d' name opts m t in
      elim r [
        | err e ↦ (none, fatal_f failed, tm, m', t')
        | ok s ↦ (
          some (record { session = s; driver = d' }),
          pass failed,
          add_cleanup (close_session_of name) tm,
          m',
          t',
        )
      ]

  -- CreateSession.
  abbrev pub create_test_session :
      String
      → List SessionOption
      → Bool
      → TestManager (Manager × Trace)
      → Manager
      → Trace
      → Option TestSession × Flow × TestManager (Manager × Trace) × Manager × Trace
  create_test_session name opts failed tm m t =
      create_with (test_page_provider d) name opts failed tm m t

  -- CreateSessionWithNavigation.
  abbrev pub create_session_with_navigation :
      (String → ℕ → Trace → Option Error)
      → String
      → String
      → List SessionOption
      → Bool
      → TestManager (Manager × Trace)
      → Manager
      → Trace
      → Option TestSession × Flow × TestManager (Manager × Trace) × Manager × Trace
  create_session_with_navigation goto name url opts failed tm m t =
      create_with (navigating_page_provider d goto url) name opts failed tm m t

  -- CreateSessionWithFaultInjection of a FaultInjectionTest.
  unfoldable pub create_session_with_fault_injection :
      String
      → Option (Trace → Option Error)
      → List SessionOption
      → Manager
      → Trace
      → Outcome Session × Manager × Trace
  create_session_with_fault_injection name inject_fault opts m t =
      create_session (with_providers fault_context_provider (fault_page_provider d inject_fault) d)
        name opts m t

-- The context with DefaultOperationTimeout.
abbrev pub timed : Driver → Trace → Caller
timed d t = record { is_cancelled = false; deadline = some (d.now t + 10000000000) }

-- Do and DoShare of a TestSession, which leave a changed session.
unfoldable pub test_do : Others → TestSession → Trace → Reply × Session × Trace
test_do others ts t = run_do ts.driver others (timed ts.driver t) ts.session t

unfoldable pub test_do_share : Others → TestSession → Trace → Reply × Session × Trace
test_do_share others ts t = do_share ts.driver others (timed ts.driver t) ts.session t
