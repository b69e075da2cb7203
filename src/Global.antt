-- ===== src/Global.antt =====
-- global.go: the manager that the package keeps, behind a Once, and the functions that call it.
-- A call through the nil manager that Global may return uses a nil pointer: it is `panics`. GCreateSession
-- and its like change the manager that the package keeps.
pub mod Once
use browserpm.Common.{Bool, true, false, Option, none, some, List, [], ◌++◌, String, if◌then◌else◌}
use browserpm.Errors.{Error, Outcome, ok, err, Wait, returned, hangs, Called, done, panics}
use browserpm.Process.{Inspector, ProcessInfo, get_process_infos}
use browserpm.Config.{ConfigOption, SessionOption}
use browserpm.Driver.{Host, Driver, Trace}
use browserpm.Session.State.{Session, Others}
use browserpm.Session.Observe.{SessionInfo}
use browserpm.Manager.Operations.{
  Manager, create_session, get_session, close_session, list_sessions, close,
}
use browserpm.Manager.Start.{new_manager}

-- The package's variables. `has_run` says that globalOnce has fired.
pub record Global : Type 0 where
  pub manager : Option Manager
  pub opts : List ConfigOption
  pub init_error : Option Error
  pub has_run : Bool

pub new_global : Global
new_global = record { manager = none; opts = []; init_error = none; has_run = false }

-- SetGlobalOptions.
unfoldable pub set_global_options : List ConfigOption → Global → Global
set_global_options opts g = elim g.manager [
  | some m ↦ g
  | none ↦ record g { opts = g.opts ++ opts }
]

-- The function of the Once: what New returns is kept.
abbrev pub keep : Outcome Manager → Global → Global
keep (ok m) g = record g { has_run = true; manager = some m; init_error = none }
keep (err e) g = record g { has_run = true; manager = none; init_error = some e }

-- Global: the two results, the manager and the error.
unfoldable pub global : Host → Global → Trace → (Option Manager × Option Error) × Global × Trace
global h g t =
    let (r, t') = new_manager h g.opts t in
    let g' = keep r g in
    if g.has_run then ((g.manager, g.init_error), g, t) else ((g'.manager, g'.init_error), g', t')

-- MustGlobal.
unfoldable pub must_global : Host → Global → Trace → Called (Option Manager) × Global × Trace
must_global h g t =
    let ((m, e), g', t') = global h g t in (elim e [ some x ↦ panics | none ↦ done m ], g', t')

-- The wrappers alike: Global, its error, and else the call on the manager.
unfoldable pub with_global {ℓ} :
    {A : Type ℓ}
    → Host
    → (Error → A)
    → (Manager → Trace → A × Manager × Trace)
    → Global
    → Trace
    → Called A × Global × Trace
with_global h fail call g t =
    let ((m, e), g', t') = global h g t in
    elim e [
      | some x ↦ (done (fail x), g', t')
      | none ↦ elim m [
        | none ↦ (panics, g', t')
        | some m ↦ (let (r, m', t'') = call m t' in (done r, record g' { manager = some m' }, t''))
      ]
    ]

-- GCreateSession.
unfoldable pub g_create_session :
    Host
    → Driver
    → String
    → List SessionOption
    → Global
    → Trace
    → Called (Outcome Session) × Global × Trace
g_create_session h d name opts g t = with_global h err (λ m. create_session d name opts m) g t

-- GGetSession.
unfoldable pub g_get_session :
    Host → String → Global → Trace → Called (Outcome Session) × Global × Trace
g_get_session h name g t = with_global h err (λ m t'. (get_session name m, m, t')) g t

-- GCloseSession.
unfoldable pub g_close_session :
    Host → Driver → Others → String → Global → Trace → Called (Wait (Option Error)) × Global × Trace
g_close_session h d others name g t =
    with_global h (λ e. returned (some e)) (λ m. close_session d others name m) g t

-- GListSessions.
unfoldable pub g_list_sessions :
    Host → Global → Trace → Called (Outcome (List SessionInfo)) × Global × Trace
g_list_sessions h g t = with_global h err (λ m t'. (ok (list_sessions m), m, t')) g t

-- GGetProcessInfos.
unfoldable pub g_get_process_infos :
    {Real : Type 0}
    → Host
    → Inspector Real
    → Global
    → Trace
    → Called (Outcome (List (ProcessInfo Real))) × Global × Trace
g_get_process_infos h x g t =
    with_global h err (λ m t'. let (r, t'') = get_process_infos x m t' in (r, m, t'')) g t

-- Shutdown.
unfoldable pub shutdown : Driver → Others → Global → Trace → Wait (Option Error) × Global × Trace
shutdown d others g t = elim g.manager [
  | none ↦ (returned none, g, t)
  | some m ↦
      (let (w, m', t') = close d others m t in
        (elim w [
          | hangs ↦ (hangs, record g { manager = some m' }, t')
          | returned e ↦ (returned e, record g { manager = none }, t')
        ]))
]
