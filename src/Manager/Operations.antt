-- ===== src/Manager/Operations.antt =====
-- manager.go: the state of a BrowserManager and its operations.
use Prim.Native.String.{◌++◌}
use browserpm.Common.{
  ℕ, Bool, true, false, Option, none, some, List, [], ◌∷◌, String, map, if◌then◌else◌,
}
use browserpm.Common.Assoc.{lookup, store, delete}
use browserpm.Errors.{
  Error, Outcome, ok, err, Wait, returned, hangs, new_error, wrap_error, ErrorCode, context_dead,
  page_unavailable, invalid_state, session_exists, session_not_found,
}
use browserpm.Config.{PoolConfig, Config, SessionOption, apply_all, validate_pool}
use browserpm.Driver.{
  Driver, Trace, clock_read, context_opened, context_refused, context_closed, page_opened,
  page_refused, page_closed, operation_run, cdp_detached, browser_closed, playwright_stopped,
}
use browserpm.Session.State.{Session, Others, active}
use browserpm.Session.Share
use browserpm.Session.Observe.{SessionInfo, status}

pub record Manager : Type 0 where
  pub config : Config
  pub sessions : List (String × Session)
  pub is_closed : Bool
  pub shut_down : Bool
  pub has_cdp : Bool
  pub has_browser : Bool
  pub has_playwright : Bool

-- The Session of CreateSession.
abbrev pub new_session : String → PoolConfig → ℕ → Session
new_session name cfg created = record {
  name = name;
  pool_config = cfg;
  browser_context = none;
  pool = none;
  state = active;
  created = created;
  is_cancelled = false;
  rebuilding = false;
}

-- CreateSession. LoadOrStore keeps a session that is there.
unfoldable pub create_session :
    Driver → String → List SessionOption → Manager → Trace → Outcome Session × Manager × Trace
create_session d name opts m t =
    let cfg = apply_all opts (m.config).pool in
    let s = new_session name cfg (d.now t) in
    if m.is_closed
    then (err (new_error ErrorCode.closed "manager is closed"), m, t)
    else (elim (validate_pool cfg) [
      | some e ↦ (err (wrap_error e invalid_state "invalid session pool config"), m, t)
      | none ↦ elim (lookup name m.sessions) [
        | some old ↦
            (err (new_error session_exists ("session already exists: " ++ name)), m, clock_read ∷ t)
        | none ↦ (ok s, record m { sessions = store name s m.sessions }, clock_read ∷ t)
      ]
    ])

-- GetSession.
unfoldable pub get_session : String → Manager → Outcome Session
get_session name m = elim (lookup name m.sessions) [
  | none ↦ err (new_error session_not_found ("session not found: " ++ name))
  | some s ↦ ok s
]

-- ListSessions.
unfoldable pub list_sessions : Manager → List SessionInfo
list_sessions m = map (λ e. status e.1) m.sessions

module _ (d : Driver) (others : Others) where
  -- CloseSession: LoadAndDelete, then Close, which returns no error.
  unfoldable pub close_session : String → Manager → Trace → Wait (Option Error) × Manager × Trace
  close_session name m t = elim (lookup name m.sessions) [
    | none ↦ (returned (some (new_error session_not_found ("session not found: " ++ name))), m, t)
    | some s ↦
        let (w, s', t') = Share.close d others s t in
        let m' : Manager = record m { sessions = delete name m.sessions } in
        (elim w [ hangs ↦ hangs | returned _ ↦ returned none ], m', t')
  ]

  -- The Range of Close over the sessions.
  unfoldable pub close_sessions : List (String × Session) → Trace → Wait (Unit {0}) × Trace
  close_sessions [] t = (returned tt, t)
  close_sessions ((k, s) ∷ rest) t =
      let (w, s', t') = Share.close d others s t in
      let after = close_sessions rest t' in elim w [ hangs ↦ (hangs, t') | returned _ ↦ after ]

  -- The rest of Close: the CDP session, the browser and Playwright, with the first error.
  unfoldable pub stop_browser : Manager → Trace → Option Error × Trace
  stop_browser m t =
      let t1 : Trace = if m.has_cdp then cdp_detached ∷ t else t in
      let e2 : Option Error = if m.has_browser then d.close_browser t1 else none in
      let t2 : Trace = if m.has_browser then browser_closed ∷ t1 else t1 in
      let e3 : Option Error = if m.has_playwright then d.stop_playwright t2 else none in
      let t3 : Trace = if m.has_playwright then playwright_stopped ∷ t2 else t2 in
      (elim e2 [ some e ↦ some e | none ↦ e3 ], t3)

  -- Close.
  unfoldable pub close : Manager → Trace → Wait (Option Error) × Manager × Trace
  close m t =
      let m' : Manager = record m { is_closed = true; shut_down = true } in
      let (w, t') = close_sessions m.sessions t in
      let (e, t'') = stop_browser m t' in
      if m.shut_down then (returned none, m, t) else (elim w [
        | hangs ↦ (hangs, m', t')
        | returned _ ↦ (returned e, record m' { sessions = [] }, t'')
      ])

module _ (d : Driver) where
  -- The part of the manager's Do with the temporary context `c`. The deferred calls close the page and
  -- then the context.
  unfoldable pub use_context : ℕ → Trace → Option Error × Trace
  use_context c t = elim (d.new_page c t) [
    | err e ↦ (
      some (wrap_error e page_unavailable "failed to create page"),
      context_closed c ∷ page_refused c ∷ t,
    )
    | ok p ↦
        let t' : Trace = page_opened c p ∷ t in
        (d.operation p t', context_closed c ∷ page_closed p ∷ operation_run p ∷ t')
  ]

  -- The manager's Do.
  unfoldable pub manager_do : Manager → Trace → Option Error × Trace
  manager_do m t =
      if m.is_closed
      then (some (new_error ErrorCode.closed "manager is closed"), t)
      else (elim (d.new_context t) [
        | err e ↦ (
          some (wrap_error e context_dead "failed to create browser context"),
          context_refused ∷ t,
        )
        | ok c ↦ use_context c (context_opened c ∷ t)
      ])
