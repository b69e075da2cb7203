-- ===== src/Manager/Shutdown.antt =====
-- manager.go: Close ends, refuses what comes later, and runs once.
use Prim.Native.String.{◌++◌}
use browserpm.Common.{◌≡◌, ◌≢◌, refl, true, false, none, some, List, [], ◌∷◌, String, arith}
use browserpm.Common.Assoc.{lookup}
use browserpm.Errors.{ErrorCode, err, returned, hangs, new_error, session_not_found}
use browserpm.Config.{SessionOption}
use browserpm.Driver.{Driver, Trace, IsClock}
use browserpm.Session.State.{Session, Others}
use browserpm.Session.Share
use browserpm.Session.Closing.{close_returns}
use browserpm.Manager.Operations.{
  Manager, create_session, get_session, list_sessions, close_sessions, stop_browser, close,
  manager_do,
}

module _ (d : Driver) (others : Others) (clock : IsClock d.now) where
  close_sessions_returns :
      (es : List (String × Session)) (t : Trace) → (close_sessions d others es t).0 ≡ returned tt
  unfolding close_sessions
  close_sessions_returns [] t = refl
  close_sessions_returns ((k, s) ∷ es) t =
      let (w, s', t') = Share.close d others s t in
      ground (arith, close_returns d others clock s t, close_sessions_returns es t')

  -- The first Close of a manager returns, and leaves the manager closed and without sessions.
  pub manager_close_lem :
      (m : Manager) (t : Trace)
      → m.shut_down ≡ false
      → close d others m t ≡ (
        returned (stop_browser d others m (close_sessions d others m.sessions t).1).0,
        record m { is_closed = true; shut_down = true; sessions = [] },
        (stop_browser d others m (close_sessions d others m.sessions t).1).1,
      )
  unfolding close stop_browser
  manager_close_lem m t h = let done = close_sessions_returns m.sessions t in rw (h, done) refl

  -- Close of a manager always returns, however many sessions have operations that never end.
  pub manager_close_returns : (m : Manager) (t : Trace) → (close d others m t).0 ≢ hangs
  unfolding close
  manager_close_returns m t = ground (arith, close_sessions_returns m.sessions t)

  -- After Close no session is left, CreateSession and Do refuse with ErrClosed and call nothing, and a
  -- second Close returns no error and does nothing.
  pub manager_close-refuses :
      (name : String) (opts : List SessionOption) (m : Manager) (t later : Trace)
      → m.shut_down ≡ false
      → let m' = (close d others m t).1 in
        let refusal = new_error ErrorCode.closed "manager is closed" in
        (list_sessions m' ≡ [])
        × (get_session name m' ≡ err (new_error session_not_found ("session not found: " ++ name)))
        × (create_session d name opts m' later ≡ (err refusal, m', later))
        × (manager_do d m' later ≡ (some refusal, later))
        × (close d others m' later ≡ (returned none, m', later))
  unfolding list_sessions get_session lookup create_session manager_do close
  manager_close-refuses name opts m t later h =
      rw (manager_close_lem m t h) (refl, refl, refl, refl, refl)
