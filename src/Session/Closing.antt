-- ===== src/Session/Closing.antt =====
-- session.go: Close ends, and a session that is closed refuses; the one way back is ensureContext.
use browserpm.Common.{ℕ, ◌≡◌, refl, inl, inr, true, Option, none, some, arith}
use browserpm.Errors.{ErrorCode, returned, new_error}
use browserpm.Driver.{Driver, Trace, IsClock}
use browserpm.Pool.Page.{Pool}
use browserpm.Pool.Waiting.{drain_returns}
use browserpm.Session.State.{Session, Others, Caller, replied, closed, active, with_retries}
use browserpm.Session.Context.{ensure_context}
use browserpm.Session.Exclusive.{run_do}
use browserpm.Session.Share.{do_share, close, close_parts}
use browserpm.Session.Consistency.{build_context_locked-Built}

module _ (d : Driver) (others : Others) where
  close-state :
      ((s : Session) (t : Trace) → s.state ≡ closed → (others.on_session s t).state ≡ closed)
      → (s : Session) (t : Trace) → (close d others s t).1.state ≡ closed
  unfolding close
  close-state stays s t =
      let s' : Session = record s {
        state = closed;
        pool = none;
        browser_context = none;
        is_cancelled = true;
      } in
      let t' = (close_parts d others s.pool s.browser_context s t).1 in
      ground (arith, stays s' t' refl)

  close_twice :
      (s : Session) (t : Trace) → s.state ≡ closed → close d others s t ≡ (returned tt, s, t)
  unfolding close
  close_twice s t q = ground (arith, q)

  -- If no other goroutine opens a closed session again meanwhile, Do and DoShare refuse after Close
  -- at once with ErrClosed: they call nothing outside and leave the session as it is. A second Close does
  -- nothing either.
  pub close-refuses :
      ((s : Session) (t : Trace) → s.state ≡ closed → (others.on_session s t).state ≡ closed)
      → (caller : Caller) (s : Session) (t later : Trace)
      → let s' = (close d others s t).1 in
        let refusal = replied (some (new_error ErrorCode.closed "session is closed")) in
        (run_do d others caller s' later ≡ (refusal, s', later))
        × (do_share d others caller s' later ≡ (refusal, s', later))
        × (close d others s' later ≡ (returned tt, s', later))
  unfolding run_do do_share with_retries
  close-refuses stays caller s t later =
      let e = close-state stays s t in (ground (arith, e), ground (arith, e), close_twice _ later e)

  close_parts_returns :
      (clock : IsClock d.now) (pool : Option Pool) (context : Option ℕ) (s : Session) (t : Trace)
      → (close_parts d others pool context s t).0 ≡ returned tt
  unfolding close_parts
  close_parts_returns clock none context s t = refl
  close_parts_returns clock (some p) context s t =
      let done =
        (drain_returns d s.pool_config others.on_pool clock (s.pool_config).grace_period p t).0 in
      ground (arith, done)

  -- Close always returns, also when operations never end: the drain stops after the grace period.
  pub close_returns :
      (clock : IsClock d.now) (s : Session) (t : Trace) → (close d others s t).0 ≡ returned tt
  unfolding close
  close_returns clock s t = ground (arith, close_parts_returns clock s.pool s.browser_context s t)

-- A closed session has lost its context and pool, so ensureContext builds them anew without asking for
-- the state: if the build succeeds, the session is active again.
pub ensure_context-reopens :
    (d : Driver) (s : Session) (t : Trace)
    → s.state ≡ closed
    → s.pool ≡ none
    → (ensure_context d s t).0 ≡ none
    → (ensure_context d s t).1.state ≡ active
unfolding ensure_context
ensure_context-reopens d s t c p h = elim (build_context_locked-Built d s t) [
  | inl (n, b, w, a) ↦ ground (arith, a, p)
  | inr (e, r, b, q, a) ↦ ground (arith, r, p)
]
