-- ===== src/Session/Share.antt =====
-- session.go: DoShare, an operation on a page of the pool, and Close.
use browserpm.Common.{ℕ, Bool, true, Option, none, some, ◌∷◌, if◌then◌else◌}
use browserpm.Errors.{Error, Outcome, ok, err, Wait, returned, hangs}
use browserpm.Errors.Connection.{is_connection_error}
use browserpm.Driver.{Driver, Trace, page_probed, operation_run}
use browserpm.Pool.Page.{Pool, release}
use browserpm.Pool.Acquire.{acquire}
use browserpm.Pool.Remove
use browserpm.Pool.Health.{drain}
use browserpm.Session.State.{
  Session, Others, Caller, Round, finished, again, stuck, panics, is_closed, is_context_dead, Reply,
  with_retries, closed,
}
use browserpm.Session.Context.{ensure_context, recover, close_context}
use browserpm.Session.Exclusive.{after_failure}

module _ (d : Driver) (others : Others) (caller : Caller) where
  -- The test `isConnectionError(err) || pp.page.IsClosed() || s.isContextDead()` of DoShare, for the
  -- page `h` of the browser.
  unfoldable pub needs_recovery : Error → ℕ → Session → Trace → Bool × Trace
  needs_recovery e h s t =
      if is_connection_error (some e)
      then (true, t)
      else if d.is_closed h t
      then (true, page_probed h ∷ t)
      else is_context_dead d s (page_probed h ∷ t)

  -- The recovery of DoShare: a rebuild if the context is dead, and otherwise a goroutine that replaces
  -- the page `pp` of the session's pool.
  unfoldable pub recover_share : Error → ℕ → Session → Trace → Round × Session × Trace
  recover_share e pp s t =
      let (dead, t') = is_context_dead d s t in
      if dead
      then (let (r, s'', t'') = recover d others e s t' in
          (elim r [ some x ↦ finished (some x) | none ↦ again e ], s'', t''))
      else (elim s.pool [
        | none ↦ (panics, s, t')
        | some p ↦ (again e, record s { pool = some (Remove.spawn_replace pp p) }, t')
      ])

  -- The end of a round whose operation returned `e` on the page `pp` of the pool.
  unfoldable pub after_operation : Error → ℕ → ℕ → Session → Trace → Round × Session × Trace
  after_operation e pp h s t =
      let (lost, t') = needs_recovery e h s t in
      if lost then recover_share e pp s t' else (finished (some e), s, t')

  -- The operation on the page `pp` of the pool `p`, and its release. While it runs other goroutines
  -- use the pool.
  unfoldable pub share_page : ℕ → Pool → Session → Trace → Round × Session × Trace
  share_page pp p s t =
      let h = (p.store pp).page in
      let t' : Trace = operation_run h ∷ t in
      let s' : Session = record s { pool = some (release pp (others.on_pool p t')) } in
      elim (d.operation h t) [
        | none ↦ (finished none, s', t')
        | some e ↦ after_operation e pp h s' t'
      ]

  -- The part of a round after Acquire, which has left the session's pool as `p`.
  unfoldable pub after_acquire : Wait (Outcome ℕ) → Pool → Session → Trace → Round × Session × Trace
  after_acquire hangs p s t = (stuck, s, t)
  after_acquire (returned (err e)) p s t = after_failure d others caller e s t
  after_acquire (returned (ok pp)) p s t = share_page pp p s t

  -- The part of a round after ensureContext, with the session's pool `p`.
  unfoldable pub share_round : Pool → Session → Trace → Round × Session × Trace
  share_round p s t =
      let (w, p', t') = acquire d s.pool_config others.on_pool caller.deadline p t in
      after_acquire w p' (record s { pool = some p' }) t'

  -- One round of the loop of DoShare. It reads s.pool without the lock that ensureContext has released, so
  -- that other goroutines may have changed the session; without a pool Acquire uses a nil pointer.
  unfoldable pub do_share_round : Session → Trace → Round × Session × Trace
  do_share_round s t =
      let (r, s1, t1) = ensure_context d s t in
      let s2 = others.on_session s1 t1 in
      elim r [
        | some e ↦ (again e, s1, t1)
        | none ↦ elim s2.pool [ none ↦ (panics, s2, t1) | some p ↦ share_round p s2 t1 ]
      ]

  -- DoShare.
  unfoldable pub do_share : Session → Trace → Reply × Session × Trace
  do_share s t = with_retries do_share_round s t

module _ (d : Driver) (others : Others) where
  -- The part of Close after the pool and the context are taken off the session.
  unfoldable pub close_parts : Option Pool → Option ℕ → Session → Trace → Wait (Unit {0}) × Trace
  close_parts none context s t = (returned tt, close_context d context t)
  close_parts (some p) context s t =
      let (w, p', t') = drain d s.pool_config others.on_pool (s.pool_config).grace_period p t in
      elim w [
        | hangs ↦ (hangs, t')
        | returned _ ↦ (returned tt, close_context d context (Remove.close d s.pool_config p' t').1)
      ]

  -- Close. It has released the session's lock before it waits for the operations, so that other goroutines
  -- use the session until it returns.
  unfoldable pub close : Session → Trace → Wait (Unit {0}) × Session × Trace
  close s t =
      let s' : Session = record s {
        state = closed;
        pool = none;
        browser_context = none;
        is_cancelled = true;
      } in
      let (w, t') = close_parts s.pool s.browser_context s t in
      if is_closed s then (returned tt, s, t) else (w, others.on_session s' t', t')
