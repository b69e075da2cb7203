-- ===== src/Session/Context.antt =====
-- session.go: building, ensuring and rebuilding the browser context and its pool.
use browserpm.Common.{ℕ, zero, suc, Bool, true, false, Option, none, some, ◌∷◌, if◌then◌else◌}
use browserpm.Errors.{Error, ok, err, new_error, wrap_error, context_dead, invalid_state}
use browserpm.Driver.{
  Driver, Trace, CallContext, context_opened, context_refused, context_set_up, context_closed,
  slept,
}
use browserpm.Pool.Page.{Pool}
use browserpm.Pool.Create.{new_page_pool}
use browserpm.Pool.Remove.{close}
use browserpm.Pool.Health.{start}
use browserpm.Session.State.{Session, Others, active, degraded}

-- The test of ensureContext.
abbrev pub has_context : Option ℕ → Option Pool → Bool
has_context (some c) (some p) = true
has_context _ _ = false

module _ (d : Driver) where
  -- The context of Setup: s.ctx with the timeout for initialisation.
  abbrev pub setup_context : Session → CallContext
  setup_context s = record { is_cancelled = s.is_cancelled; timeout = (s.pool_config).init_timeout }

  -- The last part of buildContextLocked, once the context `c` is set up: the pool.
  unfoldable pub build_pool : ℕ → Session → Trace → Option Error × Session × Trace
  build_pool c s t =
      let (r, p, t') = start d s.pool_config (new_page_pool c) t in
      elim r [
        | some e ↦ (some e, record s { state = degraded }, context_closed c ∷ t')
        | none ↦ (none, record s { browser_context = some c; pool = some p; state = active }, t')
      ]

  -- The middle part: Setup of the context `c` that NewContext has returned.
  unfoldable pub set_up_context : ℕ → Session → Trace → Option Error × Session × Trace
  set_up_context c s t =
      let t' : Trace = context_set_up c ∷ t in
      elim (d.set_up (setup_context s) c t) [
        | some e ↦ (
          some (wrap_error e context_dead "context setup failed"),
          record s { state = degraded },
          context_closed c ∷ t',
        )
        | none ↦ build_pool c s t'
      ]

  -- buildContextLocked.
  unfoldable pub build_context_locked : Session → Trace → Option Error × Session × Trace
  build_context_locked s t = elim (d.new_context t) [
    | err e ↦ (
      some (wrap_error e context_dead "failed to create browser context"),
      record s { state = degraded },
      context_refused ∷ t,
    )
    | ok c ↦ set_up_context c s (context_opened c ∷ t)
  ]

  -- ensureContext.
  unfoldable pub ensure_context : Session → Trace → Option Error × Session × Trace
  ensure_context s t =
      if has_context s.browser_context s.pool then (none, s, t) else build_context_locked s t

  -- The part of rebuildContext that tears the old pool and context down.
  unfoldable pub close_pool : Option Pool → Session → Trace → Trace
  close_pool none s t = t
  close_pool (some p) s t = (close d s.pool_config p t).1

  unfoldable pub close_context : Option ℕ → Trace → Trace
  close_context none t = t
  close_context (some c) t = context_closed c ∷ t

  unfoldable pub tear_down : Session → Trace → Session × Trace
  tear_down s t = (
    record s { pool = none; browser_context = none },
    close_context s.browser_context (close_pool s.pool s t),
  )

  -- rebuildContext, when no other rebuild is going on.
  unfoldable pub rebuild_now : Session → Trace → Option Error × Session × Trace
  rebuild_now s t =
      let (s1, t1) = tear_down (record s { rebuilding = true }) t in
      let (r, s2, t2) = build_context_locked s1 t1 in (r, record s2 { rebuilding = false }, t2)

module _ (d : Driver) (others : Others) where
  -- The wait of rebuildContext for the rebuild of another goroutine: a hundred sleeps at most.
  unfoldable pub wait_rebuild : ℕ → Session → Trace → Option Error × Session × Trace
  wait_rebuild zero s t =
      (some (new_error invalid_state "rebuild timeout: another rebuild is taking too long"), s, t)
  wait_rebuild (suc n) s t =
      let t' : Trace = slept ∷ t in
      let s' = others.on_session s t' in
      let rest = wait_rebuild n s' t' in if s'.rebuilding then rest else (none, s', t')

  -- rebuildContext.
  unfoldable pub rebuild_context : Session → Trace → Option Error × Session × Trace
  rebuild_context s t = if s.rebuilding then wait_rebuild 100 s t else rebuild_now d s t

  -- The end of a round that found the connection or the context lost after the error `e`.
  unfoldable pub recover : Error → Session → Trace → Option Error × Session × Trace
  recover e s t =
      let (r, s', t') = rebuild_context s t in
      elim r [
        | some x ↦ (some (wrap_error x context_dead "context rebuild failed"), s', t')
        | none ↦ (none, s', t')
      ]
