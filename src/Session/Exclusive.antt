-- ===== src/Session/Exclusive.antt =====
-- session.go: Do, an operation on a page of its own.
use browserpm.Common.{ℕ, Bool, true, Option, none, some, ◌∷◌, if◌then◌else◌}
use browserpm.Errors.{Error, ok, err, new_error, wrap_error, context_dead, page_unavailable}
use browserpm.Errors.Connection.{is_connection_error}
use browserpm.Driver.{
  Driver, Trace, CallContext, page_opened, page_refused, page_initialised, page_closed,
  operation_run,
}
use browserpm.Session.State.{
  Session, Others, Caller, Round, finished, again, is_context_dead, Reply, with_retries,
}
use browserpm.Session.Context.{ensure_context, recover}

module _ (d : Driver) (caller : Caller) where
  -- The context of Init: the caller's with the timeout for initialisation.
  abbrev pub init_context : Session → CallContext
  init_context s = record {
    is_cancelled = caller.is_cancelled;
    timeout = (s.pool_config).init_timeout;
  }

  -- The tail of doExclusive, with the page `p` that NewPage has returned. The deferred Close runs on
  -- every path.
  unfoldable pub use_page : ℕ → Session → Trace → Option Error × Trace
  use_page p s t =
      let t' : Trace = page_initialised p ∷ t in
      elim (d.init_page (init_context s) p t) [
        | some e ↦
            (some (wrap_error e page_unavailable "exclusive page init failed"), page_closed p ∷ t')
        | none ↦ (d.operation p t', page_closed p ∷ operation_run p ∷ t')
      ]

  -- doExclusive.
  unfoldable pub do_exclusive : Session → Trace → Option Error × Trace
  do_exclusive s t = elim s.browser_context [
    | none ↦ (some (new_error context_dead "browser context is nil"), t)
    | some c ↦ elim (d.new_page c t) [
      | err e ↦ (
        some (wrap_error e page_unavailable "failed to create exclusive page"),
        page_refused c ∷ t,
      )
      | ok p ↦ use_page p s (page_opened c p ∷ t)
    ]
  ]

module _ (d : Driver) (others : Others) (caller : Caller) where
  -- The test after a failed operation: a lost connection by the error, or else a dead context.
  unfoldable pub is_lost : Error → Session → Trace → Bool × Trace
  is_lost e s t = if is_connection_error (some e) then (true, t) else is_context_dead d s t

  -- The end of a round whose operation failed: a rebuild if the connection is lost.
  unfoldable pub after_failure : Error → Session → Trace → Round × Session × Trace
  after_failure e s t =
      let (lost, t') = is_lost e s t in
      if lost
      then (let (r, s'', t'') = recover d others e s t' in
          (elim r [ some x ↦ finished (some x) | none ↦ again e ], s'', t''))
      else (again e, s, t')

  -- One round of the loop of Do.
  unfoldable pub do_round : Session → Trace → Round × Session × Trace
  do_round s t =
      let (r, s1, t1) = ensure_context d s t in
      let (r2, t2) = do_exclusive d caller s1 t1 in
      elim r [
        | some e ↦ (again e, s1, t1)
        | none ↦ elim r2 [ none ↦ (finished none, s1, t2) | some e ↦ after_failure e s1 t2 ]
      ]

  -- Do.
  unfoldable pub run_do : Session → Trace → Reply × Session × Trace
  run_do s t = with_retries do_round s t
