-- ===== src/Session/Interleaving/NilPool.antt =====
-- session.go: DoShare reads the pool of its session without the lock, also after another goroutine has closed
-- the session.
use browserpm.Common.{◌≡◌, refl, none, false, true, arith}
use browserpm.Errors.{panics}
use browserpm.Driver.{Driver, Trace}
use browserpm.Session.State.{Session, SessionState, Others, Caller, is_closed, max_retries}
use browserpm.Session.Context.{ensure_context, build_context_locked, set_up_context, build_pool}
use browserpm.Session.Serving.{IsServing, ensure_context-none}
use browserpm.Session.Interleaving.{
  outside, begins, ensured, dismantles, System, read_pool, call, begin_round, take_parts, advance,
  moved, Reach, here,
}
use browserpm.Session.Interleaving.Reopened.{then_turn, then_shut}

module _ (d : Driver) (others : Others) (caller : Caller) where
  build_context_locked-is_open :
      (s : Session) (t : Trace) → is_closed (build_context_locked d s t).1 ≡ false
  unfolding build_context_locked set_up_context build_pool
  build_context_locked-is_open s t = ground arith

  ensure_context-is_open :
      (s : Session) (t : Trace) → is_closed s ≡ false → is_closed (ensure_context d s t).1 ≡ false
  unfolding ensure_context
  ensure_context-is_open s t h = ground (arith, h, build_context_locked-is_open s t)

  -- With a browser in good order, a call of DoShare on an open session whose ensureContext has succeeded
  -- can find a nil pool, if another goroutine closes the session in between: its call of Acquire then panics.
  pub reads_nil :
      (s : Session) (t : Trace)
      → IsServing d
      → is_closed s ≡ false
      → (v : System) × Reach d others caller 2
          (record { session = s; trace = t; phase = λ i. outside })
          v
        × (v.phase 0 ≡ ensured max_retries)
        × (read_pool v.session ≡ panics)
  unfolding advance
  reads_nil s t good open_ =
      let u0 : System = record { session = s; trace = t; phase = λ i. outside } in
      let u1 = moved d others caller 0 u0.phase (begins max_retries, s, t) in
      let (e, s2, t2) = ensure_context d s t in
      let u2 = moved d others caller 0 u1.phase (ensured max_retries, s2, t2) in
      let s3 : Session = record s2 {
        state = SessionState.closed;
        pool = none;
        browser_context = none;
        is_cancelled = true;
      } in
      let u3 = moved d others caller 1 u2.phase (dismantles s2.pool s2.browser_context, s3, t2) in
      let built = ensure_context-none d good s t in
      let p1 : Reach d others caller 2 u0 u1 =
        then_turn d others caller 2 u0 u0 0 (begins max_retries, s, t) (omega arith)
          (unfold call in ground (arith, open_)) here in
      let p2 : Reach d others caller 2 u0 u2 =
        then_turn d others caller 2 u0 u1 0 (ensured max_retries, s2, t2) (omega arith)
          (unfold begin_round in rw built refl) p1 in
      let p3 : Reach d others caller 2 u0 u3 =
        then_shut d others caller 2 u0 u2 1 (dismantles s2.pool s2.browser_context, s3, t2)
          (omega arith) refl (unfold take_parts in ground (arith, ensure_context-is_open s t open_))
          p2 in
      (u3, p3, refl, refl)
