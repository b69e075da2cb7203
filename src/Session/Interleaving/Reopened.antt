-- ===== src/Session/Interleaving/Reopened.antt =====
-- session.go: a session that is closed while a call of Do begins is open again afterwards.
use browserpm.Common.{ℕ, ◌<◌, ◌≡◌, refl, ◌∙◌, subst, false, true, none, arith}
use browserpm.Driver.{Driver, Trace}
use browserpm.Session.State.{Session, SessionState, Others, Caller, is_closed, max_retries}
use browserpm.Session.Context.{has_context, ensure_context, close_pool, close_context}
use browserpm.Session.Exclusive.{do_exclusive}
use browserpm.Session.Consistency.{ensure_context-has_context, ensure_context-is_cancelled}
use browserpm.Session.Closing.{ensure_context-reopens}
use browserpm.Session.Serving.{IsServing, ensure_context-none, do_exclusive-operation}
use browserpm.Session.Interleaving.{
  Phase, outside, begins, ensured, dismantles, System, call, begin_round, work_alone, take_parts,
  dismantle, advance, turn, shuts, moved, Reach, here, later,
}

module _ (d : Driver) (others : Others) (caller : Caller) where
  pub then_turn :
      (n : ℕ) (u v : System) (i : ℕ) (r : Phase × Session × Trace)
      → i < n
      → advance d others caller (v.phase i) v.session v.trace ≡ r
      → Reach d others caller n u v
      → Reach d others caller n u (moved d others caller i v.phase r)
  then_turn n u v i r l e p =
      subst (λ x. Reach d others caller n u (moved d others caller i v.phase x)) e
        (later p (turn i l))

  pub then_shut :
      (n : ℕ) (u v : System) (i : ℕ) (r : Phase × Session × Trace)
      → i < n
      → v.phase i ≡ outside
      → take_parts d others caller v.session v.trace ≡ r
      → Reach d others caller n u v
      → Reach d others caller n u (moved d others caller i v.phase r)
  then_shut n u v i r l o e p =
      subst (λ x. Reach d others caller n u (moved d others caller i v.phase x)) e
        (later p (shuts i l o))

  work_alone-none :
      (n : ℕ) (s : Session) (t : Trace)
      → (do_exclusive d caller s t).0 ≡ none
      → work_alone d others caller n s t ≡ (outside, s, (do_exclusive d caller s t).1)
  unfolding work_alone
  work_alone-none n s t e = rw (e, work_alone) refl

  -- With a browser in good order and an operation that succeeds, a call of Do and a call of Close by
  -- another goroutine can leave a session that was open in this state: both calls have ended, the
  -- session is cancelled, as Close does, and yet it is open, with a context and a pool.
  pub reopens :
      (s : Session) (t : Trace)
      → IsServing d
      → ((p : ℕ) (t1 : Trace) → d.operation p t1 ≡ none)
      → is_closed s ≡ false
      → (v : System) × Reach d others caller 2
          (record { session = s; trace = t; phase = λ i. outside })
          v
        × ((i : ℕ) → v.phase i ≡ outside)
        × (is_closed v.session ≡ false)
        × (v.session.is_cancelled ≡ true)
        × (has_context v.session.browser_context v.session.pool ≡ true)
  unfolding advance
  reopens s t good works open_ =
      let u0 : System = record { session = s; trace = t; phase = λ i. outside } in
      let r1 : Phase × Session × Trace = (begins max_retries, s, t) in
      let u1 = moved d others caller 0 u0.phase r1 in
      let s2 : Session = record s {
        state = SessionState.closed;
        pool = none;
        browser_context = none;
        is_cancelled = true;
      } in
      let r2 : Phase × Session × Trace = (dismantles s.pool s.browser_context, s2, t) in
      let u2 = moved d others caller 1 u1.phase r2 in
      let t3 = close_context d s.browser_context (close_pool d s.pool s2 t) in
      let u3 = moved d others caller 1 u2.phase (outside, s2, t3) in
      let (e, s4, t4) = ensure_context d s2 t3 in
      let u4 = moved d others caller 0 u3.phase (ensured max_retries, s4, t4) in
      let t5 = (do_exclusive d caller s4 t4).1 in
      let u5 = moved d others caller 0 u4.phase (outside, s4, t5) in
      let built = ensure_context-none d good s2 t3 in
      let full = ensure_context-has_context d s2 t3 built in
      let (p, t', same, quiet, ran) = do_exclusive-operation d good caller s4 t4 full in
      let fine : (do_exclusive d caller s4 t4).0 ≡ none = same ∙ works p t' in
      let p1 : Reach d others caller 2 u0 u1 =
        then_turn 2 u0 u0 0 r1 (omega arith) (unfold call in ground (arith, open_)) here in
      let p2 : Reach d others caller 2 u0 u2 =
        then_shut 2 u0 u1 1 r2 (omega arith) refl (unfold take_parts in ground (arith, open_)) p1 in
      let p3 : Reach d others caller 2 u0 u3 =
        then_turn 2 u0 u2 1 (outside, s2, t3) (omega arith) (unfold dismantle in refl) p2 in
      let p4 : Reach d others caller 2 u0 u4 =
        then_turn 2 u0 u3 0 (ensured max_retries, s4, t4) (omega arith)
          (unfold begin_round in rw built refl) p3 in
      let p5 : Reach d others caller 2 u0 u5 =
        then_turn 2 u0 u4 0 (outside, s4, t5) (omega arith) (work_alone-none max_retries s4 t4 fine)
          p4 in
      let active = ensure_context-reopens d s2 t3 refl refl built in
      (u5, p5, λ i. ground arith, ground (arith, active), ensure_context-is_cancelled d s2 t3, full)
