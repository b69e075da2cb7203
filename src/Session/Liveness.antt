-- ===== src/Session/Liveness.antt =====
-- session.go: with a browser in good order Do succeeds, and it recovers from a lost connection.
use browserpm.Common.{
  ℕ, zero, suc, ◌+◌, ◌<◌, ◌≤◌, ◌≡◌, refl, ◌∙◌, true, false, Option, none, some, arith,
}
use browserpm.Errors.{Error}
use browserpm.Errors.Connection.{is_connection_error}
use browserpm.Driver.{Driver, Trace, runs, openings, closings}
use browserpm.Session.State.{
  Session, Others, Caller, finished, again, is_closed, replied, next_round, retry, with_retries,
}
use browserpm.Session.Context.{ensure_context}
use browserpm.Session.Exclusive.{do_exclusive, is_lost, after_failure, do_round, run_do}
use browserpm.Session.Consistency.{ensure_context-has_context, ensure_context-rebuilding}
use browserpm.Session.Serving.{
  IsServing, ensure_context-none, recover-none, recover-rebuilding, do_exclusive-operation,
}
use browserpm.Session.Openings.{
  Opens, missing, ensure_context-Opens, do_exclusive-Opens, recover-Opens,
}
use browserpm.Session.Quiet.{ensure_context-runs, recover-runs}

module _ (d : Driver) (good : IsServing d) (others : Others) (caller : Caller) where
  -- A round whose operation succeeds ends the call.
  pub do_round-finished :
      (s : Session) (t : Trace)
      → ((p : ℕ) (t1 : Trace) → runs t1 ≡ runs t → d.operation p t1 ≡ none)
      → ((do_round d others caller s t).0 ≡ finished none)
        × (runs (do_round d others caller s t).2 ≡ suc (runs t))
        × Opens (missing s) 0 t (do_round d others caller s t).2
  unfolding do_round
  do_round-finished s t op =
      let (r, s1, t1) = ensure_context d s t in
      let built = ensure_context-none d good s t in
      let quiet = ensure_context-runs d s t in
      let (p, t2, e, q, ran) =
        do_exclusive-operation d good caller s1 t1 (ensure_context-has_context d s t built) in
      let fine : (do_exclusive d caller s1 t1).0 ≡ none = e ∙ op p t2 (q ∙ quiet) in
      let (o, k) = ensure_context-Opens d good s t in
      let (o', k') = do_exclusive-Opens d caller s1 t1 in
      rw (built, do_round, fine)
        (refl, omega (arith, ran, quiet), (omega (arith, o, o'), omega (arith, k, k')))

  -- A round whose operation loses the connection closes the context, opens another one and leads on to
  -- the next.
  do_round-again :
      (x : Error) (s : Session) (t : Trace)
      → is_connection_error (some x) ≡ true
      → s.rebuilding ≡ false
      → ((p : ℕ) (t1 : Trace) → runs t1 ≡ runs t → d.operation p t1 ≡ some x)
      → let (r, s', t') = do_round d others caller s t in
        (r ≡ again x)
        × (s'.rebuilding ≡ false)
        × (runs t' ≡ suc (runs t))
        × Opens (missing s + 1) 1 t t'
        × (missing s' ≡ 0)
  unfolding do_round after_failure is_lost
  do_round-again x s t lost idle op =
      let (r, s1, t1) = ensure_context d s t in
      let built = ensure_context-none d good s t in
      let quiet = ensure_context-runs d s t in
      let idle1 = ensure_context-rebuilding d s t ∙ idle in
      let there = ensure_context-has_context d s t built in
      let (p, t2, e, q, ran) = do_exclusive-operation d good caller s1 t1 there in
      let failed : (do_exclusive d caller s1 t1).0 ≡ some x = e ∙ op p t2 (q ∙ quiet) in
      let t3 = (do_exclusive d caller s1 t1).1 in
      let done = recover-none d good others x s1 t3 idle1 in
      let (o, k) = ensure_context-Opens d good s t in
      let (o', k') = do_exclusive-Opens d caller s1 t1 in
      let (replaced, full) = recover-Opens d good others x s1 t3 idle1 there in
      rw (built, do_round, failed, lost)
        (
          rw done refl,
          recover-rebuilding d good others x s1 t3 idle1,
          omega (arith, ran, quiet, recover-runs d others x s1 t3),
          (omega (arith, o, o', replaced), omega (arith, k, k', replaced)),
          full,
        )

  retry-recovers :
      (x : Error)
      → is_connection_error (some x) ≡ true
      → (k m : ℕ) → k ≤ m
      → (n : ℕ) (last : Option Error) (s : Session) (t : Trace) → s.rebuilding ≡ false
      → runs t ≡ n
      → ((p : ℕ) (t1 : Trace) → runs t1 < n + k → d.operation p t1 ≡ some x)
      → ((p : ℕ) (t1 : Trace) → runs t1 ≡ n + k → d.operation p t1 ≡ none)
      → let (r, s', t') = retry (do_round d others caller) (suc m) last s t in
        (r ≡ replied none) × (runs t' ≡ suc (n + k)) × Opens (missing s + k) k t t'
  unfolding retry next_round
  retry-recovers x lost zero m l n last s t idle e fails works =
      let (r, q, (o, c)) = do_round-finished s t (λ p t1 h. works p t1 (omega (arith, h, e))) in
      rw (r, next_round) (refl, omega (arith, q, e), (omega (arith, o), omega (arith, c)))
  retry-recovers x lost (suc k) zero l n last s t idle e fails works = absurd (omega arith)
  retry-recovers x lost (suc k) (suc m) l n last s t idle e fails works =
      let (r, idle', q, (o, c), full) =
        do_round-again x s t lost idle (λ p t1 h. fails p t1 (omega (arith, h, e))) in
      let (r0, s', t') = do_round d others caller s t in
      let (fine, count, (o', c')) =
        retry-recovers x lost k m (omega arith) (suc n) (some x) s' t' idle' (omega (arith, q, e))
          (λ p t1 h. fails p t1 (omega (arith, h))) (λ p t1 h. works p t1 (omega (arith, h))) in
      rw (r, next_round)
        (fine, omega (arith, count), (omega (arith, o, o', full), omega (arith, c, c')))

  -- With a browser in good order Do succeeds, also if the operation loses the connection up to two
  -- times: it returns no error, after exactly one run more than there were losses, and for each loss it
  -- closes a context and opens a new one, besides the one that it opens first for a session without
  -- context or pool. The session is open and no other goroutine rebuilds it.
  pub run_do-recovers :
      (x : Error) (losses : ℕ) (s : Session) (t : Trace)
      → losses ≤ 2
      → is_connection_error (some x) ≡ true
      → is_closed s ≡ false
      → s.rebuilding ≡ false
      → ((p : ℕ) (t1 : Trace) → runs t1 < runs t + losses → d.operation p t1 ≡ some x)
      → ((p : ℕ) (t1 : Trace) → runs t1 ≡ runs t + losses → d.operation p t1 ≡ none)
      → let (r, s', t') = run_do d others caller s t in
        (r ≡ replied none)
        × (runs t' ≡ suc (runs t + losses))
        × (openings t' ≡ openings t + (missing s + losses))
        × (closings t' ≡ closings t + losses)
  unfolding run_do with_retries
  run_do-recovers x losses s t few lost open_ idle fails works =
      let (fine, count, (o, c)) =
        retry-recovers x lost losses 2 few (runs t) none s t idle refl fails works in
      rw open_ (fine, count, o, c)
