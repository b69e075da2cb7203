-- ===== src/Session/Preservation.antt =====
-- session.go: Do, DoShare and Close keep a session consistent, if what the other goroutines do to it
-- and to its pool keeps it so.
use browserpm.Common.{
  ℕ, zero, suc, ◌≡◌, refl, inl, inr, Option, none, some, Option-cases, ◌∷◌, arith,
}
use browserpm.Errors.{Error, Outcome, ok, err, Wait, returned, hangs}
use browserpm.Driver.{Driver, Trace, slept, operation_run}
use browserpm.Pool.Page.{Pool, release}
use browserpm.Pool.Acquire.{acquire}
use browserpm.Pool.Remove.{spawn_replace}
use browserpm.Pool.Invariant.{IsWellFormed, release-IsWellFormed}
use browserpm.Pool.Keeps.Waiting.{acquire-keeps}
use browserpm.Pool.Preservation.{IsWellFormed-Keeps}
use browserpm.Session.State.{
  Session, Others, Caller, Round, finished, again, stuck, panics, is_context_dead, Reply,
  next_round, retry, with_retries, max_retries,
}
use browserpm.Session.Context.{ensure_context, wait_rebuild, rebuild_context, recover}
use browserpm.Session.Exclusive.{is_lost, after_failure, do_exclusive, do_round, run_do}
use browserpm.Session.Share.{
  after_acquire, needs_recovery, recover_share, after_operation, share_page, share_round,
  do_share_round, do_share,
}
use browserpm.Session.Consistency.{
  IsConsistent, ensure_context-IsConsistent, rebuild_now-IsConsistent,
}

spawn_replace-IsWellFormed :
    (pp : ℕ) (p : Pool) → IsWellFormed p → IsWellFormed (spawn_replace pp p)
unfolding spawn_replace
spawn_replace-IsWellFormed pp p w = record {
  distinct = w.distinct;
  allocated = w.allocated;
  live = w.live;
}

-- A session that has a pool may be given another that is well formed.
with_pool-IsConsistent :
    (s : Session) (p p' : Pool)
    → IsConsistent s
    → s.pool ≡ some p
    → IsWellFormed p'
    → IsConsistent (record s { pool = some p' })
with_pool-IsConsistent s p p' v q w = record { paired = ground arith; sound = w }

module _ (d : Driver) (others : Others)
    (rely_pool : (p : Pool) (t : Trace) → IsWellFormed p → IsWellFormed (others.on_pool p t))
    (rely_session : (s : Session) (t : Trace)
      → IsConsistent s
      → IsConsistent (others.on_session s t)) where
  wait_rebuild-IsConsistent :
      (n : ℕ) (s : Session) (t : Trace)
      → IsConsistent s
      → IsConsistent (wait_rebuild d others n s t).1
  unfolding wait_rebuild
  wait_rebuild-IsConsistent zero s t v = v
  wait_rebuild-IsConsistent (suc n) s t v =
      let t' : Trace = slept ∷ t in
      let v' = rely_session s t' v in
      ground (arith, v', wait_rebuild-IsConsistent n (others.on_session s t') t' v')

  rebuild_context-IsConsistent :
      (s : Session) (t : Trace) → IsConsistent s → IsConsistent (rebuild_context d others s t).1
  unfolding rebuild_context
  rebuild_context-IsConsistent s t v =
      ground (arith, wait_rebuild-IsConsistent 100 s t v, rebuild_now-IsConsistent d s t)

  recover-IsConsistent :
      (e : Error) (s : Session) (t : Trace)
      → IsConsistent s
      → IsConsistent (recover d others e s t).1
  unfolding recover
  recover-IsConsistent e s t v = ground (arith, rebuild_context-IsConsistent s t v)

  module _ (caller : Caller) where
    after_failure-IsConsistent :
        (e : Error) (s : Session) (t : Trace)
        → IsConsistent s
        → IsConsistent (after_failure d others caller e s t).1
    unfolding after_failure
    after_failure-IsConsistent e s t v =
        ground (arith, v, recover-IsConsistent e s (is_lost d others caller e s t).1 v)

    do_round-IsConsistent :
        (s : Session) (t : Trace) → IsConsistent s → IsConsistent (do_round d others caller s t).1
    unfolding do_round
    do_round-IsConsistent s t v =
        let (r, s1, t1) = ensure_context d s t in
        let (r2, t2) = do_exclusive d caller s1 t1 in
        let v1 = ensure_context-IsConsistent d s t v in
        elim (Option-cases r) [
          | inr (x, e) ↦ rw (e, do_round) v1
          | inl e ↦ elim (Option-cases r2) [
            | inl e2 ↦ rw (e, do_round, e2) v1
            | inr (x, e2) ↦ rw (e, do_round, e2) (after_failure-IsConsistent x s1 t2 v1)
          ]
        ]

    recover_share-IsConsistent :
        (e : Error) (pp : ℕ) (p : Pool) (s : Session) (t : Trace)
        → IsConsistent s
        → s.pool ≡ some p
        → IsConsistent (recover_share d others caller e pp s t).1
    unfolding recover_share
    recover_share-IsConsistent e pp p s t v q =
        let w : IsWellFormed p = rw q at v.sound in
        ground (
          arith,
          recover-IsConsistent e s (is_context_dead d s t).1 v,
          with_pool-IsConsistent s p (spawn_replace pp p) v q (spawn_replace-IsWellFormed pp p w),
        )

    after_operation-IsConsistent :
        (e : Error) (pp h : ℕ) (p : Pool) (s : Session) (t : Trace)
        → IsConsistent s
        → s.pool ≡ some p
        → IsConsistent (after_operation d others caller e pp h s t).1
    unfolding after_operation
    after_operation-IsConsistent e pp h p s t v q = ground (
      arith,
      v,
      recover_share-IsConsistent e pp p s (needs_recovery d others caller e h s t).1 v q,
    )

    share_page-IsConsistent :
        (pp : ℕ) (p : Pool) (s : Session) (t : Trace)
        → IsConsistent s
        → s.pool ≡ some p
        → IsConsistent (share_page d others caller pp p s t).1
    unfolding share_page
    share_page-IsConsistent pp p s t v q =
        let h = (p.store pp).page in
        let t' : Trace = operation_run h ∷ t in
        let p' = release pp (others.on_pool p t') in
        let w : IsWellFormed p = rw q at v.sound in
        let v' =
          with_pool-IsConsistent s p p' v q
            (release-IsWellFormed pp (others.on_pool p t') (rely_pool p t' w)) in
        elim (Option-cases (d.operation h t)) [
          | inl e ↦ rw (e, share_page) v'
          | inr (x, e) ↦ rw (e, share_page) (after_operation-IsConsistent x pp h p' _ t' v' refl)
        ]

    after_acquire-IsConsistent :
        (w : Wait (Outcome ℕ)) (p : Pool) (s : Session) (t : Trace)
        → IsConsistent s
        → s.pool ≡ some p
        → IsConsistent (after_acquire d others caller w p s t).1
    unfolding after_acquire
    after_acquire-IsConsistent hangs p s t v q = v
    after_acquire-IsConsistent (returned (err e)) p s t v q = after_failure-IsConsistent e s t v
    after_acquire-IsConsistent (returned (ok pp)) p s t v q = share_page-IsConsistent pp p s t v q

    share_round-IsConsistent :
        (p : Pool) (s : Session) (t : Trace)
        → IsConsistent s
        → s.pool ≡ some p
        → IsConsistent (share_round d others caller p s t).1
    unfolding share_round
    share_round-IsConsistent p s t v q =
        let (w, p', t') = acquire d s.pool_config others.on_pool caller.deadline p t in
        let ok_pool =
          acquire-keeps d s.pool_config others.on_pool _ (IsWellFormed-Keeps d s.pool_config)
            rely_pool caller.deadline p t (rw q at v.sound) in
        after_acquire-IsConsistent w p' _ t' (with_pool-IsConsistent s p p' v q ok_pool) refl

    do_share_round-IsConsistent :
        (s : Session) (t : Trace)
        → IsConsistent s
        → IsConsistent (do_share_round d others caller s t).1
    unfolding do_share_round
    do_share_round-IsConsistent s t v =
        let (r, s1, t1) = ensure_context d s t in
        let v1 = ensure_context-IsConsistent d s t v in
        let s2 = others.on_session s1 t1 in
        let v2 = rely_session s1 t1 v1 in
        elim (Option-cases r) [
          | inr (x, e) ↦ rw (e, do_share_round) v1
          | inl e ↦ elim (Option-cases s2.pool) [
            | inl q ↦ rw (e, do_share_round, q) v2
            | inr (p, q) ↦ rw (e, do_share_round, q) (share_round-IsConsistent p s2 t1 v2 q)
          ]
        ]

-- The retry loop keeps what its rounds keep.
next_round_keeps {κ} :
    (P : Session → Type κ) (rest : Error → Reply × Session × Trace) (r : Round) (s : Session)
    (t : Trace)
    → P s
    → ((e : Error) → P (rest e).1)
    → P (next_round rest r s t).1
unfolding next_round
next_round_keeps P rest (finished x) s t h k = h
next_round_keeps P rest (again e) s t h k = k e
next_round_keeps P rest stuck s t h k = h
next_round_keeps P rest panics s t h k = h

retry_keeps {κ} :
    (P : Session → Type κ) (round : Session → Trace → Round × Session × Trace)
    → ((s : Session) (t : Trace) → P s → P (round s t).1)
    → (n : ℕ) (last : Option Error) (s : Session) (t : Trace) → P s
    → P (retry round n last s t).1
unfolding retry
retry_keeps P round keep zero last s t h = h
retry_keeps P round keep (suc n) last s t h =
    let (r, s', t') = round s t in
    let h' = keep s t h in
    next_round_keeps P _ r s' t' h' (λ e. retry_keeps P round keep n (some e) s' t' h')

with_retries-IsConsistent :
    (round : Session → Trace → Round × Session × Trace)
    → ((s : Session) (t : Trace) → IsConsistent s → IsConsistent (round s t).1)
    → (s : Session) (t : Trace) → IsConsistent s
    → IsConsistent (with_retries round s t).1
unfolding with_retries
with_retries-IsConsistent round keep s t v =
    ground (arith, v, retry_keeps IsConsistent round keep (suc max_retries) none s t v)

module _ (d : Driver) (others : Others)
    (rely_pool : (p : Pool) (t : Trace) → IsWellFormed p → IsWellFormed (others.on_pool p t))
    (rely_session : (s : Session) (t : Trace)
      → IsConsistent s
      → IsConsistent (others.on_session s t))
    (caller : Caller) where
  -- Do keeps the session consistent on every path: through failed operations, lost contexts, rebuilds
  -- that fail, and the waits for rebuilds of other goroutines.
  pub run_do-IsConsistent :
      (s : Session) (t : Trace) → IsConsistent s → IsConsistent (run_do d others caller s t).1
  unfolding run_do
  run_do-IsConsistent =
      with_retries-IsConsistent _ (do_round-IsConsistent d others rely_pool rely_session caller)

  -- So does DoShare, with the pool's operations on its way.
  pub do_share-IsConsistent :
      (s : Session) (t : Trace) → IsConsistent s → IsConsistent (do_share d others caller s t).1
  unfolding do_share
  do_share-IsConsistent =
      with_retries-IsConsistent _
        (do_share_round-IsConsistent d others rely_pool rely_session caller)
