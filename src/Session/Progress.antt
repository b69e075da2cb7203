-- ===== src/Session/Progress.antt =====
-- session.go: DoShare comes to an end, if the session keeps its pool while it runs.
use browserpm.Common.{
  ℕ, zero, suc, ◌≡◌, ◌≢◌, refl, inl, inr, Bool, true, false, Option, none, some, Option-cases, ◌∷◌,
  arith,
}
use browserpm.Errors.{Error, Outcome, ok, err, Wait, returned, hangs}
use browserpm.Driver.{Driver, Trace, IsClock, operation_run}
use browserpm.Pool.Page.{Pool, release}
use browserpm.Pool.Acquired.{acquire_returns}
use browserpm.Session.State.{
  Session, Others, Caller, Round, finished, again, stuck, panics, Reply, replied, next_round, retry,
  with_retries,
}
use browserpm.Session.Context.{has_context, ensure_context}
use browserpm.Session.Exclusive.{after_failure}
use browserpm.Session.Consistency.{ensure_context-has_context}
use browserpm.Session.Share.{
  needs_recovery, recover_share, after_operation, share_page, after_acquire, share_round,
  do_share_round, do_share,
}

-- A round that leads on, and a call that has come to an end.
abbrev is_progress : Round → Bool
is_progress (finished x) = true
is_progress (again e) = true
is_progress _ = false

abbrev pub is_reply : Reply → Bool
is_reply (replied x) = true
is_reply _ = false

-- No other goroutine takes the pool off a session that has one.
abbrev pub KeepsPool : Others → Type 0
KeepsPool others = (s : Session) (t : Trace) → s.pool ≢ none → (others.on_session s t).pool ≢ none

has_context-pool : (s : Session) → has_context s.browser_context s.pool ≡ true → s.pool ≢ none
has_context-pool s h q = ground (arith, h, q)

module _ (d : Driver) (others : Others) (caller : Caller) (clock : IsClock d.now) where
  after_failure-progress :
      (e : Error) (s : Session) (t : Trace)
      → is_progress (after_failure d others caller e s t).0 ≡ true
  unfolding after_failure
  after_failure-progress e s t = ground arith

  recover_share-progress :
      (e : Error) (pp : ℕ) (p : Pool) (s : Session) (t : Trace)
      → s.pool ≡ some p
      → is_progress (recover_share d others caller e pp s t).0 ≡ true
  unfolding recover_share
  recover_share-progress e pp p s t q = ground (arith, q)

  after_operation-progress :
      (e : Error) (pp h : ℕ) (p : Pool) (s : Session) (t : Trace)
      → s.pool ≡ some p
      → is_progress (after_operation d others caller e pp h s t).0 ≡ true
  unfolding after_operation
  after_operation-progress e pp h p s t q =
      ground (arith, recover_share-progress e pp p s (needs_recovery d others caller e h s t).1 q)

  share_page-progress :
      (pp : ℕ) (p : Pool) (s : Session) (t : Trace)
      → is_progress (share_page d others caller pp p s t).0 ≡ true
  unfolding share_page
  share_page-progress pp p s t =
      let h = (p.store pp).page in
      let t' : Trace = operation_run h ∷ t in
      let p' = release pp (others.on_pool p t') in
      elim (Option-cases (d.operation h t)) [
        | inl e ↦ rw (e, share_page) refl
        | inr (x, e) ↦
            rw (e, share_page)
              (after_operation-progress x pp h p' (record s { pool = some p' }) t' refl)
      ]

  after_acquire-progress :
      (w : Wait (Outcome ℕ)) (p : Pool) (s : Session) (t : Trace)
      → w ≢ hangs
      → is_progress (after_acquire d others caller w p s t).0 ≡ true
  unfolding after_acquire
  after_acquire-progress hangs p s t h = absurd (h refl)
  after_acquire-progress (returned (err e)) p s t h = after_failure-progress e s t
  after_acquire-progress (returned (ok pp)) p s t h = share_page-progress pp p s t

  do_share_round-progress :
      KeepsPool others
      → (s : Session) (t : Trace) → is_progress (do_share_round d others caller s t).0 ≡ true
  unfolding do_share_round share_round
  do_share_round-progress keeps s t =
      let (r, s1, t1) = ensure_context d s t in
      let s2 = others.on_session s1 t1 in
      elim (Option-cases r) [
        | inr (x, e) ↦ rw (e, do_share_round) refl
        | inl e ↦ elim (Option-cases s2.pool) [
          | inl q ↦
              let there = ensure_context-has_context d s t e in
              absurd (keeps s1 t1 (has_context-pool s1 there) q)
          | inr (p, q) ↦
              rw (e, do_share_round, q)
                (after_acquire-progress _ _ _ _
                  (acquire_returns d s2.pool_config others.on_pool clock caller.deadline p t1))
        ]
      ]

next_round-reply :
    (rest : Error → Reply × Session × Trace) (r : Round) (s : Session) (t : Trace)
    → is_progress r ≡ true
    → ((e : Error) → is_reply (rest e).0 ≡ true)
    → is_reply (next_round rest r s t).0 ≡ true
unfolding next_round
next_round-reply rest (finished x) s t h k = refl
next_round-reply rest (again e) s t h k = k e
next_round-reply rest stuck s t h k = cc
next_round-reply rest panics s t h k = cc

retry-reply :
    (round : Session → Trace → Round × Session × Trace)
    → ((s : Session) (t : Trace) → is_progress (round s t).0 ≡ true)
    → (n : ℕ) (last : Option Error) (s : Session) (t : Trace)
    → is_reply (retry round n last s t).0 ≡ true
unfolding retry
retry-reply round go zero last s t = refl
retry-reply round go (suc n) last s t =
    let (r, s', t') = round s t in
    next_round-reply _ r s' t' (go s t) (λ e. retry-reply round go n (some e) s' t')

-- If time passes at every tick and no other goroutine takes the pool off the session meanwhile, DoShare
-- returns: it neither waits for ever for a page, whatever the others do to the pool, nor uses a nil pool.
pub do_share_returns :
    (d : Driver) (others : Others) (caller : Caller)
    → IsClock d.now
    → ((s : Session) (t : Trace) → s.pool ≢ none → (others.on_session s t).pool ≢ none)
    → (s : Session) (t : Trace) → is_reply (do_share d others caller s t).0 ≡ true
unfolding do_share with_retries
do_share_returns d others caller clock keeps s t = ground (
  arith,
  retry-reply (do_share_round d others caller) (do_share_round-progress d others caller clock keeps)
      3 none s t,
)
