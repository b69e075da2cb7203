-- ===== src/Session/Runs.antt =====
-- session.go: how often Do and DoShare run the caller's operation.
use browserpm.Common.{
  ℕ, zero, suc, ◌+◌, ◌≤◌, ◌<◌, ◌≡◌, refl, inl, inr, Bool, true, false, none, some, Option-cases,
  ◌∷◌, arith,
}
use browserpm.Errors.{Error, Outcome, ok, err, Outcome-cases, Wait, returned, hangs}
use browserpm.Driver.{Driver, Trace, runs, operation_run, page_opened, page_probed}
use browserpm.Pool.Page.{Pool, release}
use browserpm.Pool.Acquire.{acquire}
use browserpm.Pool.Quiet.{acquire-runs}
use browserpm.Session.State.{
  Session, Others, Caller, Round, finished, again, stuck, panics, is_context_dead, Reply, replied,
  next_round, retry, with_retries,
}
use browserpm.Session.Context.{ensure_context}
use browserpm.Session.Exclusive.{use_page, is_lost, after_failure, do_exclusive, do_round, run_do}
use browserpm.Session.Share.{
  needs_recovery, recover_share, after_operation, share_page, after_acquire, share_round,
  do_share_round, do_share,
}
use browserpm.Session.Quiet.{ensure_context-runs, is_context_dead-runs, recover-runs}

-- A round that ends the call without an error.
abbrev is_done : Round → Bool
is_done (finished none) = true
is_done _ = false

abbrev is_success : Reply → Bool
is_success (replied none) = true
is_success _ = false

-- A round runs the operation at most once, and once if it ends the call without an error.
abbrev OneRun : Trace → Round × Session × Trace → Type 0
OneRun t (r, s', t') =
    (runs t ≤ runs t') × (runs t' ≤ suc (runs t)) × (is_done r ≡ true → runs t' ≡ suc (runs t))

module _ (d : Driver) (others : Others) where
  module _ (caller : Caller) where
    is_lost-runs :
        (e : Error) (s : Session) (t : Trace) → runs (is_lost d others caller e s t).1 ≡ runs t
    unfolding is_lost
    is_lost-runs e s t = ground (arith, is_context_dead-runs d s t)

    after_failure-runs :
        (e : Error) (s : Session) (t : Trace)
        → let (r, s', t') = after_failure d others caller e s t in
          (runs t' ≡ runs t) × (is_done r ≡ false)
    unfolding after_failure
    after_failure-runs e s t =
        let (lost, t') = is_lost d others caller e s t in
        ground (arith, is_lost-runs e s t, recover-runs d others e s t')

    use_page-runs :
        (p : ℕ) (s : Session) (t : Trace)
        → let (r, t') = use_page d caller p s t in
          (runs t ≤ runs t') × (runs t' ≤ suc (runs t)) × (r ≡ none → runs t' ≡ suc (runs t))
    unfolding use_page
    use_page-runs p s t = ground arith

    do_exclusive-runs :
        (s : Session) (t : Trace)
        → let (r, t') = do_exclusive d caller s t in
          (runs t ≤ runs t') × (runs t' ≤ suc (runs t)) × (r ≡ none → runs t' ≡ suc (runs t))
    unfolding do_exclusive
    do_exclusive-runs s t = elim (Option-cases s.browser_context) [
      | inl e ↦ rw (e, do_exclusive) (ground arith)
      | inr (c, e) ↦ elim (Outcome-cases (d.new_page c t)) [
        | inl (x, q) ↦ rw (e, do_exclusive, q) (ground arith)
        | inr (p, q) ↦ rw (e, do_exclusive, q) (use_page-runs p s (page_opened c p ∷ t))
      ]
    ]

    do_round-OneRun : (s : Session) (t : Trace) → OneRun t (do_round d others caller s t)
    unfolding do_round
    do_round-OneRun s t =
        let (r, s1, t1) = ensure_context d s t in
        let (r2, t2) = do_exclusive d caller s1 t1 in
        let built = ensure_context-runs d s t in
        let used = do_exclusive-runs s1 t1 in
        elim (Option-cases r) [
          | inr (x, e) ↦ rw (e, do_round) (ground (arith, built))
          | inl e ↦ elim (Option-cases r2) [
            | inl q ↦ rw (e, do_round, q) (ground (arith, built, used, q))
            | inr (x, q) ↦
                rw (e, do_round, q) (ground (arith, built, used, after_failure-runs x s1 t2))
          ]
        ]

    recover_share-runs :
        (e : Error) (pp : ℕ) (s : Session) (t : Trace)
        → let (r, s', t') = recover_share d others caller e pp s t in
          (runs t' ≡ runs t) × (is_done r ≡ false)
    unfolding recover_share
    recover_share-runs e pp s t =
        let (dead, t') = is_context_dead d s t in
        ground (arith, is_context_dead-runs d s t, recover-runs d others e s t')

    needs_recovery-runs :
        (e : Error) (h : ℕ) (s : Session) (t : Trace)
        → runs (needs_recovery d others caller e h s t).1 ≡ runs t
    unfolding needs_recovery
    needs_recovery-runs e h s t = ground (arith, is_context_dead-runs d s (page_probed h ∷ t))

    after_operation-runs :
        (e : Error) (pp h : ℕ) (s : Session) (t : Trace)
        → let (r, s', t') = after_operation d others caller e pp h s t in
          (runs t' ≡ runs t) × (is_done r ≡ false)
    unfolding after_operation
    after_operation-runs e pp h s t =
        let (lost, t') = needs_recovery d others caller e h s t in
        ground (arith, needs_recovery-runs e h s t, recover_share-runs e pp s t')

    share_page-OneRun :
        (pp : ℕ) (p : Pool) (s : Session) (t : Trace)
        → OneRun t (share_page d others caller pp p s t)
    unfolding share_page
    share_page-OneRun pp p s t =
        let h = (p.store pp).page in
        let t' : Trace = operation_run h ∷ t in
        let s' : Session = record s { pool = some (release pp (others.on_pool p t')) } in
        elim (Option-cases (d.operation h t)) [
          | inl e ↦ rw (e, share_page) (ground arith)
          | inr (x, e) ↦ rw (e, share_page) (ground (arith, after_operation-runs x pp h s' t'))
        ]

    after_acquire-OneRun :
        (w : Wait (Outcome ℕ)) (p : Pool) (s : Session) (t : Trace)
        → OneRun t (after_acquire d others caller w p s t)
    unfolding after_acquire
    after_acquire-OneRun hangs p s t = ground arith
    after_acquire-OneRun (returned (err e)) p s t = ground (arith, after_failure-runs e s t)
    after_acquire-OneRun (returned (ok pp)) p s t = share_page-OneRun pp p s t

    do_share_round-OneRun :
        (s : Session) (t : Trace) → OneRun t (do_share_round d others caller s t)
    unfolding do_share_round share_round
    do_share_round-OneRun s t =
        let (r, s1, t1) = ensure_context d s t in
        let s2 = others.on_session s1 t1 in
        let built = ensure_context-runs d s t in
        elim (Option-cases r) [
          | inr (x, e) ↦ rw (e, do_share_round) (ground (arith, built))
          | inl e ↦ elim (Option-cases s2.pool) [
            | inl q ↦ rw (e, do_share_round, q) (ground (arith, built))
            | inr (p, q) ↦
                let (w, p', t') = acquire d s2.pool_config others.on_pool caller.deadline p t1 in
                rw (e, do_share_round, q)
                  (ground (
                    arith,
                    built,
                    acquire-runs d s2.pool_config others.on_pool caller.deadline p t1,
                    after_acquire-OneRun w p' (record s2 { pool = some p' }) t',
                  ))
          ]
        ]

-- Of the retry loop: at most one run for each round that is left, and at least one before a success.
abbrev BoundedRuns : ℕ → Trace → Reply × Session × Trace → Type 0
BoundedRuns n t (r, s', t') =
    (runs t ≤ runs t') × (runs t' ≤ runs t + n) × (is_success r ≡ true → runs t < runs t')

next_round-BoundedRuns :
    (n : ℕ) (t : Trace) (rest : Error → Reply × Session × Trace) (r : Round) (s' : Session)
    (t' : Trace)
    → OneRun t (r, s', t')
    → ((e : Error) → BoundedRuns n t' (rest e))
    → BoundedRuns (suc n) t (next_round rest r s' t')
unfolding next_round
next_round-BoundedRuns n t rest (finished none) s' t' one k = ground (arith, one)
next_round-BoundedRuns n t rest (finished (some x)) s' t' one k = ground (arith, one)
next_round-BoundedRuns n t rest (again e) s' t' one k = ground (arith, one, k e)
next_round-BoundedRuns n t rest stuck s' t' one k = ground (arith, one)
next_round-BoundedRuns n t rest panics s' t' one k = ground (arith, one)

module _ (round : Session → Trace → Round × Session × Trace)
    (one : (s : Session) (t : Trace) → OneRun t (round s t)) where
  retry-BoundedRuns :
      (n : ℕ) (x : Error) (s : Session) (t : Trace) → BoundedRuns n t (retry round n (some x) s t)
  unfolding retry
  retry-BoundedRuns zero x s t = ground arith
  retry-BoundedRuns (suc n) x s t =
      let (r, s', t') = round s t in
      next_round-BoundedRuns n t _ r s' t' (one s t) (λ e. retry-BoundedRuns n e s' t')

  with_retries-BoundedRuns : (s : Session) (t : Trace) → BoundedRuns 3 t (with_retries round s t)
  unfolding with_retries retry
  with_retries-BoundedRuns s t =
      let (r, s', t') = round s t in
      ground (
        arith,
        next_round-BoundedRuns 2 t (λ e. retry round 2 (some e) s' t') r s' t' (one s t)
            (λ e. retry-BoundedRuns 2 e s' t'),
      )

module _ (d : Driver) (others : Others) (caller : Caller) (s : Session) (t : Trace) where
  -- Do runs the operation three times at most, and if it reports success it has run it at least once.
  pub run_do-runs :
      let (r, s', t') = run_do d others caller s t in
      (runs t' ≤ runs t + 3) × (r ≡ replied none → runs t < runs t')
  unfolding run_do
  run_do-runs =
      let (low, high, success) =
        with_retries-BoundedRuns (do_round d others caller) (do_round-OneRun d others caller) s t in
      (high, λ e. success (rw e refl))

  -- The same of DoShare.
  pub do_share-runs :
      let (r, s', t') = do_share d others caller s t in
      (runs t' ≤ runs t + 3) × (r ≡ replied none → runs t < runs t')
  unfolding do_share
  do_share-runs =
      let (low, high, success) =
        with_retries-BoundedRuns (do_share_round d others caller)
          (do_share_round-OneRun d others caller) s t in
      (high, λ e. success (rw e refl))
