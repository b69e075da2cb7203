-- ===== src/Examples/Sessions.antt =====
-- Tests of session.go.
use browserpm.Common.{inr, ◌+◌, ◌≤◌, ◌<◌, ◌≡◌, ◌⊎◌, refl, true, none, some, []}
use browserpm.Errors.{ErrorCode, Error, returned, new_error}
use browserpm.Driver.{opened, released, runs}
use browserpm.Session.State.{SessionState, replied}
use browserpm.Session.Context.{has_context, rebuild_now}
use browserpm.Session.Exclusive.{do_exclusive, run_do}
use browserpm.Session.Share.{do_share, close}
use browserpm.Session.Consistency.{IsConsistent, IsPoolOk, rebuild_now_lem}
use browserpm.Session.Preservation.{do_share-IsConsistent}
use browserpm.Session.Closing.{close-refuses}
use browserpm.Session.Runs.{run_do-runs}
use browserpm.Session.Leaks.{do_exclusive-balanced}
use browserpm.Session.Progress.{is_reply, do_share_returns}
use browserpm.Common.{suc, ltb, arith, if◌then◌else◌}
use browserpm.Driver.{Driver}
use browserpm.Session.Serving.{IsServing}
use browserpm.Session.Liveness.{run_do-recovers}
use browserpm.Session.Openings.{missing}
use browserpm.Driver.{openings, closings}
use browserpm.Examples.Values.{lost, lost-found}
use browserpm.Common.{ℕ, false}
use browserpm.Common.Turns.{total}
use browserpm.Driver.{contexts_opened, contexts_closed}
use browserpm.Session.State.{is_closed}
use browserpm.Session.Interleaving.{System, outside, advance, moved, turn, Reach, here, later}
use browserpm.Session.Accounts.{held}
use browserpm.Session.Interleaving.Contexts.{pending, Reach-contexts}
use browserpm.Session.Interleaving.Rebuilds.{rebuilders, flag, Reach-rebuilders}
use browserpm.Session.Interleaving.Reopened.{reopens}
use browserpm.Session.Interleaving.NilPool.{reads_nil}
use browserpm.Session.Interleaving.{ensured, read_pool}
use browserpm.Session.State.{max_retries}
use browserpm.Errors.{panics}
use browserpm.Examples.{fresh_session}
use browserpm.Examples.{
  good_driver, clock-IsClock, nobody, patient, open_session, open_session-IsConsistent,
}

do_share-IsConsistent_example : IsConsistent (do_share good_driver nobody patient open_session []).1
do_share-IsConsistent_example =
    do_share-IsConsistent good_driver nobody (λ p t w. w) (λ s t v. v) patient open_session []
      open_session-IsConsistent

do_share_returns_example : is_reply (do_share good_driver nobody patient open_session []).0 ≡ true
do_share_returns_example =
    do_share_returns good_driver nobody patient clock-IsClock (λ s t q. q) open_session []

run_do-runs_example :
    let (r, s', t') = run_do good_driver nobody patient open_session [] in
    (runs t' ≤ 0 + 3) × (r ≡ replied none → 0 < runs t')
run_do-runs_example = run_do-runs good_driver nobody patient open_session []

do_exclusive-balanced_example :
    let t' = (do_exclusive good_driver patient open_session []).1 in
    opened 0 t' + 0 ≡ 0 + released 0 t'
do_exclusive-balanced_example = do_exclusive-balanced good_driver patient 0 open_session []

close-refuses_example :
    let s' = (close good_driver nobody open_session []).1 in
    let refusal = replied (some (new_error ErrorCode.closed "session is closed")) in
    (run_do good_driver nobody patient s' [] ≡ (refusal, s', []))
    × (do_share good_driver nobody patient s' [] ≡ (refusal, s', []))
    × (close good_driver nobody s' [] ≡ (returned tt, s', []))
close-refuses_example = close-refuses good_driver nobody (λ s t q. q) patient open_session [] []

rebuild_now_lem_example :
    let (r, s', t') = rebuild_now good_driver open_session [] in
    ((r ≡ none)
      × (has_context s'.browser_context s'.pool ≡ true)
      × IsPoolOk s'.pool
      × (s'.state ≡ SessionState.active))
    ⊎ ((e : Error) × (r ≡ some e)
        × (s'.browser_context ≡ none)
        × (s'.pool ≡ none)
        × (s'.state ≡ SessionState.degraded))
rebuild_now_lem_example = rebuild_now_lem good_driver open_session []

-- The first operation loses the connection.
abbrev flaky_driver : Driver
flaky_driver = record good_driver { operation = λ p t. if ltb (runs t) 1 then some lost else none }

flaky_driver-IsServing : IsServing flaky_driver
flaky_driver-IsServing = record {
  serves = record { opens = λ c t. (_, refl); inits = λ x p t. refl };
  opens_context = λ t. (1, refl);
  sets_up = λ x c t. refl;
}

run_do-recovers_example :
    let (r, s', t') = run_do flaky_driver nobody patient open_session [] in
    (r ≡ replied none)
    × (runs t' ≡ suc (0 + 1))
    × (openings t' ≡ 0 + (missing open_session + 1))
    × (closings t' ≡ 0 + 1)
run_do-recovers_example =
    run_do-recovers flaky_driver flaky_driver-IsServing nobody patient lost 1 open_session []
      (omega arith) lost-found refl refl (λ p t l. ground (arith, l)) (λ p t l. ground (arith, l))

good_driver-IsServing : IsServing good_driver
good_driver-IsServing = record {
  serves = record { opens = λ c t. (_, refl); inits = λ x p t. refl };
  opens_context = λ t. (1, refl);
  sets_up = λ x c t. refl;
}

-- Two goroutines before and after the first has begun a round of Do.
abbrev idle_callers : System
idle_callers = record { session = fresh_session; trace = []; phase = λ i. outside }

abbrev go : ℕ → System → System
go i u =
    moved good_driver nobody patient i u.phase
      (advance good_driver nobody patient (u.phase i) u.session u.trace)

abbrev begun : System
begun = go 0 (go 0 idle_callers)

begun-reached : Reach good_driver nobody patient 2 idle_callers begun
begun-reached = later (later here (turn 0 (omega arith))) (turn 0 (omega arith))

Reach-contexts_example :
    contexts_opened 1 begun.trace
    ≡ contexts_closed 1 begun.trace
      + held 1 begun.session.browser_context
      + total (pending 1) 2 begun.phase
Reach-contexts_example =
    Reach-contexts good_driver nobody patient 1 2 fresh_session [] begun (inr (refl, refl)) refl
      begun-reached

Reach-rebuilders_example : total rebuilders 2 begun.phase ≡ flag begun.session
Reach-rebuilders_example =
    Reach-rebuilders good_driver nobody patient 2 fresh_session [] begun refl begun-reached

reopens_example :
    (v : System) × Reach good_driver nobody patient 2 idle_callers v
    × ((i : ℕ) → v.phase i ≡ outside)
    × (is_closed v.session ≡ false)
    × (v.session.is_cancelled ≡ true)
    × (has_context v.session.browser_context v.session.pool ≡ true)
reopens_example =
    reopens good_driver nobody patient fresh_session [] good_driver-IsServing (λ p t1. refl) refl

reads_nil_example :
    (v : System) × Reach good_driver nobody patient 2 idle_callers v
    × (v.phase 0 ≡ ensured max_retries)
    × (read_pool v.session ≡ panics)
reads_nil_example = reads_nil good_driver nobody patient fresh_session [] good_driver-IsServing refl
