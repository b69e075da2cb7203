-- ===== src/Helpers/Sessions/Works.antt =====
-- setup.go: a session that a TestManager has created works on a browser that opens pages and contexts.
use browserpm.Common.{ℕ, suc, ◌≡◌, refl, subst, false, none, some, List, String, arith, inl, inr}
use browserpm.Errors.{ok, Outcome-cases}
use browserpm.Config.{SessionOption}
use browserpm.Driver.{Driver, Trace, runs}
use browserpm.Providers.{with_providers, run_setup, run_init}
use browserpm.Session.State.{Session, Others, replied, is_closed, with_retries, retry, next_round}
use browserpm.Session.Exclusive.{run_do}
use browserpm.Session.Serving.{IsServing}
use browserpm.Session.Liveness.{do_round-finished}
use browserpm.Manager.Operations.{Manager, create_session}
use browserpm.Manager.Laws.{create_session_iff}
use browserpm.Helpers.Cleanup.{TestManager}
use browserpm.Helpers.Sessions.{
  test_context_provider, test_page_provider, TestSession, create_with, create_test_session, timed,
  test_do,
}

module _ (d : Driver) (pages : (c : ℕ) (t : Trace) → (p : ℕ) × (d.new_page c t ≡ ok p))
    (contexts : (t : Trace) → (c : ℕ) × (d.new_context t ≡ ok c)) (others : Others) where
  serving : IsServing (with_providers test_context_provider (test_page_provider d) d)
  unfolding with_providers run_setup run_init
  serving = record {
    serves = record { opens = pages; inits = λ x p t. refl };
    opens_context = contexts;
    sets_up = λ x c t. refl;
  }

  abbrev providing : Driver
  providing = with_providers test_context_provider (test_page_provider d) d

  made_of :
      (name : String) (opts : List SessionOption) (tm : TestManager (Manager × Trace)) (m : Manager)
      (t : Trace) (ts : TestSession)
      → (create_test_session d others name opts false tm m t).0 ≡ some ts
      → (s : Session) × ((create_session providing name opts m t).0 ≡ ok s)
        × (record { session = s; driver = providing } ≡ ts)
  unfolding create_with
  made_of name opts tm m t ts made =
      elim (Outcome-cases (create_session providing name opts m t).0) [
        | inl (e, refused) ↦ ground (arith, made, refused)
        | inr (s, there) ↦ (s, there, ground (arith, made, there))
      ]

  runs_lem :
      ((p : ℕ) (t : Trace) → d.operation p t ≡ none)
      → (s : Session) (t : Trace) → is_closed s ≡ false
      → let (r, s', t') = test_do others (record { session = s; driver = providing }) t in
        (r ≡ replied none) × (runs t' ≡ suc (runs t))
  unfolding test_do run_do with_retries retry with_providers next_round
  runs_lem works s t open_ =
      let (fine, count, opens) =
        do_round-finished providing serving others (timed providing t) s t (λ p t1 e. works p t1) in
      rw (open_, test_do, run_do, with_retries, retry, fine, next_round) (refl, count)

  -- On a browser that opens each page and each context, and with an operation that succeeds, Do of a session
  -- that a TestManager has created returns nil, after exactly one run of the operation.
  pub create_test_session-test_do :
      ((p : ℕ) (t : Trace) → d.operation p t ≡ none)
      → (name : String) (opts : List SessionOption) (tm : TestManager (Manager × Trace))
        (m : Manager) (t : Trace) (ts : TestSession)
      → (create_test_session d others name opts false tm m t).0 ≡ some ts
      → (later : Trace)
      → let (r, s', t') = test_do others ts later in
        (r ≡ replied none) × (runs t' ≡ suc (runs later))
  create_test_session-test_do works name opts tm m t ts made later =
      let (s, there, same) = made_of name opts tm m t ts made in
      let (live, valid, free, fresh) = (create_session_iff providing name opts m t s).0 there in
      subst
        (λ x.
          let (r, s', t') = test_do others x later in
          (r ≡ replied none) × (runs t' ≡ suc (runs later)))
        same (runs_lem works s later (rw fresh refl))
