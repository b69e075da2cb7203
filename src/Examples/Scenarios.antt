-- ===== src/Examples/Scenarios.antt =====
-- Tests of test_scenarios/helpers.
use browserpm.Common.{
  ◌≡◌, refl, ◌↔◌, ◌⊎◌, Bool, true, false, Option, none, some, [], ◌∷◌, length, leb, arith,
  if◌then◌else◌,
}
use browserpm.Common.Int.{pos, pos_part}
use browserpm.Errors.{Error, foreign, ok, returned}
use browserpm.Config.{Config, new_config}
use browserpm.Config.Validity.{IsValidPool}
use browserpm.Driver.{Trace, clock_read}
use browserpm.Helpers.Bench.{goes_on}
use browserpm.Helpers.Settings.{
  TestConfig, new_test_config, with_max_pages, with_context_options, manager_options, read_back,
}
use browserpm.Helpers.Settings.RoundTrip.{pool_of, manager_options_iff}
use browserpm.Helpers.Retry.{default_retry_config, retry}
use browserpm.Helpers.Retry.Attempts.{Succeeds, retry_iff}
use browserpm.Helpers.Polling.{deadline_after, assert_eventually, assert_never}
use browserpm.Helpers.Polling.Verdicts.{HoldsBefore, eventually-never}
use browserpm.Common.{suc, length}
use browserpm.Common.Assoc.{lookup}
use browserpm.Config.{apply_all, validate_pool}
use browserpm.Driver.{runs}
use browserpm.Errors.{done}
use browserpm.Errors.Connection.{is_connection_error}
use browserpm.Manager.Operations.{Manager, create_session, new_session}
use browserpm.Providers.{with_providers}
use browserpm.Session.State.{replied}
use browserpm.Helpers.Cleanup.{TestManager}
use browserpm.Helpers.Faults.{assert_process_killed}
use browserpm.Helpers.Sessions.{
  TestSession, test_context_provider, test_page_provider, create_with, create_test_session, test_do,
}
use browserpm.Helpers.Sessions.Works.{create_test_session-test_do}
use browserpm.Mocks.Faults.{
  generate_connection_error, generate_timeout_error, generate_network_error,
}
use browserpm.Mocks.Faults.Recognised.{generated_lem}
use browserpm.Mocks.Killer.{Processes, new_process_killer, kill_process}
use browserpm.Mocks.Killer.Records.{IsClock, kill_process-asserts}
use browserpm.Examples.{clock, clock-IsClock, good_driver, nobody, two_sessions}

abbrev seven_pages : TestConfig
seven_pages = new_test_config (with_max_pages (pos 7) ∷ [])

manager_options_iff_example :
    ((cfg : Config) × (new_config (manager_options (with_context_options seven_pages)) ≡ ok cfg)
      × (read_back cfg ≡ seven_pages))
    ↔ IsValidPool (pool_of seven_pages)
manager_options_iff_example = manager_options_iff seven_pages

-- A call that fails as long as there were fewer than two calls before.
abbrev third_time : Trace → Option Error × Trace
third_time t = (if leb 2 (length t) then none else some (foreign "not yet"), t)

retry_iff_example :
    ((retry third_time default_retry_config []).0 ≡ none)
    ↔ ((pos_part default_retry_config.max_attempts ≡ 0) ⊎ Succeeds third_time 3 [])
retry_iff_example = retry_iff third_time default_retry_config []

-- A condition that holds from the time 105 on.
abbrev late : Trace → Bool × Trace
late t = (leb 105 (clock t), t)

eventually-never_example :
    let polled = HoldsBefore clock late (deadline_after clock late (pos 20) []) (clock_read ∷ []) in
    let eventually = (assert_eventually clock late (pos 20) false []).0 in
    let never = (assert_never clock late (pos 20) false []).0 in
    (polled × (eventually ≡ returned (goes_on false)) × (never ≡ returned (goes_on true)))
    ⊎ ((polled → ⊥) × (eventually ≡ returned (goes_on true)) × (never ≡ returned (goes_on false)))
eventually-never_example = eventually-never clock clock-IsClock late (λ t. omega arith) (pos 20) []

abbrev no_cleanup : TestManager (Manager × Trace)
no_cleanup = record { manager = none; cleanup = [] }

abbrev created : TestSession
created = record {
  session = new_session "post" ((two_sessions.config).pool) (clock []);
  driver = with_providers test_context_provider (test_page_provider good_driver) good_driver;
}

was_created :
    (create_test_session good_driver nobody "post" [] false no_cleanup two_sessions []).0
    ≡ some created
unfolding create_with create_session lookup apply_all validate_pool with_providers
was_created = refl

create_test_session-test_do_example :
    let (r, s', t') = test_do nobody created [] in (r ≡ replied none) × (runs t' ≡ suc (runs []))
create_test_session-test_do_example =
    create_test_session-test_do good_driver (λ c t. (_, refl)) (λ t. (1, refl)) nobody (λ p t. refl)
      "post" [] no_cleanup two_sessions [] created was_created []

generated_lem_example :
    ((e : Error) × (generate_connection_error 6 ≡ done e) × (is_connection_error (some e) ≡ true))
    × ((e : Error) × (generate_network_error 4 ≡ done e) × (is_connection_error (some e) ≡ false))
    × (is_connection_error (some generate_timeout_error) ≡ false)
generated_lem_example = generated_lem 6 4 (omega arith) (omega arith)

-- No process exists any more.
abbrev nothing_runs : Processes
nothing_runs = record {
  pid_exists = λ pid t. ok false;
  new_process = λ pid t. some (foreign "no such process");
  kill = λ pid t. none;
  processes = λ t. ok [];
  now = λ t. length t;
}

nothing_runs-IsClock : IsClock nothing_runs.now
nothing_runs-IsClock = record { forward = λ c t. omega arith; sleep_passes = λ t. omega arith }

kill_process-asserts_example :
    (e : Option Error) × ((kill_process nothing_runs (pos 7) new_process_killer []).0 ≡ returned e)
    × (let pk' = (kill_process nothing_runs (pos 7) new_process_killer []).1 in
        ((assert_process_killed (pos 7) pk' false ≡ goes_on false)
          ↔ ((assert_process_killed (pos 7) new_process_killer false ≡ goes_on false) ⊎ (e ≡ none)))
        × (length pk'.killed_pids ≡ suc (length new_process_killer.killed_pids)))
kill_process-asserts_example =
    kill_process-asserts nothing_runs nothing_runs-IsClock (pos 7) new_process_killer [] refl
