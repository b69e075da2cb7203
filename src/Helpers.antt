-- ===== src/Helpers.antt =====
-- test_scenarios/helpers: what the scenario tests use to set up a manager, to repeat and to poll, and to
-- assert. Bench is the part of a testing.T that they touch.
pub mod Bench
pub mod Settings
pub mod Retry
pub mod Polling
pub mod Cleanup
pub mod Substring
pub mod Assertions
pub mod Expect
pub mod Faults
pub mod Sessions
pub mod Runs
