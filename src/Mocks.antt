-- ===== src/Mocks.antt =====
-- test_scenarios/mock: the errors that the scenarios inject, and the killer of processes.
pub mod Faults
pub mod Killer
pub mod Crash
