-- ===== src/Session.antt =====
-- session.go: a session, a browser context with its page pool, built when it is first needed and
-- rebuilt when it dies. `none` in `browser_context` and `pool` is nil. The logger is left out, and the
-- manager is the driver. What other goroutines do while an operation waits is the parameter `others`.
pub mod State
pub mod Context
pub mod Exclusive
pub mod Share
pub mod Observe
pub mod Consistency
pub mod Preservation
pub mod Closing
pub mod Quiet
pub mod Runs
pub mod Leaks
pub mod Progress
pub mod Serving
pub mod Openings
pub mod Liveness
pub mod Accounts
pub mod Interleaving
