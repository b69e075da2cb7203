-- ===== src/Pool.antt =====
-- pool.go and health.go: the page pool. A *poolPage is a number, its cell in the store; the slice
-- `pages` holds such numbers, so that a page that was taken off the slice keeps its counters, as in
-- the source. An operation takes the pool and the trace and returns its result, the pool and the
-- trace. The logger is left out. Functions are named as in the source, in snake case.
pub mod Page
pub mod Create
pub mod Select
pub mod Acquire
pub mod Remove
pub mod Observe
pub mod Health
pub mod Invariant
pub mod Created
pub mod Keeps
pub mod Preservation
pub mod History
pub mod Selection
pub mod Acquired
pub mod Waiting
pub mod Reaping
pub mod Sizes
pub mod Bounds
pub mod Interleaving
pub mod Accounting
pub mod Quiet
pub mod Leaks
pub mod Conservation
pub mod Contexts
pub mod Custody
pub mod Locks
pub mod Loops
