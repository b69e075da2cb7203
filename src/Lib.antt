-- ===== src/Lib.antt =====
-- browserpm: a model of the session and page pool manager for Playwright browsers, with the theorems
-- that make it correct.
--
-- The program. A BrowserManager owns one browser and named sessions. A session owns a browser context
-- and a pool of pages; Do runs an operation on a page of its own, DoShare on a page that the pool
-- hands out, both with up to three rounds that rebuild a lost context in between. The pool creates
-- pages, chooses among those that are available through a round-robin scheduler, checks their health
-- and recycles them when they expire.
--
-- Files. Functions are named as in the source, in snake case; a comment names the function where the
-- name differs.
--   Errors, Errors/Chain, Errors/Connection: errors.go and IsConnectionError of session.go.
--   Config, Config/Options, Config/Validity: config.go.
--   Scheduler, Scheduler/Fairness: scheduler.go.
--   Driver: what lies outside the program, a record of answers that depend on the calls made before.
--     An operation takes the trace of those calls, newest first, and returns the longer one.
--   Pool: pool.go and health.go. A *poolPage is a number, its cell in a store; the slice holds such
--     numbers. Pool/Page, Create, Select, Acquire, Remove, Observe and Health hold the code, the other
--     children of Pool what is proved of it: Keeps carries a property over all operations, History over
--     sequences of operations, Loops has the two background goroutines of health.go, Interleaving the steps
--     of calls of Acquire at once, Locks those of Stats and of the pool's lock, and Custody those of the
--     operations that create and close pages, with the pages that each goroutine has in its hands.
--   Session: session.go. Session/State, Context, Exclusive (Do), Share (DoShare and Close) and Observe
--     hold the code, the other children of Session what is proved of it. Session/Interleaving has the steps
--     of calls of Do, DoShare and Close at once, from one release of the session's lock to the next.
--   Installer: installer.go.
--   Manager: manager.go. Manager/Operations and Start (New and init) hold the code, Registry what a
--     manager promises, Laws, Shutdown and Refinement what is proved.
--   Process: process.go and getProcessMemory of utils.go (Process/Memory). Process/Reply is a decoded
--     reply of the browser.
--   Logger: logger.go. Logger/Interface has the interface with its two implementations, Logger/Levels
--     what reaches the library.
--   Utils, Utils/Hex: utils.go less getProcessMemory, and version.go.
--   Providers: the providers of browserpm.go that are made of functions.
--   Global, Global/Once: global.go.
--   Helpers: test_scenarios/helpers. Helpers/Settings, Cleanup, Sessions, Retry, Faults and Runs are
--     setup.go, Assertions, Polling, Substring and Expect assertions.go, and Bench the part of a
--     testing.T that they touch.
--   Mocks: test_scenarios/mock. Mocks/Faults has the errors that are injected (browser.go, page.go),
--     Mocks/Killer and Crash the ProcessKiller and the BrowserCrashSimulator of browser.go.
--   Examples: concrete data and tests.
--   Common: shared types, tests, lists, integers, text, maps by name, goroutines that take turns.
--
-- Concurrency. What other goroutines do while an operation waits (for the ticker in Acquire, for a
-- sleep in Drain, waitAndReplace and rebuildContext, for the caller's operation in DoShare) is a
-- parameter: any function of the pool or of the session and the trace. Between its waits an operation
-- runs alone; the code's locks protect only parts of it. Others may also change the session between
-- ensureContext and DoShare's read of s.pool, and while Close closes what it has taken off. From
-- that read on the pointer s.pool of a session in DoShare stays the same while Acquire waits and while
-- the operation runs. Pool/Interleaving, Pool/Custody and Session/Interleaving are finer: there a call
-- is a sequence of steps, and the steps of several goroutines mix in any order. Pool/Custody/Late has
-- only the steps of an addition to the pool and of Close, each exactly as in the code. In Session/Interleaving the work of DoShare on the pool is any change of
-- the pool and any calls that open and close no context.
--
-- Numbers. Durations are integers in nanoseconds, times natural numbers; activeOps, useCount and the
-- scheduler's counter wrap around at 2 ^ 64, TTL plus or minus the grace period as an int64. Two times
-- are less than 292 years apart.
--
-- Bounds. Acquire's loop is allotted two rounds more than there are nanoseconds to its deadline, a
-- sleeping loop one more; as the clock passes at every tick and sleep (IsClock) these suffice, as is
-- proved. The wait for another rebuild has a hundred rounds and the retry loop three, as in the source.
-- The loop of errors.Is has one round for each error of the chain.
--
-- Not modelled: what the components log, the stealth scripts (texts of another language), the examples
-- (they print), the values that fmt.Errorf puts into messages, and of the mocks the simulators of a
-- browser, a connection and pages.
pub mod Helpers
pub mod Mocks
pub mod Common
pub mod Errors
pub mod Config
pub mod Scheduler
pub mod Driver
pub mod Pool
pub mod Process
pub mod Logger
pub mod Providers
pub mod Utils
pub mod Session
pub mod Installer
pub mod Manager
pub mod Global
pub mod Examples
