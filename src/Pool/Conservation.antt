-- ===== src/Pool/Conservation.antt =====
-- pool.go and health.go: over any history of a pool no page of the browser is forgotten.
use browserpm.Common.{ℕ, ◌+◌, ◌≤◌, arith}
use browserpm.Config.{PoolConfig}
use browserpm.Driver.{Driver, Trace, opened, released}
use browserpm.Pool.Page.{Pool}
use browserpm.Pool.Create.{new_page_pool}
use browserpm.Pool.Remove.{close}
use browserpm.Pool.Invariant.{new_page_pool-IsWellFormed}
use browserpm.Pool.History.{IsReachable, IsReachable-keeps}
use browserpm.Pool.Leaks.{listed, IsAccounted, IsAccounted-Keeps, close-releases}

module _ (d : Driver) (cfg : PoolConfig) (others : Pool → Trace → Pool) (h : ℕ)
    (rely : (s : Pool) (t : Trace) → IsAccounted h s t → IsAccounted h (others s t) t) (c : ℕ)
    (t0 : Trace) (clean : opened h t0 ≤ released h t0) where
  IsReachable-IsAccounted :
      (s : Pool) (t : Trace) → IsReachable d cfg others c t0 s t → IsAccounted h s t
  unfolding new_page_pool
  IsReachable-IsAccounted =
      IsReachable-keeps d cfg others (IsAccounted h) (IsAccounted-Keeps h d cfg) rely c t0
        (new_page_pool-IsWellFormed c, omega (arith, clean))

  -- Over any history of a pool that starts with no page `h` open, each time that `h` was opened it was closed, or
  -- a goroutine was sent to close it, or it stands in the slice; if what the other goroutines do while
  -- an operation waits keeps this account. Failed initialisations, the reaper, replacements and rebuilds are
  -- among the operations.
  pub opened-le :
      (s : Pool) (t : Trace)
      → IsReachable d cfg others c t0 s t
      → opened h t ≤ released h t + listed h s.store s.pages
  opened-le s t r = (IsReachable-IsAccounted s t r).1

  -- Close after any history of a pool that starts with no page `h` open leaves none: each time that `h`
  -- was opened it was closed, or a goroutine was sent to close it; if what the other goroutines do while
  -- an operation waits keeps the pool's account of its pages.
  pub opened-close-le :
      (s : Pool) (t : Trace)
      → IsReachable d cfg others c t0 s t
      → let t' = (close d cfg s t).1 in opened h t' ≤ released h t'
  opened-close-le s t r = close-releases h d cfg s t (IsReachable-IsAccounted s t r).1
