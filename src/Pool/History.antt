-- ===== src/Pool/History.antt =====
-- pool.go and health.go: the pools that any sequence of operations can lead to.
use browserpm.Common.{ℕ, Option}
use browserpm.Common.Int.{ℤ}
use browserpm.Config.{PoolConfig}
use browserpm.Driver.{Driver, Trace}
use browserpm.Pool.Page.{Pool, release}
use browserpm.Pool.Create.{new_page_pool}
use browserpm.Pool.Acquire.{acquire}
use browserpm.Pool.Remove.{replace_page, close, rebuild_all}
use browserpm.Pool.Health.{start, drain, run_health_check, run_reap}
use browserpm.Pool.Invariant.{IsWellFormed, new_page_pool-IsWellFormed}
use browserpm.Pool.Keeps.{Keeps, start-keeps, rebuild_all-keeps, run_reap-keeps}
use browserpm.Pool.Keeps.Waiting.{acquire-keeps, drain-keeps, run_health_check-keeps}
use browserpm.Pool.Preservation.{IsWellFormed-Keeps}

-- The calls that change a pool: those of its users and those of its background loops.
pub data Operation : Type 0 where
  starts : Operation
  acquires : Option ℕ → Operation
  releases : ℕ → Operation
  replaces : ℕ → Operation
  drains : ℤ → Operation
  checks reaps rebuilds closes : Operation

module _ (d : Driver) (cfg : PoolConfig) (others : Pool → Trace → Pool) where
  abbrev pub perform : Operation → Pool → Trace → Pool × Trace
  perform starts s t = let (r, s', t') = start d cfg s t in (s', t')
  perform (acquires deadline) s t = let (r, s', t') = acquire d cfg others deadline s t in (s', t')
  perform (releases p) s t = (release p s, t)
  perform (replaces p) s t = replace_page d cfg p s t
  perform (drains timeout) s t = let (r, s', t') = drain d cfg others timeout s t in (s', t')
  perform checks s t = let (r, s', t') = run_health_check d cfg others s t in (s', t')
  perform reaps s t = run_reap d cfg s t
  perform rebuilds s t = let (r, s', t') = rebuild_all d cfg s t in (s', t')
  perform closes s t = close d cfg s t

  -- A pool that a history of operations leads to, from the new pool of the context `c` at the trace
  -- `t0`.
  pub data IsReachable (c : ℕ) (t0 : Trace) : Pool → Trace → Type 0 where
    fresh : IsReachable c t0 (new_page_pool c) t0
    step :
        (o : Operation) {s : Pool} {t : Trace}
        → IsReachable c t0 s t
        → IsReachable c t0 (perform o s t).0 (perform o s t).1

module _ (d : Driver) (cfg : PoolConfig) (others : Pool → Trace → Pool) (P : Pool → Trace → Type 0)
    (k : Keeps d cfg P) (rely : (s : Pool) (t : Trace) → P s t → P (others s t) t) where
  perform-keeps :
      (o : Operation) (s : Pool) (t : Trace)
      → P s t
      → P (perform d cfg others o s t).0 (perform d cfg others o s t).1
  perform-keeps starts s t h = start-keeps d cfg P k s t h
  perform-keeps (acquires deadline) s t h = acquire-keeps d cfg others P k rely deadline s t h
  perform-keeps (releases p) s t h = k.frees p s t h
  perform-keeps (replaces p) s t h = k.replaces p s t h
  perform-keeps (drains timeout) s t h = drain-keeps d cfg others P k rely timeout s t h
  perform-keeps checks s t h = run_health_check-keeps d cfg others P k rely s t h
  perform-keeps reaps s t h = run_reap-keeps d cfg P k s t h
  perform-keeps rebuilds s t h = rebuild_all-keeps d cfg P k s t h
  perform-keeps closes s t h = k.closes s t h

  -- What holds of the new pool, and is kept by the small steps, holds of every pool that is reached.
  pub IsReachable-keeps :
      (c : ℕ) (t0 : Trace)
      → P (new_page_pool c) t0
      → (s : Pool) (t : Trace) → IsReachable d cfg others c t0 s t
      → P s t
  IsReachable-keeps c t0 h s t fresh = h
  IsReachable-keeps c t0 h s t (step o r) = perform-keeps o _ _ (IsReachable-keeps c t0 h _ _ r)

-- Every pool that operations lead to is well formed (no page stands twice in its slice, and none of
-- the slice is in the closed state), if what the other goroutines do while an operation waits keeps
-- it so.
pub IsReachable-IsWellFormed :
    (d : Driver) (cfg : PoolConfig) (others : Pool → Trace → Pool)
    → ((s : Pool) (t : Trace) → IsWellFormed s → IsWellFormed (others s t))
    → (c : ℕ) (t0 : Trace) (s : Pool) (t : Trace) → IsReachable d cfg others c t0 s t
    → IsWellFormed s
IsReachable-IsWellFormed d cfg others rely c t0 =
    IsReachable-keeps d cfg others _ (IsWellFormed-Keeps d cfg) rely c t0
      (new_page_pool-IsWellFormed c)
