-- ===== src/Pool/Loops.antt =====
-- health.go: the two goroutines that Start launches. Each waits for its ticker or for the end of the
-- pool's context, and after a tick checks or reaps. Which case its select takes is the parameter `stops`.
pub mod Ends
use browserpm.Common.{ℕ, zero, suc, Bool, true, false, List, [], ◌∷◌, if◌then◌else◌}
use browserpm.Common.Int.{pos, leb_ℤ}
use browserpm.Errors.{Wait, returned, hangs}
use browserpm.Config.{PoolConfig}
use browserpm.Driver.{Driver, Trace, ticked}
use browserpm.Pool.Page.{Pool}
use browserpm.Pool.Health.{run_health_check, run_reap}

-- The loop of both, with what a tick sets off. While it waits other goroutines use the pool.
module _ (others : Pool → Trace → Pool) (stops : Pool → Trace → Bool)
    (body : Pool → Trace → Wait (Unit {0}) × Pool × Trace) where
  unfoldable pub background : ℕ → Pool → Trace → Wait (Unit {0}) × Pool × Trace
  background zero s t = (hangs, s, t)
  background (suc fuel) s t =
      let t_select : Trace = ticked ∷ t in
      let s1 = others s t_select in
      let (w, s2, t2) = body s1 t_select in
      let rest = background fuel s2 t2 in
      if stops s1 t_select
      then (returned tt, s1, t_select)
      else (elim w [ hangs ↦ (hangs, s2, t2) | returned _ ↦ rest ])

module _ (d : Driver) (cfg : PoolConfig) (others : Pool → Trace → Pool)
    (stops : Pool → Trace → Bool) where
  -- startHealthChecker: no loop without a positive interval.
  unfoldable pub health_checker : ℕ → Pool → Trace → Wait (Unit {0}) × Pool × Trace
  health_checker fuel s t =
      let run = background others stops (run_health_check d cfg others) fuel s t in
      if leb_ℤ cfg.health_check_interval (pos 0) then (returned tt, s, t) else run

  abbrev pub reap_body : Pool → Trace → Wait (Unit {0}) × Pool × Trace
  reap_body s t = let (s', t') = run_reap d cfg s t in (returned tt, s', t')

  -- startReaper: no loop without a positive TTL.
  unfoldable pub reaper : ℕ → Pool → Trace → Wait (Unit {0}) × Pool × Trace
  reaper fuel s t =
      let run = background others stops reap_body fuel s t in
      if leb_ℤ cfg.ttl (pos 0) then (returned tt, s, t) else run
