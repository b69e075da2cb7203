-- ===== src/Pool/Waiting.antt =====
-- pool.go and health.go: the loops that sleep come to an end, and so do Drain and the health check.
use browserpm.Common.{
  ℕ, zero, suc, ◌-◌, ◌≤◌, ◌<◌, ◌≡◌, refl, ◌⊎◌, Bool, false, not, List, [], ◌∷◌, arith, ◌==◌,
}
use browserpm.Common.Int.{ℤ, pos, pos_part, ◌+ℤ◌}
use browserpm.Errors.{Wait, returned, hangs}
use browserpm.Config.{PoolConfig}
use browserpm.Driver.{Driver, Trace, IsClock, clock_read, slept}
use browserpm.Pool.Page.{Pool, closing, is_busy, set_state}
use browserpm.Pool.Observe.{total_active_ops, is_page_healthy}
use browserpm.Pool.Health.{
  sleep_while, drain, after_drain, wait_and_replace, check_one, check_loop, run_health_check,
}

module _ (d : Driver) (cfg : PoolConfig) (others : Pool → Trace → Pool)
    (clock : IsClock d.now) where
  -- With more rounds than there are nanoseconds to the deadline the loop ends, by its test or because
  -- the deadline has passed.
  sleep_while_returns :
      (busy : Pool → Bool) (fuel deadline : ℕ) (s : Pool) (t : Trace)
      → deadline - d.now t < fuel
      → let (w, s', t') = sleep_while d cfg others busy fuel deadline s t in
        (w ≡ returned tt) × ((busy s' ≡ false) ⊎ (deadline ≤ d.now t'))
  unfolding sleep_while
  sleep_while_returns busy zero deadline s t h = elim h [ ]
  sleep_while_returns busy (suc fuel) deadline s t h =
      let t_now : Trace = clock_read ∷ t in
      let t_slept : Trace = slept ∷ t_now in
      ground (
        arith,
        clock.forward clock_read t,
        clock.sleep_passes t_now,
        sleep_while_returns busy fuel deadline (others s t_slept) t_slept,
      )

  -- Drain always returns, and when it does either no operation is active or the timeout has passed.
  pub drain_returns :
      (timeout : ℤ) (s : Pool) (t : Trace)
      → let (w, s', t') = drain d cfg others timeout s t in
        (w ≡ returned tt)
        × ((total_active_ops s' ≡ 0) ⊎ (pos_part (pos (d.now t) +ℤ timeout) ≤ d.now t'))
  unfolding drain
  drain_returns timeout s t =
      let deadline : ℕ = pos_part (pos (d.now t) +ℤ timeout) in
      let (w, reason) =
        sleep_while_returns (λ p. not (total_active_ops p == 0)) (suc (deadline - d.now t)) deadline
          s (clock_read ∷ t) (omega (arith, clock.forward clock_read t)) in
      (w, ground (arith, reason))

  after_drain-returned :
      (p : ℕ) (r : Wait (Unit {0}) × Pool × Trace)
      → r.0 ≡ returned tt
      → (after_drain d cfg others p r).0 ≡ returned tt
  unfolding after_drain
  after_drain-returned p (hangs, s, t) h = h
  after_drain-returned p (returned _, s, t) h = refl

  wait_and_replace_returns :
      (p : ℕ) (s : Pool) (t : Trace) → (wait_and_replace d cfg others p s t).0 ≡ returned tt
  unfolding wait_and_replace
  wait_and_replace_returns p s t =
      let deadline : ℕ = pos_part (pos (d.now t) +ℤ cfg.grace_period) in
      after_drain-returned p _
        (sleep_while_returns (λ q. is_busy (q.store p)) (suc (deadline - d.now t)) deadline
          (set_state p closing s) (clock_read ∷ t) (omega (arith, clock.forward clock_read t))).0

  check_loop_returns :
      (ps : List ℕ) (s : Pool) (t : Trace) → (check_loop d cfg others ps s t).0 ≡ returned tt
  unfolding check_loop check_one
  check_loop_returns [] s t = refl
  check_loop_returns (p ∷ ps) s t =
      let (r, s', t') = check_one d cfg others p s t in
      ground (
        arith,
        wait_and_replace_returns p s (is_page_healthy d cfg p s t).1,
        check_loop_returns ps s' t',
      )

  -- A health check always comes to an end, however long the pages stay busy.
  pub run_health_check_returns :
      (s : Pool) (t : Trace) → (run_health_check d cfg others s t).0 ≡ returned tt
  unfolding run_health_check
  run_health_check_returns s t = check_loop_returns s.pages s t
