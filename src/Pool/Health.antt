-- ===== src/Pool/Health.antt =====
-- health.go and the waiting loops of pool.go: the health checker, the reaper, Start and Drain.
-- While a loop sleeps other goroutines use the pool: what they do to it is the parameter `others`.
use browserpm.Common.{
  ℕ, zero, suc, ◌-◌, Bool, true, false, not, ◌&&◌, Option, none, some, List, [], ◌∷◌, length, ltb,
  ◌==◌, if◌then◌else◌,
}
use browserpm.Common.Int.{ℤ, pos, ltb_ℤ, leb_ℤ, ◌+ℤ◌, ◌-ℤ◌, pos_part, wrap}
use browserpm.Errors.{Error, Wait, returned, hangs}
use browserpm.Config.{PoolConfig}
use browserpm.Driver.{Driver, Trace, clock_read, slept}
use browserpm.Pool.Page.{
  Pool, PoolPage, closing, is_idle, is_closing, is_closed_state, is_busy, since, set_state,
}
use browserpm.Pool.Create.{add_page, warm_up}
use browserpm.Pool.Remove.{remove_page_locked, replace_page}
use browserpm.Pool.Observe.{total_active_ops, is_page_healthy}

-- Start: the warm-up, then the loops that the configuration asks for.
unfoldable pub start : Driver → PoolConfig → Pool → Trace → Option Error × Pool × Trace
start d cfg s t =
    let (r, s', t') = warm_up d cfg cfg.min_pages s t in
    elim r [
      | some e ↦ (some e, s', t')
      | none ↦ (
        none,
        record s' {
          checker_runs = not (leb_ℤ cfg.health_check_interval (pos 0));
          reaper_runs = not (leb_ℤ cfg.ttl (pos 0));
        },
        t',
      )
    ]

module _ (d : Driver) (cfg : PoolConfig) (others : Pool → Trace → Pool) where
  -- A loop that sleeps while the clock is before the deadline and the test holds.
  unfoldable pub sleep_while : (Pool → Bool) → ℕ → ℕ → Pool → Trace → Wait (Unit {0}) × Pool × Trace
  sleep_while busy zero deadline s t = (hangs, s, t)
  sleep_while busy (suc fuel) deadline s t =
      let t_now : Trace = clock_read ∷ t in
      let t_slept : Trace = slept ∷ t_now in
      let rest = sleep_while busy fuel deadline (others s t_slept) t_slept in
      elim (ltb (d.now t) deadline && busy s) [ true ↦ rest | false ↦ (returned tt, s, t_now) ]

  -- Drain.
  unfoldable pub drain : ℤ → Pool → Trace → Wait (Unit {0}) × Pool × Trace
  drain timeout s t =
      let deadline = pos_part (pos (d.now t) +ℤ timeout) in
      sleep_while (λ p. not (total_active_ops p == 0)) (suc (deadline - d.now t)) deadline s
        (clock_read ∷ t)

  -- The end of waitAndReplace, after the loop.
  unfoldable pub after_drain : ℕ → Wait (Unit {0}) × Pool × Trace → Wait (Unit {0}) × Pool × Trace
  after_drain p (hangs, s, t) = (hangs, s, t)
  after_drain p (returned _, s, t) =
      let (s', t') = replace_page d cfg p s t in (returned tt, s', t')

  -- waitAndReplace.
  unfoldable pub wait_and_replace : ℕ → Pool → Trace → Wait (Unit {0}) × Pool × Trace
  wait_and_replace p s t =
      let deadline = pos_part (pos (d.now t) +ℤ cfg.grace_period) in
      after_drain p (
        sleep_while (λ q. is_busy (q.store p)) (suc (deadline - d.now t)) deadline
          (set_state p closing s) (clock_read ∷ t))

  -- One page of runHealthCheck.
  unfoldable pub check_one : ℕ → Pool → Trace → Wait (Unit {0}) × Pool × Trace
  check_one p s t =
      if not (is_idle (s.store p).state)
      then (returned tt, s, t)
      else (let (healthy, t') = is_page_healthy d cfg p s t in
          if healthy then (returned tt, s, t') else wait_and_replace p s t')

  -- The loop of runHealthCheck over the snapshot.
  unfoldable pub check_loop : List ℕ → Pool → Trace → Wait (Unit {0}) × Pool × Trace
  check_loop [] s t = (returned tt, s, t)
  check_loop (p ∷ ps) s t =
      let (w, s', t') = check_one p s t in
      let rest = check_loop ps s' t' in elim w [ hangs ↦ (hangs, s', t') | returned _ ↦ rest ]

  unfoldable pub run_health_check : Pool → Trace → Wait (Unit {0}) × Pool × Trace
  run_health_check s t = check_loop s.pages s t

-- The tests of runReap on a page's age: `age > TTL-GracePeriod` and `age > TTL`.
unfoldable pub is_expiring : PoolConfig → ℕ → PoolPage → Bool
is_expiring cfg now pp = ltb_ℤ (wrap (cfg.ttl -ℤ cfg.grace_period)) (since now pp.created_at)

unfoldable pub is_expired : PoolConfig → ℕ → PoolPage → Bool
is_expired cfg now pp = ltb_ℤ cfg.ttl (since now pp.created_at)

-- The test that puts off the removal of an expired page: it has active operations and the clock is
-- before its creation plus TTL plus grace period.
unfoldable pub is_spared : PoolConfig → ℕ → PoolPage → Bool
is_spared cfg now pp =
    is_busy pp && ltb_ℤ (pos now) (pos pp.created_at +ℤ wrap (cfg.ttl +ℤ cfg.grace_period))

module _ (d : Driver) (cfg : PoolConfig) where
  -- The removal of an expired page, and its replacement if the pool is now below its minimum.
  unfoldable pub reap : ℕ → Pool → Trace → Pool × Trace
  reap p s t =
      let (s1, t1) = remove_page_locked p s t in
      if ltb_ℤ (pos (length s1.pages)) cfg.min_pages
      then (let (r, s2, t2) = add_page d cfg s1 t1 in (s2, t2))
      else (s1, t1)

  -- One page of runReap: the cases of its switch, in order.
  unfoldable pub reap_one : ℕ → ℕ → Pool → Trace → Pool × Trace
  reap_one now p s t =
      let pp = s.store p in
      if is_closed_state pp.state
      then (s, t)
      else if is_idle pp.state && is_expiring cfg now pp
      then (set_state p closing s, t)
      else if is_closing pp.state && is_expired cfg now pp
      then (if is_spared cfg now pp then (s, t) else reap p s t)
      else (s, t)

  -- The loop of runReap over the snapshot.
  unfoldable pub reap_loop : ℕ → List ℕ → Pool → Trace → Pool × Trace
  reap_loop now [] s t = (s, t)
  reap_loop now (p ∷ ps) s t = let (s', t') = reap_one now p s t in reap_loop now ps s' t'

  unfoldable pub run_reap : Pool → Trace → Pool × Trace
  run_reap s t = reap_loop (d.now t) s.pages s (clock_read ∷ t)
