-- ===== src/Pool/Keeps/Waiting.antt =====
-- pool.go and health.go: the operations that wait keep what the small steps keep.
use browserpm.Common.{ℕ, zero, suc, refl, Bool, Option, none, some, List, [], ◌∷◌, arith}
use browserpm.Common.Int.{ℤ}
use browserpm.Errors.{Wait, returned, hangs}
use browserpm.Config.{PoolConfig}
use browserpm.Driver.{Driver, Trace, clock_read, ticked, slept}
use browserpm.Pool.Page.{Pool}
use browserpm.Pool.Select.{try_acquire}
use browserpm.Pool.Acquire.{spin_round, spin, wait_for_page, acquire}
use browserpm.Pool.Observe.{is_page_healthy}
use browserpm.Pool.Health.{
  sleep_while, drain, after_drain, wait_and_replace, check_one, check_loop, run_health_check,
}
use browserpm.Pool.Keeps.{Keeps, try_acquire-keeps, spin_round-keeps, is_page_healthy-keeps}

-- The operations that wait, if what the other goroutines do meanwhile keeps the property.
module _ (d : Driver) (cfg : PoolConfig) (others : Pool → Trace → Pool) (P : Pool → Trace → Type 0)
    (k : Keeps d cfg P) (rely : (s : Pool) (t : Trace) → P s t → P (others s t) t) where
  spin-keeps :
      (fuel deadline : ℕ) (s : Pool) (t : Trace)
      → P s t
      → P (spin d cfg others fuel deadline s t).1 (spin d cfg others fuel deadline s t).2
  unfolding spin
  spin-keeps zero deadline s t h = h
  spin-keeps (suc fuel) deadline s t h =
      let t_tick : Trace = ticked ∷ t in
      let h_tick = rely s t_tick (k.asks ticked s t refl h) in
      let h' = spin_round-keeps d cfg P k deadline (others s t_tick) t_tick h_tick in
      let ih =
        spin-keeps fuel deadline _ (spin_round d cfg deadline (others s t_tick) t_tick).2 h' in
      ground (arith, h_tick, h', ih)

  wait_for_page-keeps :
      (deadline : Option ℕ) (s : Pool) (t : Trace)
      → P s t
      → P (wait_for_page d cfg others deadline s t).1 (wait_for_page d cfg others deadline s t).2
  unfolding wait_for_page
  wait_for_page-keeps (some deadline) s t h = spin-keeps _ deadline s t h
  wait_for_page-keeps none s t h = spin-keeps _ _ s (clock_read ∷ t) (k.asks clock_read s t refl h)

  pub acquire-keeps :
      (deadline : Option ℕ) (s : Pool) (t : Trace)
      → P s t
      → P (acquire d cfg others deadline s t).1 (acquire d cfg others deadline s t).2
  unfolding acquire
  acquire-keeps deadline s t h =
      let (r, s', t') = try_acquire cfg d s t in
      let h' = try_acquire-keeps d cfg P k s t h in
      ground (arith, h', k.grows s' t' h', wait_for_page-keeps deadline s' t' h')

  sleep_while-keeps :
      (busy : Pool → Bool) (fuel deadline : ℕ) (s : Pool) (t : Trace)
      → P s t
      → P
          (sleep_while d cfg others busy fuel deadline s t).1
          (sleep_while d cfg others busy fuel deadline s t).2
  unfolding sleep_while
  sleep_while-keeps busy zero deadline s t h = h
  sleep_while-keeps busy (suc fuel) deadline s t h =
      let t' : Trace = slept ∷ clock_read ∷ t in
      let h_now = k.asks clock_read s t refl h in
      let h' = rely s t' (k.asks slept s (clock_read ∷ t) refl h_now) in
      ground (arith, h_now, sleep_while-keeps busy fuel deadline (others s t') t' h')

  pub drain-keeps :
      (timeout : ℤ) (s : Pool) (t : Trace)
      → P s t
      → P (drain d cfg others timeout s t).1 (drain d cfg others timeout s t).2
  unfolding drain
  drain-keeps timeout s t h =
      sleep_while-keeps _ _ _ s (clock_read ∷ t) (k.asks clock_read s t refl h)

  after_drain-keeps :
      (p : ℕ) (r : Wait (Unit {0}) × Pool × Trace)
      → P r.1 r.2
      → P (after_drain d cfg others p r).1 (after_drain d cfg others p r).2
  unfolding after_drain
  after_drain-keeps p (hangs, s, t) h = h
  after_drain-keeps p (returned _, s, t) h = k.replaces p s t h

  wait_and_replace-keeps :
      (p : ℕ) (s : Pool) (t : Trace)
      → P s t
      → P (wait_and_replace d cfg others p s t).1 (wait_and_replace d cfg others p s t).2
  unfolding wait_and_replace
  wait_and_replace-keeps p s t h =
      after_drain-keeps p _ (
        sleep_while-keeps _ _ _ _ (clock_read ∷ t) (k.asks clock_read _ t refl (k.retires p s t h)))

  check_one-keeps :
      (p : ℕ) (s : Pool) (t : Trace)
      → P s t
      → P (check_one d cfg others p s t).1 (check_one d cfg others p s t).2
  unfolding check_one
  check_one-keeps p s t h =
      let h' = is_page_healthy-keeps d cfg P k p s t h in
      ground (arith, h, h', wait_and_replace-keeps p s (is_page_healthy d cfg p s t).1 h')

  check_loop-keeps :
      (ps : List ℕ) (s : Pool) (t : Trace)
      → P s t
      → P (check_loop d cfg others ps s t).1 (check_loop d cfg others ps s t).2
  unfolding check_loop
  check_loop-keeps [] s t h = h
  check_loop-keeps (p ∷ ps) s t h =
      let h' = check_one-keeps p s t h in
      let (r, s', t') = check_one d cfg others p s t in
      ground (arith, h', check_loop-keeps ps s' t' h')

  pub run_health_check-keeps :
      (s : Pool) (t : Trace)
      → P s t
      → P (run_health_check d cfg others s t).1 (run_health_check d cfg others s t).2
  unfolding run_health_check
  run_health_check-keeps s t h = check_loop-keeps s.pages s t h
