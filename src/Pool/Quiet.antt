-- ===== src/Pool/Quiet.antt =====
-- pool.go: the pool's own operations never run the caller's operation.
use browserpm.Common.{ℕ, zero, suc, ◌≡◌, refl, inl, inr, Option, none, some, List, [], ◌∷◌, arith}
use browserpm.Common.Int.{pos, pos_part, ◌+ℤ◌}
use browserpm.Errors.{Outcome-cases}
use browserpm.Config.{PoolConfig}
use browserpm.Driver.{Driver, Trace, runs, page_opened, clock_read, ticked, page_closed}
use browserpm.Pool.Page.{Pool, closed, set_state}
use browserpm.Pool.Create.{init_pool_page, create_and_init_page, add_page, warm_up_loop, warm_up}
use browserpm.Pool.Select.{try_acquire}
use browserpm.Pool.Acquire.{grow, spin_round, spin, wait_for_page, acquire}
use browserpm.Pool.Remove.{close_all, close}
use browserpm.Pool.Health.{start}

module _ (d : Driver) (cfg : PoolConfig) where
  init_pool_page-runs :
      (raw : ℕ) (s : Pool) (t : Trace) → runs (init_pool_page d cfg raw s t).2 ≡ runs t
  unfolding init_pool_page
  init_pool_page-runs raw s t = ground arith

  create_and_init_page-runs :
      (s : Pool) (t : Trace) → runs (create_and_init_page d cfg s t).2 ≡ runs t
  unfolding create_and_init_page
  create_and_init_page-runs s t = elim (Outcome-cases (d.new_page s.context t)) [
    | inl (x, e) ↦ rw (e, create_and_init_page) refl
    | inr (raw, e) ↦
        rw (e, create_and_init_page) (init_pool_page-runs raw s (page_opened s.context raw ∷ t))
  ]

  add_page-runs : (s : Pool) (t : Trace) → runs (add_page d cfg s t).2 ≡ runs t
  unfolding add_page
  add_page-runs s t = ground (arith, create_and_init_page-runs s t)

  warm_up_loop-runs : (n : ℕ) (s : Pool) (t : Trace) → runs (warm_up_loop d cfg n s t).2 ≡ runs t
  unfolding warm_up_loop
  warm_up_loop-runs zero s t = refl
  warm_up_loop-runs (suc n) s t =
      let (r, s', t') = add_page d cfg s t in
      ground (arith, add_page-runs s t, warm_up_loop-runs n s' t')

  pub start-runs : (s : Pool) (t : Trace) → runs (start d cfg s t).2 ≡ runs t
  unfolding start warm_up
  start-runs s t = ground (arith, warm_up_loop-runs (pos_part cfg.min_pages) s t)

  close_all-runs : (ps : List ℕ) (s : Pool) (t : Trace) → runs (close_all d cfg ps s t).1 ≡ runs t
  unfolding close_all
  close_all-runs [] s t = refl
  close_all-runs (p ∷ ps) s t =
      close_all-runs ps (set_state p closed s) (page_closed (s.store p).page ∷ t)

  pub close-runs : (s : Pool) (t : Trace) → runs (close d cfg s t).1 ≡ runs t
  unfolding close
  close-runs s t = close_all-runs s.pages _ t

  try_acquire-runs : (s : Pool) (t : Trace) → runs (try_acquire cfg d s t).2 ≡ runs t
  unfolding try_acquire
  try_acquire-runs s t = ground arith

  grow-runs : (s : Pool) (t : Trace) → runs (grow d cfg s t).2 ≡ runs t
  unfolding grow
  grow-runs s t = ground (arith, create_and_init_page-runs s t)

  spin_round-runs :
      (deadline : ℕ) (s : Pool) (t : Trace) → runs (spin_round d cfg deadline s t).2 ≡ runs t
  unfolding spin_round
  spin_round-runs deadline s t = ground (arith, try_acquire-runs s (clock_read ∷ t))

module _ (d : Driver) (cfg : PoolConfig) (others : Pool → Trace → Pool) where
  spin-runs :
      (fuel deadline : ℕ) (s : Pool) (t : Trace)
      → runs (spin d cfg others fuel deadline s t).2 ≡ runs t
  unfolding spin
  spin-runs zero deadline s t = refl
  spin-runs (suc fuel) deadline s t =
      let t_tick : Trace = ticked ∷ t in
      let (r, s', t') = spin_round d cfg deadline (others s t_tick) t_tick in
      ground (
        arith,
        spin_round-runs d cfg deadline (others s t_tick) t_tick,
        spin-runs fuel deadline s' t',
      )

  wait_for_page-runs :
      (deadline : Option ℕ) (s : Pool) (t : Trace)
      → runs (wait_for_page d cfg others deadline s t).2 ≡ runs t
  unfolding wait_for_page
  wait_for_page-runs (some deadline) s t = spin-runs _ deadline s t
  wait_for_page-runs none s t =
      spin-runs _ (pos_part (pos (d.now t) +ℤ cfg.operation_timeout)) s (clock_read ∷ t)

  pub acquire-runs :
      (deadline : Option ℕ) (s : Pool) (t : Trace)
      → runs (acquire d cfg others deadline s t).2 ≡ runs t
  unfolding acquire
  acquire-runs deadline s t =
      let (r, s', t') = try_acquire cfg d s t in
      ground (
        arith,
        try_acquire-runs d cfg s t,
        grow-runs d cfg s' t',
        wait_for_page-runs deadline s' t',
      )
