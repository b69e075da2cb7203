-- ===== src/Pool/Loops/Ends.antt =====
-- health.go: the background goroutines end once the pool's context is cancelled.
use browserpm.Common.{
  ℕ, zero, suc, ◌-◌, ◌≤◌, ◌<◌, ◌≡◌, refl, inl, inr, Bool, true, Bool-cases, List, [], ◌∷◌, arith,
}
use browserpm.Errors.{Wait, returned, Outcome-cases}
use browserpm.Config.{PoolConfig}
use browserpm.Driver.{
  Driver, Trace, IsClock, ticked, clock_read, id_drawn, page_opened, page_refused, page_initialised,
  page_closed, close_spawned,
}
use browserpm.Pool.Page.{Pool}
use browserpm.Pool.Create.{init_pool_page, create_and_init_page, add_page}
use browserpm.Pool.Acquire.{grow}
use browserpm.Pool.Remove.{remove_page_locked, replace_page, close_all, close}
use browserpm.Pool.Health.{run_health_check, run_reap}
use browserpm.Pool.Keeps.{Keeps, run_reap-keeps}
use browserpm.Pool.Keeps.Waiting.{run_health_check-keeps}
use browserpm.Pool.Waiting.{run_health_check_returns}
use browserpm.Pool.Loops.{background, health_checker, reap_body, reaper}

module _ (d : Driver) (cfg : PoolConfig) (clock : IsClock d.now) where
  create_and_init_page-now :
      (s : Pool) (t : Trace) → d.now t ≤ d.now (create_and_init_page d cfg s t).2
  unfolding create_and_init_page init_pool_page
  create_and_init_page-now s t = elim (Outcome-cases (d.new_page s.context t)) [
    | inl (x, e) ↦ rw (e, create_and_init_page) (clock.forward (page_refused s.context) t)
    | inr (raw, e) ↦
        let t1 : Trace = page_opened s.context raw ∷ t in
        let t2 : Trace = id_drawn ∷ t1 in
        let t3 : Trace = clock_read ∷ t2 in
        let t4 : Trace = page_initialised raw ∷ t3 in
        rw (e, create_and_init_page)
          (ground (
            arith,
            clock.forward (page_opened s.context raw) t,
            clock.forward id_drawn t1,
            clock.forward clock_read t2,
            clock.forward (page_initialised raw) t3,
            clock.forward (page_closed raw) t4,
          ))
  ]

  close_all-now : (ps : List ℕ) (s : Pool) (t : Trace) → d.now t ≤ d.now (close_all d cfg ps s t).1
  unfolding close_all
  close_all-now [] s t = omega arith
  close_all-now (p ∷ ps) s t = omega (
    arith,
    clock.forward (page_closed (s.store p).page) t,
    close_all-now ps _ (page_closed (s.store p).page ∷ t),
  )

  -- No operation of the pool goes back in time.
  pub IsPast-Keeps : (m : ℕ) → Keeps d cfg (λ s t. m ≤ d.now t)
  unfolding add_page grow remove_page_locked replace_page close
  IsPast-Keeps m = record {
    asks = λ e s t q h. omega (arith, h, clock.forward e t);
    counts = λ c s t h. h;
    runs_loops = λ a b s t h. h;
    touches = λ p now s t h. h;
    frees = λ p s t h. h;
    retires = λ p s t h. h;
    adds = λ s t h. ground (arith, h, create_and_init_page-now s t);
    grows = λ s t h. ground (
      arith,
      h,
      create_and_init_page-now s t,
      clock.forward clock_read (create_and_init_page d cfg s t).2,
    );
    removes = λ p s t h. omega (arith, h, clock.forward (close_spawned (s.store p).page) t);
    replaces = λ p s t h.
        let (s1, t1) = remove_page_locked p s t in
        ground (
          arith,
          h,
          clock.forward (close_spawned (s.store p).page) t,
          create_and_init_page-now s1 t1,
        );
    closes = λ s t h. omega (arith, h, close_all-now s.pages _ t);
    clears = λ s t h. omega (arith, h, close_all-now s.pages _ t);
  }

-- A loop whose body ends and takes no time back comes to its end after the time `until`, from which on the
-- select takes the end of the context.
module _ (d : Driver) (clock : IsClock d.now) (others : Pool → Trace → Pool)
    (stops : Pool → Trace → Bool) (until : ℕ)
    (cancelled : (s : Pool) (t : Trace) → until ≤ d.now t → stops s t ≡ true) where
  background_returns :
      (body : Pool → Trace → Wait (Unit {0}) × Pool × Trace)
      → ((s : Pool) (t : Trace) → (body s t).0 ≡ returned tt)
      → ((s : Pool) (t : Trace) → d.now t ≤ d.now (body s t).2)
      → (fuel : ℕ) (s : Pool) (t : Trace) → until - d.now t < fuel
      → (background others stops body fuel s t).0 ≡ returned tt
  unfolding background
  background_returns body ends forward zero s t h = elim h [ ]
  background_returns body ends forward (suc fuel) s t h =
      let t_select : Trace = ticked ∷ t in
      let s1 = others s t_select in
      let (w, s2, t2) = body s1 t_select in
      elim (Bool-cases (stops s1 t_select)) [
        | inl e ↦ rw (e, background) refl
        | inr e ↦
            let early : d.now t_select < until = ground (arith, e, cancelled s1 t_select) in
            rw (e, background, ends s1 t_select)
              (background_returns body ends forward fuel s2 t2
                (omega (arith, h, early, clock.tick_passes t, forward s1 t_select)))
      ]

  module _ (cfg : PoolConfig) where
    run_reap-now : (s : Pool) (t : Trace) → d.now t ≤ d.now (run_reap d cfg s t).1
    run_reap-now s t = run_reap-keeps d cfg _ (IsPast-Keeps d cfg clock (d.now t)) s t (omega arith)

    run_health_check-now :
        (s : Pool) (t : Trace) → d.now t ≤ d.now (run_health_check d cfg others s t).2
    run_health_check-now s t =
        run_health_check-keeps d cfg others _ (IsPast-Keeps d cfg clock (d.now t)) (λ s' t' h. h) s
          t (omega arith)

    -- The goroutines of the health checker and of the reaper end, so that Close does not wait for ever for
    -- them, if from some time on their select takes the end of the context: after a round for each
    -- nanosecond until then, at the latest, however busy the pages stay meanwhile.
    pub background_ends :
        (s : Pool) (t : Trace)
        → let fuel = suc (until - d.now t) in
          ((health_checker d cfg others stops fuel s t).0 ≡ returned tt)
          × ((reaper d cfg others stops fuel s t).0 ≡ returned tt)
    unfolding health_checker reaper
    background_ends s t = (
      ground (
        arith,
        background_returns (run_health_check d cfg others)
            (run_health_check_returns d cfg others clock) run_health_check-now
            (suc (until - d.now t)) s t (omega arith),
      ),
      ground (
        arith,
        background_returns (reap_body d cfg others stops) (λ s' t'. refl) run_reap-now
            (suc (until - d.now t)) s t (omega arith),
      ),
    )
