-- ===== src/Pool/Keeps.antt =====
-- pool.go and health.go: a property of the pool and the trace that the small steps keep is kept by every
-- operation. The invariants of the pool are instances.
pub mod Waiting
use browserpm.Common.{
  ℕ, zero, suc, ◌≡◌, refl, inl, inr, Bool, true, false, Option, none, some, Option-cases, List, [],
  ◌∷◌, arith,
}
use browserpm.Common.Int.{ℤ, pos_part}
use browserpm.Errors.{Wait, returned, hangs}
use browserpm.Config.{PoolConfig}
use browserpm.Driver.{Driver, Event, Trace, clock_read, ticked, slept, page_probed, page_checked}
use browserpm.Pool.Page.{Pool, closing, touch, release, set_state}
use browserpm.Pool.Create.{add_page, warm_up_loop, warm_up}
use browserpm.Pool.Select.{select_available, try_acquire}
use browserpm.Pool.Acquire.{grow, spin_round, spin, wait_for_page, acquire}
use browserpm.Pool.Remove.{remove_page_locked, replace_page, close_all, close, rebuild_all}
use browserpm.Scheduler.{reset}
use browserpm.Pool.Observe.{is_page_healthy}
use browserpm.Pool.Health.{
  start, sleep_while, drain, after_drain, wait_and_replace, check_one, check_loop, run_health_check,
  reap, reap_one, reap_loop, run_reap,
}

-- The calls outside that only ask or wait.
abbrev pub is_quiet : Event → Bool
is_quiet clock_read = true
is_quiet ticked = true
is_quiet slept = true
is_quiet (page_probed p) = true
is_quiet (page_checked p) = true
is_quiet _ = false

-- What the small steps keep.
pub record Keeps (d : Driver) (cfg : PoolConfig) (P : Pool → Trace → Type 0) : Type 0 where
  pub asks : (e : Event) (s : Pool) (t : Trace) → is_quiet e ≡ true → P s t → P s (e ∷ t)
  pub counts : (c : ℕ) (s : Pool) (t : Trace) → P s t → P (record s { counter = c }) t
  pub runs_loops :
      (a b : Bool) (s : Pool) (t : Trace)
      → P s t
      → P (record s { checker_runs = a; reaper_runs = b }) t
  pub touches : (p now : ℕ) (s : Pool) (t : Trace) → P s t → P (touch p now s) t
  pub frees : (p : ℕ) (s : Pool) (t : Trace) → P s t → P (release p s) t
  pub retires : (p : ℕ) (s : Pool) (t : Trace) → P s t → P (set_state p closing s) t
  pub adds : (s : Pool) (t : Trace) → P s t → P (add_page d cfg s t).1 (add_page d cfg s t).2
  pub grows : (s : Pool) (t : Trace) → P s t → P (grow d cfg s t).1 (grow d cfg s t).2
  pub removes :
      (p : ℕ) (s : Pool) (t : Trace)
      → P s t
      → P (remove_page_locked p s t).0 (remove_page_locked p s t).1
  pub replaces :
      (p : ℕ) (s : Pool) (t : Trace)
      → P s t
      → P (replace_page d cfg p s t).0 (replace_page d cfg p s t).1
  pub closes : (s : Pool) (t : Trace) → P s t → P (close d cfg s t).0 (close d cfg s t).1
  pub clears :
      (s : Pool) (t : Trace)
      → P s t
      → let (s', t') = close_all d cfg s.pages (record s { pages = [] }) t in
        P (record s' { counter = reset s'.counter }) t'

module _ (d : Driver) (cfg : PoolConfig) (P : Pool → Trace → Type 0) (k : Keeps d cfg P) where
  warm_up_loop-keeps :
      (n : ℕ) (s : Pool) (t : Trace)
      → P s t
      → P (warm_up_loop d cfg n s t).1 (warm_up_loop d cfg n s t).2
  unfolding warm_up_loop
  warm_up_loop-keeps zero s t h = h
  warm_up_loop-keeps (suc n) s t h =
      let h' = k.adds s t h in
      let ih = warm_up_loop-keeps n _ (add_page d cfg s t).2 h' in
      elim (Option-cases (add_page d cfg s t).0) [
        | inl e ↦ rw (e, warm_up_loop) ih
        | inr (x, e) ↦ rw (e, warm_up_loop) h'
      ]

  pub rebuild_all-keeps :
      (s : Pool) (t : Trace) → P s t → P (rebuild_all d cfg s t).1 (rebuild_all d cfg s t).2
  unfolding rebuild_all warm_up
  rebuild_all-keeps s t h = warm_up_loop-keeps (pos_part cfg.min_pages) _ _ (k.clears s t h)

  pub start-keeps : (s : Pool) (t : Trace) → P s t → P (start d cfg s t).1 (start d cfg s t).2
  unfolding start warm_up
  start-keeps s t h =
      let h' = warm_up_loop-keeps (pos_part cfg.min_pages) s t h in
      elim (Option-cases (warm_up d cfg cfg.min_pages s t).0) [
        | inl e ↦ rw (e, start) (k.runs_loops _ _ _ _ h')
        | inr (x, e) ↦ rw (e, start) h'
      ]

  pub try_acquire-keeps :
      (s : Pool) (t : Trace) → P s t → P (try_acquire cfg d s t).1 (try_acquire cfg d s t).2
  unfolding try_acquire
  try_acquire-keeps s t h =
      let (found, c) = select_available cfg (d.now t) s in
      let s' : Pool = record s { counter = c } in
      let h' : P s' (clock_read ∷ t) = k.asks clock_read s' t refl (k.counts c s t h) in
      elim (Option-cases found) [
        | inl e ↦ rw (e, try_acquire) h'
        | inr (p, e) ↦ rw (e, try_acquire) (k.touches p (d.now t) s' (clock_read ∷ t) h')
      ]

  pub spin_round-keeps :
      (deadline : ℕ) (s : Pool) (t : Trace)
      → P s t
      → P (spin_round d cfg deadline s t).1 (spin_round d cfg deadline s t).2
  unfolding spin_round
  spin_round-keeps deadline s t h =
      let h' = k.asks clock_read s t refl h in
      ground (arith, h', try_acquire-keeps s (clock_read ∷ t) h')

  reap-keeps : (p : ℕ) (s : Pool) (t : Trace) → P s t → P (reap d cfg p s t).0 (reap d cfg p s t).1
  unfolding reap
  reap-keeps p s t h =
      let h1 = k.removes p s t h in
      let (s1, t1) = remove_page_locked p s t in ground (arith, h1, k.adds s1 t1 h1)

  pub reap_one-keeps :
      (now p : ℕ) (s : Pool) (t : Trace)
      → P s t
      → P (reap_one d cfg now p s t).0 (reap_one d cfg now p s t).1
  unfolding reap_one
  reap_one-keeps now p s t h = ground (arith, h, k.retires p s t h, reap-keeps p s t h)

  reap_loop-keeps :
      (now : ℕ) (ps : List ℕ) (s : Pool) (t : Trace)
      → P s t
      → P (reap_loop d cfg now ps s t).0 (reap_loop d cfg now ps s t).1
  unfolding reap_loop
  reap_loop-keeps now [] s t h = h
  reap_loop-keeps now (p ∷ ps) s t h = reap_loop-keeps now ps _ _ (reap_one-keeps now p s t h)

  pub run_reap-keeps :
      (s : Pool) (t : Trace) → P s t → P (run_reap d cfg s t).0 (run_reap d cfg s t).1
  unfolding run_reap
  run_reap-keeps s t h =
      reap_loop-keeps (d.now t) s.pages s (clock_read ∷ t) (k.asks clock_read s t refl h)

  pub is_page_healthy-keeps :
      (p : ℕ) (s : Pool) (t : Trace) → P s t → P s (is_page_healthy d cfg p s t).1
  unfolding is_page_healthy
  is_page_healthy-keeps p s t h =
      let page = (s.store p).page in
      let h1 = k.asks (page_probed page) s t refl h in
      let h2 = k.asks (page_checked page) s (page_probed page ∷ t) refl h1 in ground (arith, h1, h2)
