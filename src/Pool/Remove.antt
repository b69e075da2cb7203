-- ===== src/Pool/Remove.antt =====
-- pool.go: taking pages off the pool, replacing them, rebuilding and closing the pool.
use browserpm.Common.{ℕ, true, false, Option, List, [], ◌∷◌, ◌==◌, if◌then◌else◌}
use browserpm.Errors.{Error, ok, err}
use browserpm.Config.{PoolConfig}
use browserpm.Driver.{Driver, Trace, page_closed, close_spawned}
use browserpm.Scheduler.{reset}
use browserpm.Pool.Page.{Pool, closed, set_state, append_page}
use browserpm.Pool.Create.{create_and_init_page, warm_up}

-- The loop of removePageLocked: the slice without its first occurrence of the target.
unfoldable pub remove_first : ℕ → List ℕ → List ℕ
remove_first target [] = []
remove_first target (p ∷ ps) =
    let rest = remove_first target ps in if p == target then ps else p ∷ rest

-- removePageLocked: the page is closed by a goroutine.
unfoldable pub remove_page_locked : ℕ → Pool → Trace → Pool × Trace
unfolding set_state remove_first
remove_page_locked target s t =
    let s' : Pool = record s { pages = remove_first target s.pages } in
    (set_state target closed s', close_spawned (s.store target).page ∷ t)

module _ (d : Driver) (cfg : PoolConfig) where
  -- replacePage.
  unfoldable pub replace_page : ℕ → Pool → Trace → Pool × Trace
  unfolding append_page
  replace_page target s t =
      let (s1, t1) = remove_page_locked target s t in
      let (r, s2, t2) = create_and_init_page d cfg s1 t1 in
      elim r [ ok p ↦ (append_page p s2, t2) | err e ↦ (s2, t2) ]

  -- The loop of Close and of RebuildAll over the old pages.
  unfoldable pub close_all : List ℕ → Pool → Trace → Pool × Trace
  unfolding set_state
  close_all [] s t = (s, t)
  close_all (p ∷ ps) s t = close_all ps (set_state p closed s) (page_closed (s.store p).page ∷ t)

  -- Close: the background loops end, then every page is closed.
  unfoldable pub close : Pool → Trace → Pool × Trace
  close s t =
      let stopped : Pool = record s {
        is_cancelled = true;
        checker_runs = false;
        reaper_runs = false;
      } in
      let (s', t') = close_all stopped.pages stopped t in (record s' { pages = [] }, t')

  -- RebuildAll.
  unfoldable pub rebuild_all : Pool → Trace → Option Error × Pool × Trace
  unfolding reset
  rebuild_all s t =
      let (s', t') = close_all s.pages (record s { pages = [] }) t in
      warm_up d cfg cfg.min_pages (record s' { counter = reset s'.counter }) t'

-- The goroutine that DoShare starts for a dead page: it stays pending until it runs.
unfoldable pub spawn_replace : ℕ → Pool → Pool
spawn_replace p s = record s { replacing = p ∷ s.replacing }
