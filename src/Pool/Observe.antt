-- ===== src/Pool/Observe.antt =====
-- pool.go: what the pool reports of itself, and the two health tests.
use browserpm.Common.{ℕ, suc, ◌+◌, Bool, true, false, List, [], ◌∷◌, length, ◌==◌, if◌then◌else◌}
use browserpm.Common.Int.{pos, word}
use browserpm.Config.{PoolConfig}
use browserpm.Driver.{Driver, Trace, CallContext, page_probed, page_checked}
use browserpm.Pool.Page.{Pool, is_idle, is_closing}

unfoldable pub size : Pool → ℕ
size s = length s.pages

-- The loop of ActiveOps, an int64 sum.
unfoldable pub sum_active_ops : Pool → List ℕ → ℕ → ℕ
sum_active_ops s [] total = total
sum_active_ops s (p ∷ ps) total = sum_active_ops s ps (word (total + (s.store p).active_ops))

unfoldable pub total_active_ops : Pool → ℕ
total_active_ops s = sum_active_ops s s.pages 0

pub record PoolStats : Type 0 where
  pub total_pages : ℕ
  pub idle_pages : ℕ
  pub closing_pages : ℕ
  pub active_ops : ℕ
  pub total_use : ℕ

-- The loop of Stats over the three counters.
unfoldable pub stats_loop : Pool → List ℕ → ℕ → ℕ → ℕ → ℕ × ℕ × ℕ
stats_loop s [] idles closings uses = (idles, closings, uses)
stats_loop s (p ∷ ps) idles closings uses =
    let pp = s.store p in
    stats_loop s ps (if is_idle pp.state then suc idles else idles)
      (if is_closing pp.state then suc closings else closings) (word (uses + pp.use_count))

-- Stats.
unfoldable pub stats : Pool → PoolStats
stats s =
    let (idles, closings, uses) = stats_loop s s.pages 0 0 0 in
    record {
      total_pages = length s.pages;
      idle_pages = idles;
      closing_pages = closings;
      active_ops = total_active_ops s;
      total_use = uses;
    }

module _ (d : Driver) (cfg : PoolConfig) where
  -- The loop of IsHealthy; only an idle page is probed.
  unfoldable pub any_alive : Pool → List ℕ → Trace → Bool × Trace
  any_alive s [] t = (length s.pages == 0, t)
  any_alive s (p ∷ ps) t =
      let pp = s.store p in
      let t_probe : Trace = page_probed pp.page ∷ t in
      let skipped = any_alive s ps t in
      let dead = any_alive s ps t_probe in
      elim (is_idle pp.state) [
        | false ↦ skipped
        | true ↦ if d.is_closed pp.page t then dead else (true, t_probe)
      ]

  unfoldable pub is_healthy : Pool → Trace → Bool × Trace
  is_healthy s t = any_alive s s.pages t

  -- The context of Check: p.ctx with ten seconds.
  abbrev pub check_context : Pool → CallContext
  check_context s = record { is_cancelled = s.is_cancelled; timeout = pos 10000000000 }

  -- isPageHealthy.
  unfoldable pub is_page_healthy : ℕ → Pool → Trace → Bool × Trace
  is_page_healthy p s t =
      let page = (s.store p).page in
      let t_probe : Trace = page_probed page ∷ t in
      if d.is_closed page t
      then (false, t_probe)
      else (d.check_page (check_context s) page t_probe, page_checked page ∷ t_probe)

  -- The loop of HealthCheck over the snapshot.
  unfoldable pub count_unhealthy : Pool → List ℕ → ℕ → Trace → ℕ × Trace
  count_unhealthy s [] n t = (n, t)
  count_unhealthy s (p ∷ ps) n t =
      let (healthy, t') = is_page_healthy p s t in
      let skipped = count_unhealthy s ps n t in
      let checked = count_unhealthy s ps (if healthy then n else suc n) t' in
      if is_idle (s.store p).state then checked else skipped

  -- HealthCheck.
  unfoldable pub health_check : Pool → Trace → ℕ × Trace
  health_check s t = count_unhealthy s s.pages 0 t
