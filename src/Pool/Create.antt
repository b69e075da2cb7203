-- ===== src/Pool/Create.antt =====
-- pool.go: creating a page and initialising it, adding it to the pool, warming the pool up.
use browserpm.Common.{ℕ, zero, suc, false, Option, none, some, [], ◌∷◌}
use browserpm.Common.Int.{ℤ, pos_part}
use browserpm.Errors.{Error, Outcome, ok, err, wrap_error, internal}
use browserpm.Config.{PoolConfig}
use browserpm.Driver.{
  Driver, Trace, CallContext, page_opened, page_refused, page_initialised, page_closed, id_drawn,
  clock_read,
}
use browserpm.Pool.Page.{Pool, PoolPage, idle, alloc, append_page}

-- newPagePool: the pool before Start, with the page creator of a context.
unfoldable pub new_page_pool : ℕ → Pool
new_page_pool context = record {
  pages = [];
  store = λ _. record {
    page = 0;
    id = "";
    state = idle;
    created_at = 0;
    last_used = 0;
    active_ops = 0;
    use_count = 0;
  };
  next = 0;
  counter = 0;
  context = context;
  is_cancelled = false;
  checker_runs = false;
  reaper_runs = false;
  replacing = [];
}

module _ (d : Driver) (cfg : PoolConfig) where
  -- The context of Init: p.ctx with the configured timeout.
  abbrev pub init_context : Pool → CallContext
  init_context s = record { is_cancelled = s.is_cancelled; timeout = cfg.init_timeout }

  -- The poolPage of a page that NewPage has just returned.
  abbrev pub new_pool_page : ℕ → Trace → PoolPage
  new_pool_page raw t =
      let created = d.now (id_drawn ∷ t) in
      record {
        page = raw;
        id = d.random_id t;
        state = idle;
        created_at = created;
        last_used = created;
        active_ops = 0;
        use_count = 0;
      }

  -- The tail of createAndInitPage, once NewPage has returned the page `raw`.
  unfoldable pub init_pool_page : ℕ → Pool → Trace → Outcome ℕ × Pool × Trace
  unfolding alloc
  init_pool_page raw s t =
      let t_now : Trace = clock_read ∷ id_drawn ∷ t in
      let t_init : Trace = page_initialised raw ∷ t_now in
      elim (d.init_page (init_context s) raw t_now) [
        | some e ↦ (err (wrap_error e internal "page init failed"), s, page_closed raw ∷ t_init)
        | none ↦ (ok s.next, alloc (new_pool_page raw t) s, t_init)
      ]

  -- createAndInitPage.
  unfoldable pub create_and_init_page : Pool → Trace → Outcome ℕ × Pool × Trace
  create_and_init_page s t = elim (d.new_page s.context t) [
    | err e ↦ (err (wrap_error e internal "failed to create page"), s, page_refused s.context ∷ t)
    | ok raw ↦ init_pool_page raw s (page_opened s.context raw ∷ t)
  ]

  -- addPage.
  unfoldable pub add_page : Pool → Trace → Option Error × Pool × Trace
  unfolding append_page
  add_page s t =
      let (r, s', t') = create_and_init_page s t in
      elim r [ err e ↦ (some e, s', t') | ok p ↦ (none, append_page p s', t') ]

  -- The loop of warmUp over the pages that are left to add.
  unfoldable pub warm_up_loop : ℕ → Pool → Trace → Option Error × Pool × Trace
  warm_up_loop zero s t = (none, s, t)
  warm_up_loop (suc n) s t =
      let (r, s', t') = add_page s t in
      let rest = warm_up_loop n s' t' in
      elim r [ some e ↦ (some (wrap_error e internal "pool warm-up failed"), s', t') | none ↦ rest ]

  -- warmUp: a negative count adds nothing.
  unfoldable pub warm_up : ℤ → Pool → Trace → Option Error × Pool × Trace
  warm_up count s t = warm_up_loop (pos_part count) s t
