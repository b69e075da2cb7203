-- ===== src/Session/Serving.antt =====
-- session.go: what the parts of Do come to with a browser in good order.
use browserpm.Common.{
  ℕ, zero, suc, ◌≡◌, refl, inl, inr, true, false, none, Option-cases, ◌∷◌, arith,
}
use browserpm.Common.Int.{pos_part}
use browserpm.Errors.{Error, ok}
use browserpm.Config.{PoolConfig}
use browserpm.Driver.{
  Driver, Trace, CallContext, Serves, runs, context_opened, context_set_up, page_opened,
  page_initialised,
}
use browserpm.Pool.Page.{Pool}
use browserpm.Pool.Create.{new_page_pool, add_page, warm_up_loop, warm_up}
use browserpm.Pool.Health.{start}
use browserpm.Pool.Sizes.{create_and_init_page-ok}
use browserpm.Session.State.{Session, Others, Caller}
use browserpm.Session.Context.{
  has_context, setup_context, build_pool, set_up_context, build_context_locked, ensure_context,
  tear_down, rebuild_now, rebuild_context, recover,
}
use browserpm.Session.Exclusive.{init_context, use_page, do_exclusive}

-- A browser in good order, whose contexts open and are set up too.
pub record IsServing (d : Driver) : Type 0 where
  pub serves : Serves d
  pub opens_context : (t : Trace) → (c : ℕ) × (d.new_context t ≡ ok c)
  pub sets_up : (x : CallContext) (c : ℕ) (t : Trace) → d.set_up x c t ≡ none

module _ (d : Driver) (good : IsServing d) where
  add_page-none : (cfg : PoolConfig) (s : Pool) (t : Trace) → (add_page d cfg s t).0 ≡ none
  unfolding add_page
  add_page-none cfg s t =
      let (p, e) = create_and_init_page-ok d cfg good.serves s t in rw (e, add_page) refl

  warm_up_loop-none :
      (cfg : PoolConfig) (n : ℕ) (s : Pool) (t : Trace) → (warm_up_loop d cfg n s t).0 ≡ none
  unfolding warm_up_loop
  warm_up_loop-none cfg zero s t = refl
  warm_up_loop-none cfg (suc n) s t =
      let (r, s', t') = add_page d cfg s t in
      ground (arith, add_page-none cfg s t, warm_up_loop-none cfg n s' t')

  pub start-none : (cfg : PoolConfig) (s : Pool) (t : Trace) → (start d cfg s t).0 ≡ none
  unfolding start warm_up
  start-none cfg s t = ground (arith, warm_up_loop-none cfg (pos_part cfg.min_pages) s t)

  build_context_locked-none : (s : Session) (t : Trace) → (build_context_locked d s t).0 ≡ none
  unfolding build_context_locked set_up_context build_pool
  build_context_locked-none s t =
      let (c, e) = good.opens_context t in
      let t1 : Trace = context_opened c ∷ t in
      ground (
        arith,
        e,
        good.sets_up (setup_context d s) c t1,
        start-none s.pool_config (new_page_pool c) (context_set_up c ∷ t1),
      )

  pub ensure_context-none : (s : Session) (t : Trace) → (ensure_context d s t).0 ≡ none
  unfolding ensure_context
  ensure_context-none s t = ground (arith, build_context_locked-none s t)

  pub rebuild_now-none : (s : Session) (t : Trace) → (rebuild_now d s t).0 ≡ none
  unfolding rebuild_now
  rebuild_now-none s t =
      let (s1, t1) = tear_down d (record s { rebuilding = true }) t in
      build_context_locked-none s1 t1

  pub recover-none :
      (others : Others) (e : Error) (s : Session) (t : Trace)
      → s.rebuilding ≡ false
      → (recover d others e s t).0 ≡ none
  unfolding recover rebuild_context
  recover-none others e s t q = ground (arith, q, rebuild_now-none s t)

  pub recover-rebuilding :
      (others : Others) (e : Error) (s : Session) (t : Trace)
      → s.rebuilding ≡ false
      → (recover d others e s t).1.rebuilding ≡ false
  unfolding recover rebuild_context rebuild_now
  recover-rebuilding others e s t q = ground (arith, q)

  -- On a session with a context doExclusive comes to the operation, and returns what it returns.
  pub do_exclusive-operation :
      (caller : Caller) (s : Session) (t : Trace)
      → has_context s.browser_context s.pool ≡ true
      → (p : ℕ) × (t1 : Trace) × ((do_exclusive d caller s t).0 ≡ d.operation p t1)
        × (runs t1 ≡ runs t)
        × (runs (do_exclusive d caller s t).1 ≡ suc (runs t))
  unfolding do_exclusive use_page
  do_exclusive-operation caller s t h = elim (Option-cases s.browser_context) [
    | inl e ↦ ground (arith, e)
    | inr (c, e) ↦
        let (p, o) = good.serves.opens c t in
        let t1 : Trace = page_opened c p ∷ t in
        let i = good.serves.inits (init_context d caller s) p t1 in
        (
          p,
          page_initialised p ∷ t1,
          rw (e, do_exclusive, o, use_page, i) refl,
          refl,
          rw (e, do_exclusive, o, use_page, i) refl,
        )
  ]
