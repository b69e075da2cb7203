-- ===== src/Session/Quiet.antt =====
-- session.go: building and rebuilding a context never runs the caller's operation.
use browserpm.Common.{ℕ, zero, suc, ◌≡◌, refl, ◌∙◌, inl, inr, true, Option, none, some, ◌∷◌, arith}
use browserpm.Errors.{Error, Outcome-cases}
use browserpm.Driver.{Driver, Trace, runs, context_opened, context_set_up, slept}
use browserpm.Pool.Page.{Pool}
use browserpm.Pool.Create.{new_page_pool}
use browserpm.Pool.Quiet.{start-runs, close-runs}
use browserpm.Session.State.{Session, Others, is_context_dead}
use browserpm.Session.Context.{
  build_pool, set_up_context, build_context_locked, ensure_context, tear_down, close_pool,
  close_context, rebuild_now, wait_rebuild, rebuild_context, recover,
}

module _ (d : Driver) where
  pub build_pool-runs : (c : ℕ) (s : Session) (t : Trace) → runs (build_pool d c s t).2 ≡ runs t
  unfolding build_pool
  build_pool-runs c s t = ground (arith, start-runs d s.pool_config (new_page_pool c) t)

  pub set_up_context-runs :
      (c : ℕ) (s : Session) (t : Trace) → runs (set_up_context d c s t).2 ≡ runs t
  unfolding set_up_context
  set_up_context-runs c s t = ground (arith, build_pool-runs c s (context_set_up c ∷ t))

  pub build_context_locked-runs :
      (s : Session) (t : Trace) → runs (build_context_locked d s t).2 ≡ runs t
  unfolding build_context_locked
  build_context_locked-runs s t = elim (Outcome-cases (d.new_context t)) [
    | inl (x, e) ↦ rw (e, build_context_locked) refl
    | inr (c, e) ↦ rw (e, build_context_locked) (set_up_context-runs c s (context_opened c ∷ t))
  ]

  pub ensure_context-runs : (s : Session) (t : Trace) → runs (ensure_context d s t).2 ≡ runs t
  unfolding ensure_context
  ensure_context-runs s t = ground (arith, build_context_locked-runs s t)

  pub close_pool-runs :
      (p : Option Pool) (s : Session) (t : Trace) → runs (close_pool d p s t) ≡ runs t
  unfolding close_pool
  close_pool-runs none s t = refl
  close_pool-runs (some p) s t = close-runs d s.pool_config p t

  pub close_context-runs : (c : Option ℕ) (t : Trace) → runs (close_context d c t) ≡ runs t
  unfolding close_context
  close_context-runs none t = refl
  close_context-runs (some c) t = refl

  pub tear_down-runs : (s : Session) (t : Trace) → runs (tear_down d s t).1 ≡ runs t
  unfolding tear_down
  tear_down-runs s t =
      close_context-runs s.browser_context (close_pool d s.pool s t) ∙ close_pool-runs s.pool s t

  pub rebuild_now-runs : (s : Session) (t : Trace) → runs (rebuild_now d s t).2 ≡ runs t
  unfolding rebuild_now
  rebuild_now-runs s t =
      let (s1, t1) = tear_down d (record s { rebuilding = true }) t in
      ground
        (arith, tear_down-runs (record s { rebuilding = true }) t, build_context_locked-runs s1 t1)

  pub is_context_dead-runs : (s : Session) (t : Trace) → runs (is_context_dead d s t).1 ≡ runs t
  unfolding is_context_dead
  is_context_dead-runs s t = ground arith

module _ (d : Driver) (others : Others) where
  pub wait_rebuild-runs :
      (n : ℕ) (s : Session) (t : Trace) → runs (wait_rebuild d others n s t).2 ≡ runs t
  unfolding wait_rebuild
  wait_rebuild-runs zero s t = refl
  wait_rebuild-runs (suc n) s t =
      let t' : Trace = slept ∷ t in ground (arith, wait_rebuild-runs n (others.on_session s t') t')

  pub recover-runs :
      (e : Error) (s : Session) (t : Trace) → runs (recover d others e s t).2 ≡ runs t
  unfolding recover rebuild_context
  recover-runs e s t = ground (arith, wait_rebuild-runs 100 s t, rebuild_now-runs d s t)
