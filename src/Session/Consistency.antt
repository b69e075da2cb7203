-- ===== src/Session/Consistency.antt =====
-- session.go: the session's context and pool come and go together, and the pool stays well formed.
use browserpm.Common.{
  ℕ, ◌≡◌, refl, ◌⊎◌, inl, inr, true, Option, none, some, Option-cases, ◌∷◌, arith,
}
use browserpm.Errors.{Error, Outcome-cases}
use browserpm.Driver.{Driver, Trace, context_opened, context_set_up}
use browserpm.Pool.Page.{Pool}
use browserpm.Pool.Create.{new_page_pool}
use browserpm.Pool.Health.{start}
use browserpm.Pool.Invariant.{new_page_pool-IsWellFormed, IsWellFormed}
use browserpm.Pool.Preservation.{start-IsWellFormed}
use browserpm.Session.State.{Session, active, degraded}
use browserpm.Session.Context.{
  setup_context, build_pool, set_up_context, build_context_locked, has_context, ensure_context,
  tear_down, rebuild_now,
}

abbrev pub IsPoolOk : Option Pool → Type 0
IsPoolOk none = Unit {0}
IsPoolOk (some p) = IsWellFormed p

-- The context and the pool are both there, or neither is; a pool that is there is well formed.
pub record IsConsistent (s : Session) : Type 0 where
  pub paired :
      (has_context s.browser_context s.pool ≡ true) ⊎ ((s.browser_context ≡ none) × (s.pool ≡ none))
  pub sound : IsPoolOk s.pool

module _ (d : Driver) where
  -- A build that succeeds leaves an active session with its context and a well-formed pool, and one
  -- that fails leaves a degraded session with the context and the pool that it had.
  abbrev pub Built : Session → Option Error × Session × Trace → Type 0
  Built s (r, s', t') =
      ((r ≡ none)
        × (has_context s'.browser_context s'.pool ≡ true)
        × IsPoolOk s'.pool
        × (s'.state ≡ active))
      ⊎ ((e : Error) × (r ≡ some e)
          × (s'.browser_context ≡ s.browser_context)
          × (s'.pool ≡ s.pool)
          × (s'.state ≡ degraded))

  build_pool-Built : (c : ℕ) (s : Session) (t : Trace) → Built s (build_pool d c s t)
  unfolding build_pool
  build_pool-Built c s t =
      let w =
        start-IsWellFormed d s.pool_config (new_page_pool c) t (new_page_pool-IsWellFormed c) in
      elim (Option-cases (start d s.pool_config (new_page_pool c) t).0) [
        | inl e ↦ rw (e, build_pool) (inl (refl, refl, w, refl))
        | inr (x, e) ↦ rw (e, build_pool) (inr (x, refl, refl, refl, refl))
      ]

  set_up_context-Built : (c : ℕ) (s : Session) (t : Trace) → Built s (set_up_context d c s t)
  unfolding set_up_context
  set_up_context-Built c s t = elim (Option-cases (d.set_up (setup_context d s) c t)) [
    | inl e ↦ rw (e, set_up_context) (build_pool-Built c s (context_set_up c ∷ t))
    | inr (x, e) ↦ rw (e, set_up_context) (inr (_, refl, refl, refl, refl))
  ]

  pub build_context_locked-Built : (s : Session) (t : Trace) → Built s (build_context_locked d s t)
  unfolding build_context_locked
  build_context_locked-Built s t = elim (Outcome-cases (d.new_context t)) [
    | inl (x, e) ↦ rw (e, build_context_locked) (inr (_, refl, refl, refl, refl))
    | inr (c, e) ↦ rw (e, build_context_locked) (set_up_context-Built c s (context_opened c ∷ t))
  ]

  Built-IsConsistent :
      (s : Session) (r : Option Error × Session × Trace)
      → Built s r
      → IsConsistent s
      → IsConsistent r.1
  Built-IsConsistent s (r, s', t') (inl (n, h, w, a)) v = record { paired = inl h; sound = w }
  Built-IsConsistent s (r, s', t') (inr (e, n, b, p, a)) v = record {
    paired = rw (b, p) v.paired;
    sound = rw p v.sound;
  }

  pub ensure_context-IsConsistent :
      (s : Session) (t : Trace) → IsConsistent s → IsConsistent (ensure_context d s t).1
  unfolding ensure_context
  ensure_context-IsConsistent s t v =
      let b =
        Built-IsConsistent s (build_context_locked d s t) (build_context_locked-Built s t) v in
      ground (arith, v, b)

  -- When ensureContext reports success the session has a context and a pool.
  pub ensure_context-has_context :
      (s : Session) (t : Trace)
      → (ensure_context d s t).0 ≡ none
      → let s' = (ensure_context d s t).1 in has_context s'.browser_context s'.pool ≡ true
  unfolding ensure_context
  ensure_context-has_context s t h = elim (build_context_locked-Built s t) [
    | inl (n, b, w, a) ↦ ground (arith, b)
    | inr (e, r, b, p, a) ↦ ground (arith, r)
  ]

  pub rebuild_now-IsConsistent : (s : Session) (t : Trace) → IsConsistent (rebuild_now d s t).1
  unfolding rebuild_now tear_down
  rebuild_now-IsConsistent s t =
      let (s1, t1) = tear_down d (record s { rebuilding = true }) t in
      elim (build_context_locked-Built s1 t1) [
        | inl (n, h, w, a) ↦ record { paired = inl h; sound = w }
        | inr (e, n, b, p, a) ↦ record { paired = inr (b, p); sound = rw p tt }
      ]

  -- A rebuild that nobody else has under way ends with an active session that has its context and a
  -- well-formed pool, or with a degraded session that has neither, and reports which.
  pub rebuild_now_lem :
      (s : Session) (t : Trace)
      → let (r, s', t') = rebuild_now d s t in
        ((r ≡ none)
          × (has_context s'.browser_context s'.pool ≡ true)
          × IsPoolOk s'.pool
          × (s'.state ≡ active))
        ⊎ ((e : Error) × (r ≡ some e)
            × (s'.browser_context ≡ none)
            × (s'.pool ≡ none)
            × (s'.state ≡ degraded))
  unfolding rebuild_now tear_down
  rebuild_now_lem s t =
      let (s1, t1) = tear_down d (record s { rebuilding = true }) t in
      build_context_locked-Built s1 t1

-- The build leaves the flag of rebuildContext and the session's own context.Context alone.
module _ (d : Driver) where
  pub build_context_locked-rebuilding :
      (s : Session) (t : Trace) → (build_context_locked d s t).1.rebuilding ≡ s.rebuilding
  unfolding build_context_locked set_up_context build_pool
  build_context_locked-rebuilding s t = ground arith

  pub ensure_context-rebuilding :
      (s : Session) (t : Trace) → (ensure_context d s t).1.rebuilding ≡ s.rebuilding
  unfolding ensure_context
  ensure_context-rebuilding s t = ground (arith, build_context_locked-rebuilding s t)

  build_context_locked-is_cancelled :
      (s : Session) (t : Trace) → (build_context_locked d s t).1.is_cancelled ≡ s.is_cancelled
  unfolding build_context_locked set_up_context build_pool
  build_context_locked-is_cancelled s t = ground arith

  pub ensure_context-is_cancelled :
      (s : Session) (t : Trace) → (ensure_context d s t).1.is_cancelled ≡ s.is_cancelled
  unfolding ensure_context
  ensure_context-is_cancelled s t = ground (arith, build_context_locked-is_cancelled s t)
