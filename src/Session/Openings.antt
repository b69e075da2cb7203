-- ===== src/Session/Openings.antt =====
-- session.go: how many browser contexts a round of Do opens and closes, with a browser in good order.
use browserpm.Common.{
  ℕ, ◌+◌, ◌≡◌, refl, inl, inr, true, false, Option, none, some, Option-cases, ◌∷◌, arith,
  if◌then◌else◌,
}
use browserpm.Errors.{Error}
use browserpm.Driver.{Driver, Trace, openings, closings, context_opened, context_set_up}
use browserpm.Pool.Page.{Pool}
use browserpm.Pool.Create.{new_page_pool}
use browserpm.Pool.Contexts.{IgnoresPages, start-count, close-count}
use browserpm.Session.State.{Session, Others, Caller}
use browserpm.Session.Context.{
  has_context, setup_context, build_pool, set_up_context, build_context_locked, ensure_context,
  tear_down, close_pool, close_context, rebuild_now, rebuild_context, recover,
}
use browserpm.Session.Exclusive.{use_page, do_exclusive}
use browserpm.Session.Consistency.{rebuild_now_lem}
use browserpm.Session.Serving.{IsServing, start-none, rebuild_now-none}

openings-IgnoresPages : IgnoresPages openings
openings-IgnoresPages = record {
  opening = λ b p t. refl;
  refusal = λ b t. refl;
  initialising = λ p t. refl;
  closing = λ p t. refl;
  reading = λ t. refl;
  drawing = λ t. refl;
}

closings-IgnoresPages : IgnoresPages closings
closings-IgnoresPages = record {
  opening = λ b p t. refl;
  refusal = λ b t. refl;
  initialising = λ p t. refl;
  closing = λ p t. refl;
  reading = λ t. refl;
  drawing = λ t. refl;
}

-- From the first trace to the second `n` contexts are opened and `k` are closed.
abbrev pub Opens : ℕ → ℕ → Trace → Trace → Type 0
Opens n k t t' = (openings t' ≡ openings t + n) × (closings t' ≡ closings t + k)

-- How many contexts ensureContext has to open for a session.
abbrev pub missing : Session → ℕ
missing s = if has_context s.browser_context s.pool then 0 else 1

module _ (d : Driver) where
  close_pool-Opens : (p : Option Pool) (s : Session) (t : Trace) → Opens 0 0 t (close_pool d p s t)
  unfolding close_pool
  close_pool-Opens none s t = (omega arith, omega arith)
  close_pool-Opens (some p) s t =
      let o = close-count d s.pool_config openings openings-IgnoresPages p t in
      let k = close-count d s.pool_config closings closings-IgnoresPages p t in
      (omega (arith, o), omega (arith, k))

  close_context-Opens :
      (c : ℕ) (b : Option ℕ) (t : Trace) → b ≡ some c → Opens 0 1 t (close_context d b t)
  unfolding close_context
  close_context-Opens c none t e = cc
  close_context-Opens c (some b) t e = (omega arith, omega arith)

  tear_down-Opens :
      (c : ℕ) (s : Session) (t : Trace)
      → s.browser_context ≡ some c
      → Opens 0 1 t (tear_down d s t).1
  unfolding tear_down
  tear_down-Opens c s t e =
      let (o, k) = close_pool-Opens s.pool s t in
      let (o', k') = close_context-Opens c s.browser_context (close_pool d s.pool s t) e in
      (omega (arith, o, o'), omega (arith, k, k'))

  pub do_exclusive-Opens :
      (caller : Caller) (s : Session) (t : Trace) → Opens 0 0 t (do_exclusive d caller s t).1
  unfolding do_exclusive use_page
  do_exclusive-Opens caller s t = ground arith

  module _ (good : IsServing d) where
    build_context_locked-Opens :
        (s : Session) (t : Trace) → Opens 1 0 t (build_context_locked d s t).2
    unfolding build_context_locked set_up_context build_pool
    build_context_locked-Opens s t =
        let (c, e) = good.opens_context t in
        let t1 : Trace = context_opened c ∷ t in
        let set_up = good.sets_up (setup_context d s) c t1 in
        let fine = start-none d good s.pool_config (new_page_pool c) (context_set_up c ∷ t1) in
        let o =
          start-count d s.pool_config openings openings-IgnoresPages (new_page_pool c)
            (context_set_up c ∷ t1) in
        let k =
          start-count d s.pool_config closings closings-IgnoresPages (new_page_pool c)
            (context_set_up c ∷ t1) in
        ground (arith, e, set_up, fine, o, k)

    pub ensure_context-Opens :
        (s : Session) (t : Trace) → Opens (missing s) 0 t (ensure_context d s t).2
    unfolding ensure_context
    ensure_context-Opens s t = ground (arith, build_context_locked-Opens s t)

    rebuild_now-Opens :
        (c : ℕ) (s : Session) (t : Trace)
        → s.browser_context ≡ some c
        → Opens 1 1 t (rebuild_now d s t).2
    unfolding rebuild_now
    rebuild_now-Opens c s t e =
        let s0 : Session = record s { rebuilding = true } in
        let (s1, t1) = tear_down d s0 t in
        let (o, k) = tear_down-Opens c s0 t e in
        let (o', k') = build_context_locked-Opens s1 t1 in
        (omega (arith, o, o'), omega (arith, k, k'))

    rebuild_now-has_context :
        (s : Session) (t : Trace)
        → let s' = (rebuild_now d s t).1 in has_context s'.browser_context s'.pool ≡ true
    rebuild_now-has_context s t = elim (rebuild_now_lem d s t) [
      | inl (r, h, w, a) ↦ h
      | inr (e, r, b, p, a) ↦ let fine = rebuild_now-none d good s t in ground (arith, fine, r)
    ]

    recover_now :
        (others : Others) (e : Error) (s : Session) (t : Trace)
        → s.rebuilding ≡ false
        → let (r, s', t') = rebuild_now d s t in
          ((recover d others e s t).1 ≡ s') × ((recover d others e s t).2 ≡ t')
    unfolding recover rebuild_context
    recover_now others e s t q = ground (arith, q)

    -- The recovery of a session that has its context replaces the context by a new one.
    pub recover-Opens :
        (others : Others) (e : Error) (s : Session) (t : Trace)
        → s.rebuilding ≡ false
        → has_context s.browser_context s.pool ≡ true
        → let (r, s', t') = recover d others e s t in Opens 1 1 t t' × (missing s' ≡ 0)
    recover-Opens others e s t q h =
        let (same_session, same_trace) = recover_now others e s t q in
        elim (Option-cases s.browser_context) [
          | inl b ↦ ground (arith, b, h)
          | inr (c, b) ↦
              rw (same_session, same_trace)
                (rebuild_now-Opens c s t b, rw (rebuild_now-has_context s t) refl)
        ]
