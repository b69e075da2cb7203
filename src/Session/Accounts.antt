-- ===== src/Session/Accounts.antt =====
-- session.go: how the building, the rebuilding and the closing of a context change what is open.
use browserpm.Common.{
  ℕ, ◌+◌, ◌≡◌, refl, ◌∙◌, ◌⊎◌, inl, inr, true, false, Option, none, some, ◌∷◌, arith, ◌==◌,
  if◌then◌else◌,
}
use browserpm.Errors.{Error, Outcome-cases}
use browserpm.Driver.{
  Driver, Trace, contexts_opened, contexts_closed, context_opened, context_set_up,
}
use browserpm.Pool.Page.{Pool}
use browserpm.Pool.Create.{new_page_pool}
use browserpm.Pool.Contexts.{IsSame, start-contexts, close-contexts}
use browserpm.Session.State.{Session, Caller}
use browserpm.Session.Context.{
  has_context, build_pool, set_up_context, build_context_locked, ensure_context, tear_down,
  close_pool, close_context,
}
use browserpm.Session.Exclusive.{use_page, do_exclusive}
use browserpm.Session.Consistency.{build_context_locked-Built}

-- Whether the context `c` is the one that is there.
abbrev pub held : ℕ → Option ℕ → ℕ
held c none = 0
held c (some b) = if c == b then 1 else 0

-- The context and the pool are both there, or neither is.
abbrev pub IsPaired : Session → Type 0
IsPaired s =
    (has_context s.browser_context s.pool ≡ true) ⊎ ((s.browser_context ≡ none) × (s.pool ≡ none))

pub with_pool-IsPaired :
    (s : Session) (p p' : Pool)
    → IsPaired s
    → s.pool ≡ some p
    → IsPaired (record s { pool = some p' })
with_pool-IsPaired s p p' v q = ground arith

module _ (d : Driver) (c : ℕ) where
  -- Contexts are opened and closed so that what the session holds accounts for the difference.
  abbrev pub Balanced : Session → Trace → Session → Trace → Type 0
  Balanced s t s' t' =
      contexts_opened c t' + contexts_closed c t + held c s.browser_context
      ≡ contexts_opened c t + contexts_closed c t' + held c s'.browser_context

  -- The same for the parts of the build, which have the opened context `b` in their hands.
  abbrev Settled : ℕ → Session → Trace → Option Error × Session × Trace → Type 0
  Settled b s t (r, s', t') =
      contexts_opened c t' + contexts_closed c t + held c (some b)
      ≡ contexts_opened c t + contexts_closed c t' + held c s'.browser_context

  build_pool-Settled :
      (b : ℕ) (s : Session) (t : Trace)
      → s.browser_context ≡ none
      → Settled b s t (build_pool d b s t)
  unfolding build_pool
  build_pool-Settled b s t h =
      ground (arith, h, start-contexts d s.pool_config c (new_page_pool b) t)

  set_up_context-Settled :
      (b : ℕ) (s : Session) (t : Trace)
      → s.browser_context ≡ none
      → Settled b s t (set_up_context d b s t)
  unfolding set_up_context
  set_up_context-Settled b s t h =
      ground (arith, h, build_pool-Settled b s (context_set_up b ∷ t) h)

  pub build_context_locked-Balanced :
      (s : Session) (t : Trace)
      → s.browser_context ≡ none
      → let (r, s', t') = build_context_locked d s t in Balanced s t s' t'
  unfolding build_context_locked
  build_context_locked-Balanced s t h = elim (Outcome-cases (d.new_context t)) [
    | inl (x, e) ↦ rw (e, build_context_locked) (omega arith)
    | inr (b, e) ↦
        let settled = set_up_context-Settled b s (context_opened b ∷ t) h in
        rw (e, build_context_locked) (ground (arith, settled, h))
  ]

  pub ensure_context-Balanced :
      (s : Session) (t : Trace)
      → IsPaired s
      → let (r, s', t') = ensure_context d s t in Balanced s t s' t' × IsPaired s'
  unfolding ensure_context
  ensure_context-Balanced s t v = elim v [
    | inl e ↦ rw (e, ensure_context) (omega arith, inl e)
    | inr (o, q) ↦
        let absent : has_context s.browser_context s.pool ≡ false = rw o refl in
        rw (absent, ensure_context)
          (
            build_context_locked-Balanced s t o,
            elim (build_context_locked-Built d s t) [
              | inl (r, e, w, a) ↦ inl e
              | inr (x, r, e, f, a) ↦ inr (e ∙ o, f ∙ q)
            ],
          )
  ]

  close_pool-IsSame : (p : Option Pool) (s : Session) (t : Trace) → IsSame c t (close_pool d p s t)
  unfolding close_pool
  close_pool-IsSame none s t = (refl, refl)
  close_pool-IsSame (some p) s t = close-contexts d s.pool_config c p t

  close_context-held :
      (b : Option ℕ) (t : Trace)
      → (contexts_opened c (close_context d b t) ≡ contexts_opened c t)
        × (contexts_closed c (close_context d b t) ≡ contexts_closed c t + held c b)
  unfolding close_context
  close_context-held none t = (refl, omega arith)
  close_context-held (some b) t = ground arith

  -- The pool and the context that a session had are closed.
  pub closed-held :
      (p : Option Pool) (b : Option ℕ) (s : Session) (t : Trace)
      → let t' = close_context d b (close_pool d p s t) in
        (contexts_opened c t' ≡ contexts_opened c t)
        × (contexts_closed c t' ≡ contexts_closed c t + held c b)
  closed-held p b s t =
      let (o, k) = close_pool-IsSame p s t in
      let (o', k') = close_context-held b (close_pool d p s t) in (o' ∙ o, omega (arith, k', k))

  pub tear_down-Balanced :
      (s : Session) (t : Trace) → let (s', t') = tear_down d s t in Balanced s t s' t'
  unfolding tear_down
  tear_down-Balanced s t = omega (arith, closed-held s.pool s.browser_context s t)

  pub do_exclusive-IsSame :
      (caller : Caller) (s : Session) (t : Trace) → IsSame c t (do_exclusive d caller s t).1
  unfolding do_exclusive use_page
  do_exclusive-IsSame caller s t = ground arith
