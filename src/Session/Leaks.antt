-- ===== src/Session/Leaks.antt =====
-- session.go: doExclusive closes what it opens.
use browserpm.Common.{ℕ, ◌+◌, ◌≡◌, inl, inr, Option-cases, ◌∷◌, arith, ◌==◌, if◌then◌else◌}
use browserpm.Errors.{Outcome-cases}
use browserpm.Driver.{Driver, Trace, opened, released, page_opened}
use browserpm.Session.State.{Session, Caller}
use browserpm.Session.Exclusive.{use_page, do_exclusive}

module _ (d : Driver) (caller : Caller) (q : ℕ) where
  -- On every path of its tail the page is closed once.
  use_page-released :
      (p : ℕ) (s : Session) (t : Trace)
      → let t' = (use_page d caller p s t).1 in
        (opened q t' ≡ opened q t) × (released q t' ≡ released q t + (if p == q then 1 else 0))
  unfolding use_page
  use_page-released p s t = ground arith

  -- For every page handle doExclusive closes as often as it opens: no path leaves its page open, neither
  -- a failed initialisation nor a failed operation.
  pub do_exclusive-balanced :
      (s : Session) (t : Trace)
      → let t' = (do_exclusive d caller s t).1 in
        opened q t' + released q t ≡ opened q t + released q t'
  unfolding do_exclusive
  do_exclusive-balanced s t = elim (Option-cases s.browser_context) [
    | inl e ↦ rw (e, do_exclusive) (omega arith)
    | inr (c, e) ↦ elim (Outcome-cases (d.new_page c t)) [
      | inl (x, h) ↦ rw (e, do_exclusive, h) (omega arith)
      | inr (p, h) ↦
          rw (e, do_exclusive, h) (ground (arith, use_page-released p s (page_opened c p ∷ t)))
    ]
  ]
