-- ===== src/Pool/Sizes.antt =====
-- pool.go and health.go: how the number of pages changes.
use browserpm.Common.{
  ℕ, zero, suc, ◌+◌, ◌≤◌, ◌<◌, ◌≡◌, refl, ap, Option-cases, inl, inr, ◌⊎◌, Option, none, some, List,
  [], ◌∷◌, ◌++◌, arith, has, if◌then◌else◌, length, length-append,
}
use browserpm.Common.Int.{pos, ◌≤ℤ◌}
use browserpm.Errors.{Error, Outcome, ok, err, wrap_error, internal}
use browserpm.Config.{PoolConfig}
use browserpm.Driver.{Driver, Trace, Serves, clock_read, id_drawn, page_opened}
use browserpm.Pool.Page.{Pool, set_state, alloc, append_page}
use browserpm.Pool.Create.{
  init_context, init_pool_page, create_and_init_page, add_page, warm_up_loop,
}
use browserpm.Pool.Remove.{remove_first, remove_page_locked, replace_page}
use browserpm.Pool.Observe.{size}
use browserpm.Pool.Health.{reap, reap_one, reap_loop, run_reap}
use browserpm.Pool.Created.{create_and_init_page-Created}

length-snoc : (p : ℕ) (ps : List ℕ) → length (ps ++ (p ∷ [])) ≡ suc (length ps)
length-snoc p ps = omega (arith, length-append ps (p ∷ []))

pub length-remove_first :
    (p : ℕ) (ps : List ℕ)
    → length ps
      ≡ (if has p ps then suc (length (remove_first p ps)) else length (remove_first p ps))
unfolding remove_first
length-remove_first p [] = refl
length-remove_first p (q ∷ ps) = ground (arith, length-remove_first p ps)

pub remove_page_locked-size :
    (p : ℕ) (s : Pool) (t : Trace)
    → (size (remove_page_locked p s t).0 ≤ size s)
      × (size s ≤ suc (size (remove_page_locked p s t).0))
unfolding remove_page_locked size
remove_page_locked-size p s t = ground (arith, length-remove_first p s.pages)

abbrev pub one_if_ok : Outcome ℕ → ℕ
one_if_ok (ok p) = 1
one_if_ok (err e) = 0

abbrev one_if_nil : Option Error → ℕ
one_if_nil none = 1
one_if_nil (some e) = 0

module _ (d : Driver) (cfg : PoolConfig) where
  add_page-size :
      (s : Pool) (t : Trace)
      → size (add_page d cfg s t).1 ≡ size s + one_if_nil (add_page d cfg s t).0
  unfolding add_page size append_page alloc
  add_page-size s t = elim (create_and_init_page-Created d cfg s t) [
    | inl (x, r, q) ↦ rw (r, add_page, q) (omega arith)
    | inr (pp, r, q, i, a, u) ↦ rw (r, add_page, q) (omega (arith, length-snoc s.next s.pages))
  ]

  -- A loop of the warm-up that succeeds adds as many pages as it was told to; one that fails adds
  -- fewer and reports an internal error.
  pub warm_up_loop-size :
      (n : ℕ) (s : Pool) (t : Trace)
      → let (r, s', t') = warm_up_loop d cfg n s t in
        ((r ≡ none) × (size s' ≡ size s + n))
        ⊎ ((e : Error) × (r ≡ some (wrap_error e internal "pool warm-up failed"))
            × (size s ≤ size s')
            × (size s' < size s + n))
  unfolding warm_up_loop
  warm_up_loop-size zero s t = inl (refl, omega arith)
  warm_up_loop-size (suc n) s t =
      let (r, s', t') = add_page d cfg s t in
      elim (Option-cases r) [
        | inl e ↦ elim (warm_up_loop-size n s' t') [
          | inl (all, more) ↦
              rw (e, warm_up_loop)
                (inl (all, omega (arith, more, add_page-size s t, ap one_if_nil e)))
          | inr (x, failed, low, high) ↦
              rw (e, warm_up_loop)
                (inr (
                  x,
                  failed,
                  omega (arith, low, add_page-size s t, ap one_if_nil e),
                  omega (arith, high, add_page-size s t, ap one_if_nil e),
                ))
        ]
        | inr (x, e) ↦
            rw (e, warm_up_loop)
              (inr (
                x,
                refl,
                omega (arith, add_page-size s t, ap one_if_nil e),
                omega (arith, add_page-size s t, ap one_if_nil e),
              ))
      ]

  -- Replacing a page of the pool keeps the number of pages, or lowers it by one if the creation fails.
  -- Replacing a page that is not in the pool any more raises the number by one if it succeeds.
  pub replace_page-size :
      (p : ℕ) (s : Pool) (t : Trace)
      → let (s1, t1) = remove_page_locked p s t in
        let created = (create_and_init_page d cfg s1 t1).0 in
        size (replace_page d cfg p s t).0 + (if has p s.pages then 1 else 0)
        ≡ size s + one_if_ok created
  unfolding replace_page size append_page alloc remove_page_locked
  replace_page-size p s t =
      let (s1, t1) = remove_page_locked p s t in
      elim (create_and_init_page-Created d cfg s1 t1) [
        | inl (x, r, q) ↦ rw (r, replace_page, q) (ground (arith, length-remove_first p s.pages))
        | inr (pp, r, q, i, a, u) ↦
            rw (r, replace_page, q)
              (ground
                (arith, length-remove_first p s.pages, length-snoc s.next (remove_first p s.pages)))
      ]

  module _ (serves : Serves d) where
    pub create_and_init_page-ok :
        (s : Pool) (t : Trace) → (p : ℕ) × ((create_and_init_page d cfg s t).0 ≡ ok p)
    unfolding create_and_init_page init_pool_page
    create_and_init_page-ok s t =
        let (raw, e) = serves.opens s.context t in
        (
          s.next,
          ground (
            arith,
            e,
            serves.inits (init_context d cfg s) raw
                (clock_read ∷ id_drawn ∷ page_opened s.context raw ∷ t),
          ),
        )

    add_page-suc : (s : Pool) (t : Trace) → size (add_page d cfg s t).1 ≡ suc (size s)
    unfolding add_page
    add_page-suc s t =
        let (p, e) = create_and_init_page-ok s t in
        let done : (add_page d cfg s t).0 ≡ none = rw (e, add_page) refl in
        omega (arith, add_page-size s t, ap one_if_nil done)

    reap-size :
        (p : ℕ) (s : Pool) (t : Trace)
        → cfg.min_pages ≤ℤ pos (size s)
        → (size (reap d cfg p s t).0 ≤ size s) × (cfg.min_pages ≤ℤ pos (size (reap d cfg p s t).0))
    unfolding reap size
    reap-size p s t h =
        let (s1, t1) = remove_page_locked p s t in
        ground (arith, remove_page_locked-size p s t, add_page-suc s1 t1)

    reap_one-size :
        (now p : ℕ) (s : Pool) (t : Trace)
        → cfg.min_pages ≤ℤ pos (size s)
        → let s' = (reap_one d cfg now p s t).0 in
          (size s' ≤ size s) × (cfg.min_pages ≤ℤ pos (size s'))
    unfolding reap_one set_state size
    reap_one-size now p s t h = ground (arith, reap-size p s t h)

    reap_loop-size :
        (now : ℕ) (ps : List ℕ) (s : Pool) (t : Trace)
        → cfg.min_pages ≤ℤ pos (size s)
        → let s' = (reap_loop d cfg now ps s t).0 in
          (size s' ≤ size s) × (cfg.min_pages ≤ℤ pos (size s'))
    unfolding reap_loop
    reap_loop-size now [] s t h = (omega arith, h)
    reap_loop-size now (p ∷ ps) s t h =
        let (fewer, enough) = reap_one-size now p s t h in
        let (fewer', enough') = reap_loop-size now ps _ (reap_one d cfg now p s t).1 enough in
        (omega arith, enough')

    -- While the browser serves, a run of the reaper never takes a pool below its minimum, and never
    -- makes it larger.
    pub run_reap-size :
        (s : Pool) (t : Trace)
        → cfg.min_pages ≤ℤ pos (size s)
        → let s' = (run_reap d cfg s t).0 in (size s' ≤ size s) × (cfg.min_pages ≤ℤ pos (size s'))
    unfolding run_reap
    run_reap-size s t h = reap_loop-size (d.now t) s.pages s (clock_read ∷ t) h
