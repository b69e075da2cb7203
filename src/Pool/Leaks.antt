-- ===== src/Pool/Leaks.antt =====
-- pool.go and health.go: no page is forgotten. Every page that was opened is in the slice, or was closed, or
-- a goroutine was sent to close it.
use browserpm.Common.{
  ℕ, suc, ◌+◌, ◌≤◌, ◌≡◌, refl, ◌⊎◌, inl, inr, true, false, Option-cases, List, [], ◌∷◌, ◌++◌, arith,
  ◌==◌, has, if◌then◌else◌,
}
use browserpm.Errors.{Error, Outcome, ok, err, Outcome-cases}
use browserpm.Config.{PoolConfig}
use browserpm.Scheduler.{reset}
use browserpm.Driver.{
  Driver, Event, Trace, opened, released, page_opened, clock_read, id_drawn, ticked, slept,
  page_probed, page_checked,
}
use browserpm.Pool.Page.{
  Pool, PoolPage, closed, update, alloc, append_page, touch, claim, release, set_state,
}
use browserpm.Pool.Create.{
  init_context, new_pool_page, init_pool_page, create_and_init_page, add_page,
}
use browserpm.Pool.Acquire.{grow}
use browserpm.Pool.Remove.{remove_first, remove_page_locked, replace_page, close_all, close}
use browserpm.Pool.Invariant.{IsWellFormed, has-of_All_lt, remove_page_locked-IsWellFormed}
use browserpm.Pool.Keeps.{Keeps, is_quiet}
use browserpm.Pool.Preservation.{IsWellFormed-Keeps}

-- How many pages of the list stand for the page `h` of the browser.
abbrev pub listed : ℕ → (ℕ → PoolPage) → List ℕ → ℕ
listed h store [] = 0
listed h store (p ∷ ps) =
    let rest = listed h store ps in if h == (store p).page then suc rest else rest

-- No page `h` is forgotten.
abbrev pub IsTracked : ℕ → Pool → Trace → Type 0
IsTracked h s t = opened h t ≤ released h t + listed h s.store s.pages

module _ (h : ℕ) where
  pub listed-append :
      (f : ℕ → PoolPage) (ps qs : List ℕ) → listed h f (ps ++ qs) ≡ listed h f ps + listed h f qs
  listed-append f [] qs = omega arith
  listed-append f (p ∷ ps) qs = ground (arith, listed-append f ps qs)

  listed-update_absent :
      (f : ℕ → PoolPage) (p : ℕ) (pp : PoolPage) (ps : List ℕ)
      → has p ps ≡ false
      → listed h (update f p pp) ps ≡ listed h f ps
  listed-update_absent f p pp [] m = refl
  listed-update_absent f p pp (q ∷ ps) m = ground (arith, listed-update_absent f p pp ps)

  pub listed-update_same :
      (f : ℕ → PoolPage) (p : ℕ) (pp : PoolPage) (ps : List ℕ)
      → pp.page ≡ (f p).page
      → listed h (update f p pp) ps ≡ listed h f ps
  listed-update_same f p pp [] e = refl
  listed-update_same f p pp (q ∷ ps) e = ground (arith, listed-update_same f p pp ps e)

  pub listed-remove_first :
      (f : ℕ → PoolPage) (p : ℕ) (ps : List ℕ)
      → listed h f ps ≤ listed h f (remove_first p ps) + (if h == (f p).page then 1 else 0)
  unfolding remove_first
  listed-remove_first f p [] = omega arith
  listed-remove_first f p (q ∷ ps) = ground (arith, listed-remove_first f p ps)

  -- Either the creation fails and has closed as much as it opened, or it has opened the page of the new
  -- cell.
  module _ (d : Driver) (cfg : PoolConfig) (s : Pool) (t : Trace) where
    abbrev pub Opened : Outcome ℕ × Pool × Trace → Type 0
    Opened (r, s', t') =
        ((e : Error) × (r ≡ err e)
          × (s' ≡ s)
          × (opened h t' + released h t ≡ opened h t + released h t'))
        ⊎ ((pp : PoolPage) × (r ≡ ok s.next)
            × (s' ≡ alloc pp s)
            × (opened h t' ≡ opened h t + (if h == pp.page then 1 else 0))
            × (released h t' ≡ released h t))

    pub create_and_init_page-Opened : Opened (create_and_init_page d cfg s t)
    unfolding create_and_init_page init_pool_page
    create_and_init_page-Opened = elim (Outcome-cases (d.new_page s.context t)) [
      | inl (x, e) ↦ rw (e, create_and_init_page) (inl (_, refl, refl, refl))
      | inr (raw, e) ↦
          let t1 : Trace = page_opened s.context raw ∷ t in
          elim (Option-cases
            (d.init_page (init_context d cfg s) raw (clock_read ∷ id_drawn ∷ t1))) [
              | inl i ↦
                  rw (e, create_and_init_page, i, init_pool_page)
                    (inr (new_pool_page d cfg raw t1, refl, refl, ground arith, refl))
              | inr (x, i) ↦
                  rw (e, create_and_init_page, i, init_pool_page)
                    (inl (_, refl, refl, ground arith))
            ]
    ]

  -- The two steps on a new cell.
  append-IsTracked :
      (s : Pool) (pp : PoolPage) (t t' : Trace)
      → IsWellFormed s
      → opened h t' ≡ opened h t + (if h == pp.page then 1 else 0)
      → released h t' ≡ released h t
      → IsTracked h s t
      → IsTracked h (append_page s.next (alloc pp s)) t'
  unfolding append_page alloc
  append-IsTracked s pp t t' w o r k =
      let fresh = has-of_All_lt s.next s.pages w.allocated in
      ground (
        arith,
        listed-append (update s.store s.next pp) s.pages (s.next ∷ []),
        listed-update_absent s.store s.next pp s.pages fresh,
      )

  -- A change of a cell that keeps its page.
  update-IsTracked :
      (p : ℕ) (pp : PoolPage) (s : Pool) (t : Trace)
      → pp.page ≡ (s.store p).page
      → IsTracked h s t
      → opened h t ≤ released h t + listed h (update s.store p pp) s.pages
  update-IsTracked p pp s t e k = omega (arith, k, listed-update_same s.store p pp s.pages e)

  claim-IsTracked :
      (p now : ℕ) (s : Pool) (t : Trace) → IsTracked h s t → IsTracked h (claim p now s) t
  unfolding claim
  claim-IsTracked p now s t k = update-IsTracked p _ s t refl k

  remove_page_locked-IsTracked :
      (p : ℕ) (s : Pool) (t : Trace)
      → IsTracked h s t
      → IsTracked h (remove_page_locked p s t).0 (remove_page_locked p s t).1
  unfolding remove_page_locked set_state
  remove_page_locked-IsTracked p s t k = ground (
    arith,
    listed-update_same s.store p (record (s.store p) { state = closed }) (remove_first p s.pages)
        refl,
    listed-remove_first s.store p s.pages,
  )

  -- The loop of Close closes every page of its list.
  close_all-releases :
      (d : Driver) (cfg : PoolConfig) (ps : List ℕ) (s : Pool) (t : Trace)
      → opened h t ≤ released h t + listed h s.store ps
      → let t' = (close_all d cfg ps s t).1 in opened h t' ≤ released h t'
  unfolding close_all set_state
  close_all-releases d cfg [] s t k = omega (arith, k)
  close_all-releases d cfg (p ∷ ps) s t k =
      close_all-releases d cfg ps _ _ (
        ground
          (arith, listed-update_same s.store p (record (s.store p) { state = closed }) ps refl))

  -- Well formed, and without a forgotten page.
  abbrev pub IsAccounted : Pool → Trace → Type 0
  IsAccounted s t = IsWellFormed s × IsTracked h s t

  quiet :
      (e : Event) (s : Pool) (t : Trace)
      → is_quiet e ≡ true
      → IsTracked h s t
      → IsTracked h s (e ∷ t)
  quiet clock_read s t q k = k
  quiet ticked s t q k = k
  quiet slept s t q k = k
  quiet (page_probed p) s t q k = k
  quiet (page_checked p) s t q k = k
  quiet _ s t q k = cc

  module _ (d : Driver) (cfg : PoolConfig) where
    add_page-IsTracked :
        (s : Pool) (t : Trace)
        → IsAccounted s t
        → IsTracked h (add_page d cfg s t).1 (add_page d cfg s t).2
    unfolding add_page
    add_page-IsTracked s t (w, k) = elim (create_and_init_page-Opened d cfg s t) [
      | inl (x, r, q, o) ↦ rw (r, add_page, q) (omega (arith, o, k))
      | inr (pp, r, q, o, u) ↦
          rw (r, add_page, q) (append-IsTracked s pp t (create_and_init_page d cfg s t).2 w o u k)
    ]

    grow-IsTracked :
        (s : Pool) (t : Trace) → IsAccounted s t → IsTracked h (grow d cfg s t).1 (grow d cfg s t).2
    unfolding grow
    grow-IsTracked s t (w, k) = elim (create_and_init_page-Opened d cfg s t) [
      | inl (x, r, q, o) ↦ rw (r, grow, q) (omega (arith, o, k))
      | inr (pp, r, q, o, u) ↦
          let t' = (create_and_init_page d cfg s t).2 in
          rw (r, grow, q)
            (claim-IsTracked s.next (d.now t') (append_page s.next (alloc pp s)) (clock_read ∷ t')
              (append-IsTracked s pp t (clock_read ∷ t') w o u k))
    ]

    replace_page-IsTracked :
        (p : ℕ) (s : Pool) (t : Trace)
        → IsAccounted s t
        → IsTracked h (replace_page d cfg p s t).0 (replace_page d cfg p s t).1
    unfolding replace_page
    replace_page-IsTracked p s t (w, k) =
        let (s1, t1) = remove_page_locked p s t in
        let w1 = remove_page_locked-IsWellFormed p s t w in
        let k1 = remove_page_locked-IsTracked p s t k in
        elim (create_and_init_page-Opened d cfg s1 t1) [
          | inl (x, r, q, o) ↦ rw (r, replace_page, q) (omega (arith, o, k1))
          | inr (pp, r, q, o, u) ↦
              rw (r, replace_page, q)
                (append-IsTracked s1 pp t1 (create_and_init_page d cfg s1 t1).2 w1 o u k1)
        ]

    -- Close closes every page of the slice.
    pub close-releases :
        (s : Pool) (t : Trace)
        → IsTracked h s t
        → let t' = (close d cfg s t).1 in opened h t' ≤ released h t'
    unfolding close
    close-releases s t k = close_all-releases d cfg s.pages _ t k

    close_all-pages :
        (ps : List ℕ) (s : Pool) (t : Trace) → (close_all d cfg ps s t).0.pages ≡ s.pages
    unfolding close_all
    close_all-pages [] s t = refl
    close_all-pages (p ∷ ps) s t = close_all-pages ps _ _

    clears-IsTracked :
        (s : Pool) (t : Trace)
        → IsTracked h s t
        → let (s', t') = close_all d cfg s.pages (record s { pages = [] }) t in
          IsTracked h (record s' { counter = reset s'.counter }) t'
    clears-IsTracked s t k =
        rw (close_all-pages s.pages (record s { pages = [] }) t)
          (omega (arith, close_all-releases d cfg s.pages (record s { pages = [] }) t k))

    pub IsAccounted-Keeps : Keeps d cfg IsAccounted
    unfolding touch release set_state close
    IsAccounted-Keeps =
        let w = IsWellFormed-Keeps d cfg in
        record {
          asks = λ e s t q k. (w.asks e s t q k.0, quiet e s t q k.1);
          counts = λ c s t k. (w.counts c s t k.0, k.1);
          runs_loops = λ a b s t k. (w.runs_loops a b s t k.0, k.1);
          touches = λ p now s t k. (w.touches p now s t k.0, update-IsTracked p _ s t refl k.1);
          frees = λ p s t k. (w.frees p s t k.0, update-IsTracked p _ s t refl k.1);
          retires = λ p s t k. (w.retires p s t k.0, update-IsTracked p _ s t refl k.1);
          adds = λ s t k. (w.adds s t k.0, add_page-IsTracked s t k);
          grows = λ s t k. (w.grows s t k.0, grow-IsTracked s t k);
          removes = λ p s t k. (w.removes p s t k.0, remove_page_locked-IsTracked p s t k.1);
          replaces = λ p s t k. (w.replaces p s t k.0, replace_page-IsTracked p s t k);
          closes = λ s t k. (w.closes s t k.0, omega (arith, close-releases s t k.1));
          clears = λ s t k. (w.clears s t k.0, clears-IsTracked s t k.1);
        }
