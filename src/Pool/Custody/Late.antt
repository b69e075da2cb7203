-- ===== src/Pool/Custody/Late.antt =====
-- pool.go: a page that a goroutine creates while another one closes the pool stays open.
use browserpm.Common.{
  ℕ, suc, ◌+◌, ◌<◌, ◌≡◌, refl, ◌∙◌, inl, inr, subst, true, false, List, [], ◌∷◌, arith, All,
}
use browserpm.Errors.{ok}
use browserpm.Config.{PoolConfig}
use browserpm.Driver.{Driver, Trace, Serves, opened, released}
use browserpm.Pool.Page.{Pool, update, set_state, append_page, alloc}
use browserpm.Pool.Create.{create_and_init_page}
use browserpm.Pool.Remove.{close, close_all}
use browserpm.Pool.Leaks.{listed, create_and_init_page-Opened}
use browserpm.Pool.Sizes.{create_and_init_page-ok}
use browserpm.Pool.Custody.{
  outside, creating, carrying, System, create_turn, append_turn, close_turn, moved,
}
use browserpm.Pool.Custody.Turns.{close_all-released, listed-agree, alloc-page}

module _ (d : Driver) (cfg : PoolConfig) where
  -- The steps of goroutines that do nothing but add a page to the pool, or close it: each is what the code
  -- does, and nothing else changes the pool or the trace.
  pub data ExactStep (n : ℕ) (u : System) : System → Type 0 where
    begins :
        (i : ℕ)
        → i < n
        → u.phase i ≡ outside
        → ExactStep n u (moved i u.phase (creating, u.pool, u.trace))
    creates :
        (i : ℕ)
        → i < n
        → u.phase i ≡ creating
        → ExactStep n u (moved i u.phase (create_turn d cfg u.pool u.trace))
    appends :
        (i p : ℕ)
        → i < n
        → u.phase i ≡ carrying p
        → ExactStep n u (moved i u.phase (append_turn d cfg p u.pool u.trace))
    closes :
        (i : ℕ)
        → i < n
        → u.phase i ≡ outside
        → ExactStep n u (moved i u.phase (close_turn d cfg u.pool u.trace))

  pub data ExactReach (n : ℕ) (u : System) : System → Type 0 where
    here : ExactReach n u u
    later : {v w : System} → ExactReach n u v → ExactStep n v w → ExactReach n u w

  close_all-is_cancelled :
      (ps : List ℕ) (s : Pool) (t : Trace)
      → (close_all d cfg ps s t).0.is_cancelled ≡ s.is_cancelled
  unfolding close_all set_state
  close_all-is_cancelled [] s t = refl
  close_all-is_cancelled (p ∷ ps) s t = close_all-is_cancelled ps _ _

  -- What Close leaves: an empty slice and cancelled loops. Its calls close the pages that were listed.
  close-leaves :
      (s : Pool) (t : Trace)
      → let (s', t') = close d cfg s t in
        (s'.is_cancelled ≡ true)
        × (s'.pages ≡ [])
        × ((p : ℕ) → (s'.store p).page ≡ (s.store p).page)
        × ((h : ℕ)
            → (opened h t' ≡ opened h t)
              × (released h t' ≡ released h t + listed h s.store s.pages))
  unfolding close
  close-leaves s t =
      let stopped : Pool = record s {
        is_cancelled = true;
        checker_runs = false;
        reaper_runs = false;
      } in
      (
        close_all-is_cancelled s.pages stopped t,
        refl,
        (close_all-released 0 d cfg s.pages stopped t).3,
        λ h. let (o, r, n, k) = close_all-released h d cfg s.pages stopped t in (o, r),
      )

  -- If exactly the listed pages are open, a goroutine that creates a page and another that closes the
  -- pool before the page is listed leave one page open.
  close-create_open :
      (s : Pool) (t : Trace) (p : ℕ)
      → All (λ p. p < s.next) s.pages
      → ((h : ℕ) → opened h t ≡ released h t + listed h s.store s.pages)
      → (create_and_init_page d cfg s t).0 ≡ ok p
      → let (r, s1, t1) = create_and_init_page d cfg s t in
        let (s2, t2) = close d cfg s1 t1 in
        let h = (s2.store p).page in opened h t2 ≡ suc (released h t2)
  unfolding alloc
  close-create_open s t p below exact e =
      let (r, s1, t1) = create_and_init_page d cfg s t in
      let (s2, t2) = close d cfg s1 t1 in
      let h = (s2.store p).page in
      let (c, q, same, calls) = close-leaves s1 t1 in
      let (o2, r2) = calls h in
      elim (create_and_init_page-Opened h d cfg s t) [
        | inl (x, f, g, o) ↦ ground (arith, e, f)
        | inr (pp, f, g, o, u) ↦
            let is_new : p ≡ s.next = cc in
            let there : h ≡ pp.page = same p ∙ rw (g, is_new) (ground arith) in
            let others_same : (k : ℕ) → listed k s1.store s1.pages ≡ listed k s.store s.pages = λ k.
              rw g (
                listed-agree k s.next s.store (update s.store s.next pp) s.pages
                  (λ p l. alloc-page pp s p l) below) in
            let new_one : opened h t1 ≡ suc (opened h t) = ground (arith, o, there) in
            omega (arith, o2, r2, u, new_one, others_same h, exact h)
      ]

  -- Suppose that exactly the listed pages are open, and that the browser serves. Then a goroutine that
  -- adds a page and another one that closes the pool can leave the pool in this state: both are done,
  -- the pool is closed and lists one page, and that page is open, since neither of them has closed it.
  -- Only steps of such calls are taken.
  pub late :
      (s : Pool) (t : Trace)
      → Serves d
      → All (λ p. p < s.next) s.pages
      → ((h : ℕ) → opened h t ≡ released h t + listed h s.store s.pages)
      → (v : System) × (p : ℕ) × ExactReach 2
          (record { pool = s; trace = t; phase = λ i. outside })
          v
        × ((i : ℕ) → v.phase i ≡ outside)
        × ((v.pool).is_cancelled ≡ true)
        × ((v.pool).pages ≡ p ∷ [])
        × (let h = ((v.pool).store p).page in opened h v.trace ≡ suc (released h v.trace))
  late s t serves below exact =
      let (p, e) = create_and_init_page-ok d cfg serves s t in
      let (r, s1, t1) = create_and_init_page d cfg s t in
      let u0 : System = record { pool = s; trace = t; phase = λ i. outside } in
      let u1 = moved 0 u0.phase (creating, s, t) in
      let u2 = moved 0 u1.phase (carrying p, s1, t1) in
      let u3 = moved 1 u2.phase (close_turn d cfg s1 t1) in
      let u4 = moved 0 u3.phase (append_turn d cfg p u3.pool u3.trace) in
      let r1 : ExactReach 2 u0 u1 = later here (begins 0 (omega arith) refl) in
      let created : create_turn d cfg s t ≡ (carrying p, s1, t1) =
        unfold create_turn in rw e refl in
      let r2 : ExactReach 2 u0 u2 =
        subst (λ x. ExactReach 2 u0 (moved 0 u1.phase x)) created
          (later r1 (creates 0 (omega arith) refl)) in
      let r3 : ExactReach 2 u0 u3 = later r2 (closes 1 (omega arith) refl) in
      let r4 : ExactReach 2 u0 u4 =
        later r3 (appends 0 p (omega arith) (unfold close_turn in refl)) in
      let (c, q, same, calls) = close-leaves s1 t1 in
      (
        u4,
        p,
        r4,
        λ i. unfold append_turn close_turn in ground arith,
        unfold append_turn append_page close_turn in c,
        unfold append_turn append_page close_turn in rw q refl,
        unfold append_turn append_page close_turn in close-create_open s t p below exact e,
      )
