-- ===== src/Pool/Interleaving/Overrun.antt =====
-- pool.go: calls of Acquire at once do exceed MaxPages.
use browserpm.Common.{
  ℕ, zero, suc, ◌+◌, ◌≤◌, ◌<◌, ◌≡◌, refl, ◌∙◌, false, none, List, [], ◌∷◌, arith, All, keep_if, ltb,
  ◌==◌, if◌then◌else◌,
}
use browserpm.Common.Int.{pos_part}
use browserpm.Errors.{ok}
use browserpm.Config.{PoolConfig}
use browserpm.Driver.{Driver, Trace, Serves}
use browserpm.Scheduler.{select}
use browserpm.Pool.Page.{Pool, is_idle, is_available}
use browserpm.Pool.Select.{may_serve, select_available, try_acquire}
use browserpm.Pool.Acquire.{grow}
use browserpm.Pool.Observe.{size}
use browserpm.Pool.Bounds.{grow-size_ok}
use browserpm.Pool.Sizes.{create_and_init_page-ok}
use browserpm.Pool.Selection.{select_available-keep_if}
use browserpm.Pool.Interleaving.{
  outside, growing, System, look, finish_growth, advance, take_turn, turn, Reach, here, later,
}

-- No page of the slice is idle.
abbrev pub IsBusy : Pool → Type 0
IsBusy s = All (λ p. is_idle (s.store p).state ≡ false) s.pages

module _ (d : Driver) (cfg : PoolConfig) where
  keep_if-none :
      (now : ℕ) (s : Pool) (ps : List ℕ)
      → All (λ p. is_idle (s.store p).state ≡ false) ps
      → keep_if (may_serve cfg now s) ps ≡ []
  unfolding is_available
  keep_if-none now s [] a = refl
  keep_if-none now s (p ∷ ps) a = ground (arith, keep_if-none now s ps a.1)

  -- A goroutine that looks at a busy pool with room decides to create a page, and changes nothing.
  look-busy :
      (s : Pool) (t : Trace)
      → IsBusy s
      → size s < pos_part cfg.max_pages
      → ((look d cfg 0 s t).0 ≡ growing) × ((look d cfg 0 s t).1 ≡ s)
  unfolding look try_acquire size
  look-busy s t a h =
      let found : select_available cfg (d.now t) s ≡ (none, s.counter) =
        rw (select_available-keep_if cfg (d.now t) s, keep_if-none (d.now t) s s.pages a)
          (unfold select in refl) in
      ground (arith, found, h)

  take_turn-look :
      (k : ℕ) (v : System)
      → v.phase k ≡ outside
      → IsBusy v.pool
      → size v.pool < pos_part cfg.max_pages
      → ((take_turn d cfg 0 k v).pool ≡ v.pool)
        × ((i : ℕ) → (take_turn d cfg 0 k v).phase i ≡ (if k == i then growing else v.phase i))
  unfolding take_turn advance
  take_turn-look k v o a h =
      let (x, q) = look-busy v.pool v.trace a h in (rw (o, advance) q, λ i. ground (arith, o, x))

  -- The first `k` goroutines have looked at the busy pool, and are all about to add a page.
  looks :
      (n : ℕ) (s : Pool) (t : Trace)
      → IsBusy s
      → size s < pos_part cfg.max_pages
      → (k : ℕ) → k ≤ n
      → (v : System) × Reach d cfg n (record { pool = s; trace = t; phase = λ i. outside }) v
        × (v.pool ≡ s)
        × ((i : ℕ) → v.phase i ≡ (if ltb i k then growing else outside))
  looks n s t a h zero l = (_, here, refl, λ i. ground arith)
  looks n s t a h (suc k) l =
      let (v, r, p, f) = looks n s t a h k (omega arith) in
      let (q, g) = take_turn-look k v (ground (arith, f k)) (rw p a) (rw p h) in
      (
        take_turn d cfg 0 k v,
        later r (turn 0 k (omega arith)),
        q ∙ p,
        λ i. ground (arith, f i, g i),
      )

  module _ (serves : Serves d) where
    take_turn-grow :
        (k : ℕ) (v : System)
        → v.phase k ≡ growing
        → (size (take_turn d cfg 0 k v).pool ≡ suc (size v.pool))
          × ((i : ℕ) → k < i → (take_turn d cfg 0 k v).phase i ≡ v.phase i)
    unfolding take_turn advance finish_growth grow
    take_turn-grow k v o =
        let (p, e) = create_and_init_page-ok d cfg serves v.pool v.trace in
        let done : (grow d cfg v.pool v.trace).0 ≡ ok p = rw (e, grow) refl in
        (rw (o, advance) (grow-size_ok d cfg v.pool v.trace p done), λ i l. ground arith)

    -- The first `k` of the goroutines that are about to add a page have added it.
    grows :
        (n : ℕ) (u v : System)
        → Reach d cfg n u v
        → ((i : ℕ) → i < n → v.phase i ≡ growing)
        → (k : ℕ) → k ≤ n
        → (w : System) × Reach d cfg n u w
          × (size w.pool ≡ size v.pool + k)
          × ((i : ℕ) → k ≤ i → w.phase i ≡ v.phase i)
    grows n u v r f zero l = (v, r, omega arith, λ i m. refl)
    grows n u v r f (suc k) l =
        let (w, r', q, g) = grows n u v r f k (omega arith) in
        let (q', g') = take_turn-grow k w (g k (omega arith) ∙ f k l) in
        (
          take_turn d cfg 0 k w,
          later r' (turn 0 k l),
          omega (arith, q, q'),
          λ i m. g' i m ∙ g i (omega arith),
        )

    -- The bound is reached: if no page of a pool with room is idle and the browser serves, then `n`
    -- goroutines that call Acquire at once can all add a page, also where there was room for one only.
    pub overrun :
        (n : ℕ) (s : Pool) (t : Trace)
        → IsBusy s
        → size s < pos_part cfg.max_pages
        → (w : System) × Reach d cfg n (record { pool = s; trace = t; phase = λ i. outside }) w
          × (size w.pool ≡ size s + n)
    overrun n s t a h =
        let (v, r, p, f) = looks n s t a h n (omega arith) in
        let (w, r', q, g) = grows n _ v r (λ i l. ground (arith, f i)) n (omega arith) in
        (w, r', rw p at q)
