-- ===== src/Pool/Acquired.antt =====
-- pool.go: what Acquire hands out, that it returns, and what Release takes back.
use browserpm.Common.{
  ℕ, zero, suc, ◌-◌, ◌≤◌, ◌<◌, ◌≡◌, ◌≢◌, refl, ap, ◌⊎◌, inl, inr, true, Option, none, some,
  Option-cases, List, [], ◌∷◌, ◌++◌, arith, length, has, has-append,
}
use browserpm.Common.Int.{pos, pos_part, ◌+ℤ◌}
use browserpm.Errors.{Error, Outcome, ok, err, returned, hangs}
use browserpm.Config.{PoolConfig}
use browserpm.Driver.{Driver, Trace, IsClock, clock_read, ticked}
use browserpm.Pool.Page.{
  Pool, PoolPage, idle, is_idle, touch, claim, append_page, alloc, is_available,
}
use browserpm.Pool.Select.{select_available, try_acquire}
use browserpm.Pool.Acquire.{grow, spin_round, spin, wait_for_page, acquire}
use browserpm.Pool.Created.{create_and_init_page-Created}
use browserpm.Pool.Selection.{select_available-some}

-- A page as Acquire hands it out: it stands in the slice and is idle.
pub record IsHandedOut (s : Pool) (p : ℕ) : Type 0 where
  pub listed : has p s.pages ≡ true
  pub ready : is_idle (s.store p).state ≡ true

has-snoc : (p : ℕ) (ps : List ℕ) → has p (ps ++ (p ∷ [])) ≡ true
has-snoc p ps = ground (arith, has-append p ps (p ∷ []))

module _ (d : Driver) (cfg : PoolConfig) (s : Pool) (t : Trace) where
  -- tryAcquire either finds nothing, or counts an operation on an available page of the slice.
  abbrev Tried : (Option ℕ × ℕ) × Pool × Trace → Type 0
  Tried (r, s', t') =
      (c : ℕ) × (((r ≡ (none, length s.pages)) × (s' ≡ record s { counter = c }))
        ⊎ ((p : ℕ) × (r ≡ (some p, length s.pages))
            × (s' ≡ touch p (d.now t) (record s { counter = c }))
            × (has p s.pages ≡ true)
            × (is_available cfg (d.now t) (s.store p) ≡ true)))

  pub try_acquire-Tried : Tried (try_acquire cfg d s t)
  unfolding try_acquire
  try_acquire-Tried = elim (Option-cases (select_available cfg (d.now t) s).0) [
    | inl e ↦ ((select_available cfg (d.now t) s).1, rw (e, try_acquire) (inl (refl, refl)))
    | inr (p, e) ↦
        let (m, a) = select_available-some cfg (d.now t) s p e in
        ((select_available cfg (d.now t) s).1, rw (e, try_acquire) (inr (p, refl, refl, m, a)))
  ]

  -- Growth either fails and leaves the pool as it was, or appends a new idle page with one operation.
  abbrev Grown : Outcome ℕ × Pool × Trace → Type 0
  Grown (r, s', t') =
      ((e : Error) × (r ≡ err e) × (s' ≡ s))
      ⊎ ((pp : PoolPage) × (now : ℕ) × (r ≡ ok s.next)
          × (s' ≡ append_page s.next (claim s.next now (alloc pp s)))
          × (pp.state ≡ idle)
          × (pp.active_ops ≡ 0)
          × (pp.use_count ≡ 0))

  pub grow-Grown : Grown (grow d cfg s t)
  unfolding grow
  grow-Grown = elim (create_and_init_page-Created d cfg s t) [
    | inl (x, r, q) ↦ rw (r, grow) (inl (x, refl, q))
    | inr (pp, r, q, i, a, u) ↦ rw (r, grow, q) (inr (pp, _, refl, refl, i, a, u))
  ]

is_available-idle :
    (cfg : PoolConfig) (now : ℕ) (pp : PoolPage)
    → is_available cfg now pp ≡ true
    → is_idle pp.state ≡ true
unfolding is_available
is_available-idle cfg now pp h = ground arith

touch-IsHandedOut :
    (s : Pool) (p now : ℕ)
    → has p s.pages ≡ true
    → is_idle (s.store p).state ≡ true
    → IsHandedOut (touch p now s) p
unfolding touch
touch-IsHandedOut s p now m i = record { listed = m; ready = ground arith }

grown-IsHandedOut :
    (s : Pool) (pp : PoolPage) (now : ℕ)
    → pp.state ≡ idle
    → IsHandedOut (append_page s.next (claim s.next now (alloc pp s))) s.next
unfolding append_page claim alloc
grown-IsHandedOut s pp now i = record { listed = has-snoc s.next s.pages; ready = ground arith }

module _ (d : Driver) (cfg : PoolConfig) where
  try_acquire-IsHandedOut :
      (s : Pool) (t : Trace) (p : ℕ)
      → (try_acquire cfg d s t).0.0 ≡ some p
      → IsHandedOut (try_acquire cfg d s t).1 p
  try_acquire-IsHandedOut s t p h =
      let (c, tried) = try_acquire-Tried d cfg s t in
      elim tried [
        | inl (r, q) ↦ cc (ap (λ (x : Option ℕ × ℕ). x.0) r)
        | inr (p', r, q, m, a) ↦
            let e : p ≡ p' = cc (ap (λ (x : Option ℕ × ℕ). x.0) r) in
            rw (q, e)
              (touch-IsHandedOut (record s { counter = c }) p' _ m
                (is_available-idle cfg _ (s.store p') a))
      ]

  grow-IsHandedOut :
      (s : Pool) (t : Trace) (p : ℕ) → (grow d cfg s t).0 ≡ ok p → IsHandedOut (grow d cfg s t).1 p
  grow-IsHandedOut s t p h = elim (grow-Grown d cfg s t) [
    | inl (x, r, q) ↦ cc
    | inr (pp, now, r, q, i, a, u) ↦
        let e : p ≡ s.next = cc in rw (q, e) (grown-IsHandedOut s pp now i)
  ]

  spin_round-IsHandedOut :
      (deadline : ℕ) (s : Pool) (t : Trace) (p : ℕ)
      → (spin_round d cfg deadline s t).0 ≡ some (ok p)
      → IsHandedOut (spin_round d cfg deadline s t).1 p
  unfolding spin_round
  spin_round-IsHandedOut deadline s t p h =
      ground (arith, try_acquire-IsHandedOut s (clock_read ∷ t) p)

  -- A round that does not end the loop found the clock at or before the deadline, and read it twice.
  spin_round-again :
      (deadline : ℕ) (s : Pool) (t : Trace)
      → (spin_round d cfg deadline s t).0 ≡ none
      → (d.now t ≤ deadline) × ((spin_round d cfg deadline s t).2 ≡ clock_read ∷ clock_read ∷ t)
  unfolding spin_round try_acquire
  spin_round-again deadline s t h = ground arith

module _ (d : Driver) (cfg : PoolConfig) (others : Pool → Trace → Pool) where
  spin-IsHandedOut :
      (fuel deadline : ℕ) (s : Pool) (t : Trace) (p : ℕ)
      → (spin d cfg others fuel deadline s t).0 ≡ returned (ok p)
      → IsHandedOut (spin d cfg others fuel deadline s t).1 p
  unfolding spin
  spin-IsHandedOut zero deadline s t p h = cc
  spin-IsHandedOut (suc fuel) deadline s t p h =
      let t_tick : Trace = ticked ∷ t in
      let (r, s', t') = spin_round d cfg deadline (others s t_tick) t_tick in
      ground (
        arith,
        spin_round-IsHandedOut d cfg deadline (others s t_tick) t_tick p,
        spin-IsHandedOut fuel deadline s' t' p,
      )

  wait_for_page-IsHandedOut :
      (deadline : Option ℕ) (s : Pool) (t : Trace) (p : ℕ)
      → (wait_for_page d cfg others deadline s t).0 ≡ returned (ok p)
      → IsHandedOut (wait_for_page d cfg others deadline s t).1 p
  unfolding wait_for_page
  wait_for_page-IsHandedOut (some deadline) s t p h = spin-IsHandedOut _ deadline s t p h
  wait_for_page-IsHandedOut none s t p h = spin-IsHandedOut _ _ s (clock_read ∷ t) p h

  -- Whatever path Acquire takes, and whatever the other goroutines do while it waits, the page that
  -- it returns stands in the pool's slice and is idle.
  pub acquire-IsHandedOut :
      (deadline : Option ℕ) (s : Pool) (t : Trace) (p : ℕ)
      → (acquire d cfg others deadline s t).0 ≡ returned (ok p)
      → IsHandedOut (acquire d cfg others deadline s t).1 p
  unfolding acquire
  acquire-IsHandedOut deadline s t p h =
      let (r, s', t') = try_acquire cfg d s t in
      ground (
        arith,
        try_acquire-IsHandedOut d cfg s t p,
        grow-IsHandedOut d cfg s' t' p,
        wait_for_page-IsHandedOut deadline s' t' p,
      )

  module _ (clock : IsClock d.now) where
    spin_returns :
        (fuel deadline : ℕ) (s : Pool) (t : Trace)
        → suc deadline - d.now t < fuel
        → (spin d cfg others fuel deadline s t).0 ≢ hangs
    unfolding spin
    spin_returns zero deadline s t h = elim h [ ]
    spin_returns (suc fuel) deadline s t h =
        let t_tick : Trace = ticked ∷ t in
        let (r, s', t') = spin_round d cfg deadline (others s t_tick) t_tick in
        ground (
          arith,
          spin_round-again d cfg deadline (others s t_tick) t_tick,
          clock.tick_passes t,
          clock.forward clock_read t_tick,
          clock.forward clock_read (clock_read ∷ t_tick),
          spin_returns fuel deadline s' t',
        )

    wait_for_page_returns :
        (deadline : Option ℕ) (s : Pool) (t : Trace)
        → (wait_for_page d cfg others deadline s t).0 ≢ hangs
    unfolding wait_for_page
    wait_for_page_returns (some deadline) s t = spin_returns _ deadline s t (omega arith)
    wait_for_page_returns none s t =
        spin_returns _ (pos_part (pos (d.now t) +ℤ cfg.operation_timeout)) s (clock_read ∷ t)
          (omega arith)

    -- Acquire always returns, whatever the other goroutines do to the pool: if time passes at every
    -- tick, then the deadline ends the loop.
    pub acquire_returns :
        (deadline : Option ℕ) (s : Pool) (t : Trace) → (acquire d cfg others deadline s t).0 ≢ hangs
    unfolding acquire
    acquire_returns deadline s t =
        let (r, s', t') = try_acquire cfg d s t in
        ground (arith, wait_for_page_returns deadline s' t')
