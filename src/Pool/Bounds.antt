-- ===== src/Pool/Bounds.antt =====
-- pool.go: the pool's size stays within MaxPages while Acquire grows it, and Start fills it.
use browserpm.Common.{
  ℕ, zero, suc, ◌+◌, ◌≤◌, ◌<◌, ◌≡◌, refl, ap, inl, inr, Option, none, some, ◌∷◌, [], arith,
  length-append,
}
use browserpm.Common.Int.{pos, pos_part, ◌≤ℤ◌}
use browserpm.Errors.{Error, ok}
use browserpm.Config.{PoolConfig}
use browserpm.Driver.{Driver, Trace, clock_read, ticked}
use browserpm.Pool.Page.{Pool, PoolPage, touch, claim, alloc, append_page}
use browserpm.Pool.Create.{warm_up}
use browserpm.Pool.Select.{try_acquire}
use browserpm.Pool.Acquire.{grow, spin_round, spin, wait_for_page, acquire}
use browserpm.Pool.Observe.{size}
use browserpm.Pool.Health.{start}
use browserpm.Pool.Acquired.{try_acquire-Tried, grow-Grown}
use browserpm.Pool.Sizes.{warm_up_loop-size}

abbrev pub IsBounded : PoolConfig → Pool → Type 0
IsBounded cfg s = pos (size s) ≤ℤ cfg.max_pages

touch-size : (p now : ℕ) (s : Pool) → size (touch p now s) ≡ size s
unfolding touch size
touch-size p now s = refl

grown-size : (s : Pool) (p q now : ℕ) → size (append_page p (claim q now s)) ≡ suc (size s)
unfolding append_page claim size
grown-size s p q now = omega (arith, length-append s.pages (p ∷ []))

alloc-size : (s : Pool) (pp : PoolPage) → size (alloc pp s) ≡ size s
unfolding alloc size
alloc-size s pp = refl

module _ (d : Driver) (cfg : PoolConfig) where
  -- tryAcquire leaves the number of pages as it is and returns it.
  pub try_acquire-size :
      (s : Pool) (t : Trace)
      → let ((found, n), s', t') = try_acquire cfg d s t in (size s' ≡ size s) × (n ≡ size s)
  unfolding size
  try_acquire-size s t =
      let (c, tried) = try_acquire-Tried d cfg s t in
      elim tried [
        | inl (r, e) ↦ (rw e refl, ap (λ (x : Option ℕ × ℕ). x.1) r)
        | inr (p, r, e, m, a) ↦ (
          rw e (touch-size p (d.now t) (record s { counter = c })),
          ap (λ (x : Option ℕ × ℕ). x.1) r,
        )
      ]

  pub grow-size : (s : Pool) (t : Trace) → size (grow d cfg s t).1 ≤ suc (size s)
  unfolding size
  grow-size s t = elim (grow-Grown d cfg s t) [
    | inl (x, r, e) ↦ rw e (omega arith)
    | inr (pp, now, r, e, i, a, u) ↦
        rw e (omega (arith, grown-size (alloc pp s) s.next s.next now, alloc-size s pp))
  ]

  -- Growth that succeeds adds one page.
  pub grow-size_ok :
      (s : Pool) (t : Trace) (p : ℕ)
      → (grow d cfg s t).0 ≡ ok p
      → size (grow d cfg s t).1 ≡ suc (size s)
  unfolding size
  grow-size_ok s t p h = elim (grow-Grown d cfg s t) [
    | inl (x, r, e) ↦ cc
    | inr (pp, now, r, e, i, a, u) ↦
        rw e (omega (arith, grown-size (alloc pp s) s.next s.next now, alloc-size s pp))
  ]

  pub spin_round-size :
      (deadline : ℕ) (s : Pool) (t : Trace) → size (spin_round d cfg deadline s t).1 ≡ size s
  unfolding spin_round
  spin_round-size deadline s t = ground (arith, try_acquire-size s (clock_read ∷ t))

module _ (d : Driver) (cfg : PoolConfig) (others : Pool → Trace → Pool)
    (rely : (s : Pool) (t : Trace) → IsBounded cfg s → IsBounded cfg (others s t)) where
  spin-IsBounded :
      (fuel deadline : ℕ) (s : Pool) (t : Trace)
      → IsBounded cfg s
      → IsBounded cfg (spin d cfg others fuel deadline s t).1
  unfolding spin
  spin-IsBounded zero deadline s t b = b
  spin-IsBounded (suc fuel) deadline s t b =
      let t_tick : Trace = ticked ∷ t in
      let b_tick = rely s t_tick b in
      let s_tick = others s t_tick in
      let (r, s', t') = spin_round d cfg deadline s_tick t_tick in
      let same = spin_round-size d cfg deadline s_tick t_tick in
      let b' : IsBounded cfg s' = omega (arith, b_tick, same) in
      ground (arith, b_tick, b', spin-IsBounded fuel deadline s' t' b')

  wait_for_page-IsBounded :
      (deadline : Option ℕ) (s : Pool) (t : Trace)
      → IsBounded cfg s
      → IsBounded cfg (wait_for_page d cfg others deadline s t).1
  unfolding wait_for_page
  wait_for_page-IsBounded (some deadline) s t b = spin-IsBounded _ deadline s t b
  wait_for_page-IsBounded none s t b = spin-IsBounded _ _ s (clock_read ∷ t) b

  -- Acquire never takes a pool beyond MaxPages by itself: if no other goroutine does so while it waits,
  -- and the pool is within the bound before, then it is so afterwards.
  pub acquire-IsBounded :
      (deadline : Option ℕ) (s : Pool) (t : Trace)
      → IsBounded cfg s
      → IsBounded cfg (acquire d cfg others deadline s t).1
  unfolding acquire
  acquire-IsBounded deadline s t b =
      let ((found, n), s', t') = try_acquire cfg d s t in
      let (same, total) = try_acquire-size d cfg s t in
      let b' : IsBounded cfg s' = omega (arith, b, same) in
      ground
        (arith, same, total, b', grow-size d cfg s' t', wait_for_page-IsBounded deadline s' t' b')

-- When Start succeeds it has added MinPages pages; when it fails it has added fewer.
pub start-size :
    (d : Driver) (cfg : PoolConfig) (s : Pool) (t : Trace)
    → let (r, s', t') = start d cfg s t in
      ((r ≡ none) → size s' ≡ size s + pos_part cfg.min_pages)
      × ((e : Error) → r ≡ some e → size s' < size s + pos_part cfg.min_pages)
unfolding start warm_up size
start-size d cfg s t = ground (arith, warm_up_loop-size d cfg (pos_part cfg.min_pages) s t)
