-- ===== src/Pool/Interleaving/Bound.antt =====
-- pool.go: how far calls of Acquire at once can take a pool beyond MaxPages.
use browserpm.Common.{ℕ, zero, suc, ◌+◌, ◌≤◌, ◌<◌, ◌≡◌, refl, ◌⊎◌, inl, inr, arith}
use browserpm.Common.Turns.{enter, total, total-enter, total-zero}
use browserpm.Common.Int.{pos_part}
use browserpm.Config.{PoolConfig}
use browserpm.Driver.{Driver, Trace}
use browserpm.Pool.Page.{Pool, release}
use browserpm.Pool.Observe.{size}
use browserpm.Pool.Bounds.{try_acquire-size, grow-size, spin_round-size}
use browserpm.Pool.Sizes.{remove_page_locked-size}
use browserpm.Pool.Interleaving.{
  Phase, outside, growing, spinning, holding, System, look, finish_growth, spin_once, advance,
  take_turn, Step, turn, removal, Reach, here, later,
}

-- A goroutine that is about to add a page.
abbrev weight : Phase → ℕ
weight growing = 1
weight _ = 0

-- How many of the first `n` goroutines are about to add a page.
abbrev pub growers : ℕ → (ℕ → Phase) → ℕ
growers n f = total weight n f

growers-le : (n : ℕ) (f : ℕ → Phase) → growers n f ≤ n
growers-le zero f = omega arith
growers-le (suc n) f = ground (arith, growers-le n f)

release-size : (p : ℕ) (s : Pool) → size (release p s) ≡ size s
unfolding release size
release-size p s = refl

module _ (d : Driver) (cfg : PoolConfig) (n : ℕ) where
  -- In one turn a goroutine adds no page that it had not announced, and announces one only if there is
  -- room for it.
  advance-size :
      (deadline : ℕ) (x : Phase) (s : Pool) (t : Trace)
      → let (x', s', t') = advance d cfg deadline x s t in
        (size s' + weight x' ≤ size s + weight x)
        ⊎ ((size s' ≡ size s)
            × (weight x' ≡ 1)
            × (weight x ≡ 0)
            × (size s < pos_part cfg.max_pages))
  unfolding advance look finish_growth spin_once
  advance-size deadline outside s t = ground (arith, try_acquire-size d cfg s t)
  advance-size deadline growing s t = ground (arith, grow-size d cfg s t)
  advance-size deadline (spinning until) s t = ground (arith, spin_round-size d cfg until s t)
  advance-size deadline (holding p) s t = ground (arith, release-size p s)

  -- The pages and the pages to come are fewer than MaxPages and the goroutines together.
  abbrev IsWithin : System → Type 0
  IsWithin u = size u.pool + growers n u.phase < pos_part cfg.max_pages + n

  Step-IsWithin : {u v : System} → Step d cfg n u v → IsWithin u → IsWithin v
  unfolding take_turn
  Step-IsWithin {u} (turn deadline i l) h =
      let (x, s, t) = advance d cfg deadline (u.phase i) u.pool u.trace in
      elim (advance-size deadline (u.phase i) u.pool u.trace) [
        | inl fewer ↦ omega (arith, h, total-enter weight n i u.phase x l)
        | inr (same, one, before, room) ↦
            omega (arith, h, same, room, growers-le n (enter u.phase i x))
      ]
  Step-IsWithin {u} (removal p) h = omega (arith, h, remove_page_locked-size p u.pool u.trace)

  Reach-IsWithin : {u v : System} → Reach d cfg n u v → IsWithin u → IsWithin v
  Reach-IsWithin here h = h
  Reach-IsWithin (later r st) h = Step-IsWithin st (Reach-IsWithin r h)

-- However `n` goroutines interleave their calls of Acquire and Release, from a pool within MaxPages in
-- which none of them is in Acquire, the pool stays below MaxPages plus `n` pages: it exceeds MaxPages
-- by at most one page less than there are goroutines.
pub Reach-size :
    (d : Driver) (cfg : PoolConfig) (n : ℕ) (s : Pool) (t : Trace) (v : System)
    → 0 < n
    → size s ≤ pos_part cfg.max_pages
    → Reach d cfg n (record { pool = s; trace = t; phase = λ i. outside }) v
    → size v.pool < pos_part cfg.max_pages + n
Reach-size d cfg n s t v some_goroutine b r =
    omega (arith, Reach-IsWithin d cfg n r (omega (arith, b, total-zero weight n outside refl)))
