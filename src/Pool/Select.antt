-- ===== src/Pool/Select.antt =====
-- pool.go: choosing an available page, and the fast path of Acquire.
use browserpm.Common.{
  ℕ, Bool, true, false, ◌&&◌, ltb, Option, none, some, List, [], ◌∷◌, length, keep_if,
  if◌then◌else◌,
}
use browserpm.Config.{PoolConfig}
use browserpm.Driver.{Driver, Trace, clock_read}
use browserpm.Scheduler.{select}
use browserpm.Pool.Page.{Pool, is_available, touch}

module _ (cfg : PoolConfig) where
  -- The test of one page of the slice.
  abbrev pub may_serve : ℕ → Pool → ℕ → Bool
  may_serve now s p = is_available cfg now (s.store p)

  -- The loop that stops at the first page that is not available.
  unfoldable pub all_available : ℕ → Pool → List ℕ → Bool
  all_available now s [] = true
  all_available now s (p ∷ ps) =
      let rest = all_available now s ps in if may_serve now s p then rest else false

  -- selectAvailable: the choice, and the scheduler's counter afterwards.
  unfoldable pub select_available : ℕ → Pool → Option ℕ × ℕ
  unfolding all_available
  select_available now s =
      if all_available now s s.pages && ltb 0 (length s.pages)
      then select s.counter s.pages
      else select s.counter (keep_if (may_serve now s) s.pages)

  module _ (d : Driver) where
    -- tryAcquire: the page, if any, and the number of pages.
    unfoldable pub try_acquire : Pool → Trace → (Option ℕ × ℕ) × Pool × Trace
    unfolding touch
    try_acquire s t =
        let now = d.now t in
        let (found, counter') = select_available now s in
        let s' : Pool = record s { counter = counter' } in
        let n = length s.pages in
        elim found [
          | none ↦ ((none, n), s', clock_read ∷ t)
          | some p ↦ ((some p, n), touch p now s', clock_read ∷ t)
        ]
