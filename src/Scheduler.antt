-- ===== src/Scheduler.antt =====
-- scheduler.go: the round-robin scheduler. The counter is an atomic uint64, here a number below
-- 2 ^ 64 whose increment wraps around; the strategy's name chooses nothing, as in NewScheduler.
pub mod Fairness
use browserpm.Common.{
  ℕ, ◌+◌, ◌%◌, ◌≡◌, Option, none, List, length, get_elem?, ◌==◌, if◌then◌else◌, String,
}
use browserpm.Common.Int.{word}

-- Of the counter, `s.counter.Add(1) - 1`; both operations wrap around.
pub counter_add : ℕ → ℕ
counter_add c = word (c + 1)

pub index_of : ℕ → ℕ
index_of added = word (added + 18446744073709551615)

-- (*RoundRobinScheduler).Select: the choice, `none` for nil, and the counter afterwards.
unfoldable pub select {ℓ} : {A : Type ℓ} → ℕ → List A → Option A × ℕ
unfolding counter_add index_of
select c pages =
    if length pages == 0
    then (none, c)
    else (get_elem? pages (index_of (counter_add c) % length pages), counter_add c)

-- (*RoundRobinScheduler).Reset.
unfoldable pub reset : ℕ → ℕ
reset c = 0

-- NewScheduler: the counter of a new scheduler, whatever the strategy.
unfoldable pub new_scheduler : String → ℕ
new_scheduler strategy = 0
