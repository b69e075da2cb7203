-- ===== src/Examples/Pages.antt =====
-- Tests of pool.go and health.go.
use browserpm.Common.{ℕ, ◌+◌, ◌≤◌, ◌≡◌, refl, not, none, some, [], ◌∷◌, arith, has, keep_if}
use browserpm.Common.Int.{pos, ◌≤ℤ◌, ◌-ℤ◌, wrap}
use browserpm.Errors.{ok, returned}
use browserpm.Scheduler.{select}
use browserpm.Pool.Page.{is_available, release}
use browserpm.Pool.Create.{create_and_init_page, init_pool_page}
use browserpm.Pool.Select.{may_serve, all_available, select_available, try_acquire}
use browserpm.Pool.Acquire.{grow, acquire}
use browserpm.Pool.Acquired.{IsHandedOut, acquire-IsHandedOut}
use browserpm.Pool.Remove.{remove_page_locked, replace_page}
use browserpm.Pool.Observe.{size}
use browserpm.Pool.Health.{run_reap}
use browserpm.Driver.{Trace}
use browserpm.Pool.Page.{Pool}
use browserpm.Pool.Create.{new_page_pool}
use browserpm.Pool.Invariant.{IsWellFormed}
use browserpm.Pool.History.{
  Operation, starts, reaps, closes, perform, fresh, step, IsReachable-IsWellFormed,
}
use browserpm.Common.{◌<◌, true}
use browserpm.Common.Turns.{total}
use browserpm.Pool.Custody
use browserpm.Pool.Custody.Turns.{held}
use browserpm.Pool.Custody.Pages.{Reach-opened}
use browserpm.Pool.Custody.Late.{ExactReach, late}
use browserpm.Pool.Loops.{health_checker, reaper}
use browserpm.Pool.Loops.Ends.{background_ends}
use browserpm.Common.{suc, ◌-◌, leb, Bool}
use browserpm.Pool.Reaping.{is_due, run_reap-has}
use browserpm.Pool.Selection.{select_available-keep_if}
use browserpm.Pool.Sizes.{replace_page-size, one_if_ok, run_reap-size}
use browserpm.Pool.Accounting.{release-try_acquire}
use browserpm.Driver.{opened, released}
use browserpm.Pool.Remove.{close}
use browserpm.Pool.Leaks.{listed}
use browserpm.Pool.Conservation.{opened-close-le}
use browserpm.Pool.Interleaving.{System, outside, take_turn, turn, Reach, here, later}
use browserpm.Pool.Interleaving.Bound.{Reach-size}
use browserpm.Pool.Interleaving.Overrun.{overrun}
use browserpm.Common.{◌==◌, if◌then◌else◌}
use browserpm.Pool.Locks
use browserpm.Pool.Locks.Deadlock.{deadlock}
use browserpm.Examples.{
  good_driver, good_driver-Serves, clock-IsClock, small_config, two_pages, no_pages,
  two_pages-IsWellFormed, nobody,
}

select_available-keep_if_example :
    select_available small_config 100 two_pages
    ≡ select 0 (keep_if (may_serve small_config 100 two_pages) (0 ∷ 1 ∷ []))
select_available-keep_if_example = select_available-keep_if small_config 100 two_pages

tried : (try_acquire small_config good_driver two_pages []).0.0 ≡ some 1
unfolding try_acquire select_available all_available is_available select wrap ◌-ℤ◌
tried = refl

release-try_acquire_example :
    let s' = release 1 (try_acquire small_config good_driver two_pages []).1 in
    (s'.pages ≡ two_pages.pages)
    × ((q : ℕ) → (s'.store q).active_ops ≡ (two_pages.store q).active_ops)
release-try_acquire_example =
    release-try_acquire good_driver small_config two_pages [] 1 tried (omega arith)

grew : (grow good_driver small_config no_pages []).0 ≡ ok 2
unfolding grow create_and_init_page init_pool_page
grew = refl

acquired : (acquire good_driver small_config nobody.on_pool none no_pages []).0 ≡ returned (ok 2)
unfolding acquire try_acquire select_available all_available select grow create_and_init_page
    init_pool_page
acquired = refl

acquire-IsHandedOut_example :
    IsHandedOut (acquire good_driver small_config nobody.on_pool none no_pages []).1 2
acquire-IsHandedOut_example =
    acquire-IsHandedOut good_driver small_config nobody.on_pool none no_pages [] 2 acquired

run_reap-has_example :
    has 0 (run_reap good_driver small_config two_pages []).0.pages
    ≡ not (is_due small_config 100 (two_pages.store 0))
run_reap-has_example =
    run_reap-has good_driver small_config two_pages [] 0 two_pages-IsWellFormed refl

run_reap-size_example :
    let s' = (run_reap good_driver small_config two_pages []).0 in
    (size s' ≤ size two_pages) × (pos 1 ≤ℤ pos (size s'))
unfolding size
run_reap-size_example =
    run_reap-size good_driver small_config good_driver-Serves two_pages [] (omega arith)

replace_page-size_example :
    let (s1, t1) = remove_page_locked 5 two_pages [] in
    let created = (create_and_init_page good_driver small_config s1 t1).0 in
    size (replace_page good_driver small_config 5 two_pages []).0 + 0
    ≡ size two_pages + one_if_ok created
replace_page-size_example = replace_page-size good_driver small_config 5 two_pages []

-- A pool that was started, reaped and closed.
abbrev life : Operation → Pool × Trace → Pool × Trace
life o (s, t) = perform good_driver small_config nobody.on_pool o s t

abbrev ended : Pool × Trace
ended = life closes (life reaps (life starts (new_page_pool 1, [])))

IsReachable-IsWellFormed_example : IsWellFormed ended.0
IsReachable-IsWellFormed_example =
    IsReachable-IsWellFormed good_driver small_config nobody.on_pool (λ s t w. w) 1 [] ended.0
      ended.1 (step closes (step reaps (step starts fresh)))

abbrev started : Pool × Trace
started = life starts (new_page_pool 1, [])

opened-close-le_example :
    let t' = (close good_driver small_config started.0 started.1).1 in opened 5 t' ≤ released 5 t'
opened-close-le_example =
    opened-close-le good_driver small_config nobody.on_pool 5 (λ s t w. w) 1 [] (omega arith)
      started.0 started.1 (step starts fresh)

-- Three goroutines that are about to call Acquire on a pool without pages.
abbrev callers : System
callers = record { pool = no_pages; trace = []; phase = λ i. outside }

abbrev after_two : System
after_two = let next = take_turn good_driver small_config 0 in next 1 (next 0 callers)

Reach-size_example : size after_two.pool < 2 + 3
Reach-size_example =
    Reach-size good_driver small_config 3 no_pages [] after_two (omega arith)
      (unfold size in omega arith)
      (later (later here (turn 0 0 (omega arith))) (turn 0 1 (omega arith)))

overrun_example :
    (w : System) × Reach good_driver small_config 3 callers w × (size w.pool ≡ size no_pages + 3)
overrun_example =
    overrun good_driver small_config good_driver-Serves 3 no_pages [] tt
      (unfold size in omega arith)

-- A call of Stats, and another goroutine that takes the lock.
abbrev two_callers : ℕ → Locks.Phase
two_callers i = if i == 0 then Locks.before else Locks.enters

deadlock_example :
    (u : Locks.System) × Locks.Reach 2
      (record { mutex = record { readers = 0; writer = Locks.absent }; phase = two_callers })
      u
    × ((v : Locks.System)
        → Locks.Reach 2 u v
        → (v.phase 0 ≡ Locks.counts) × (v.phase 1 ≡ Locks.locks))
deadlock_example = deadlock 2 two_callers (omega arith) refl refl refl refl

-- A goroutine that is about to create a page for an empty pool.
abbrev no_hands : Custody.System
no_hands = record { pool = no_pages; trace = []; phase = λ i. Custody.outside }

abbrev one_begins : Custody.System
one_begins = Custody.moved 0 no_hands.phase (Custody.creating, no_pages, [])

Reach-opened_example :
    opened 7 one_begins.trace
    ≤ released 7 one_begins.trace
      + listed 7 (one_begins.pool).store (one_begins.pool).pages
      + total (held 7 (one_begins.pool).store) 2 one_begins.phase
Reach-opened_example =
    Reach-opened 7 good_driver small_config 2 no_pages [] one_begins tt (omega arith)
      (Custody.later Custody.here (Custody.begins 0 (omega arith) refl))

late_example :
    (v : Custody.System) × (p : ℕ) × ExactReach good_driver small_config 2 no_hands v
    × ((i : ℕ) → v.phase i ≡ Custody.outside)
    × ((v.pool).is_cancelled ≡ true)
    × ((v.pool).pages ≡ p ∷ [])
    × (let h = ((v.pool).store p).page in opened h v.trace ≡ suc (released h v.trace))
late_example = late good_driver small_config no_pages [] good_driver-Serves tt (λ h. refl)

-- The context is cancelled at the time 120.
abbrev stops_at_120 : Pool → Trace → Bool
stops_at_120 s t = leb 120 (good_driver.now t)

background_ends_example :
    let fuel = suc (120 - good_driver.now []) in
    ((health_checker good_driver small_config nobody.on_pool stops_at_120 fuel two_pages []).0
      ≡ returned tt)
    × ((reaper good_driver small_config nobody.on_pool stops_at_120 fuel two_pages []).0
        ≡ returned tt)
background_ends_example =
    background_ends good_driver clock-IsClock nobody.on_pool stops_at_120 120
      (λ s t h. ground (arith, h)) small_config two_pages []
