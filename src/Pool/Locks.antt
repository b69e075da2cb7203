-- ===== src/Pool/Locks.antt =====
-- pool.go: Stats and the readers and writers of the pool's sync.RWMutex. A Lock that waits for the readers
-- that hold the lock keeps new readers out, also one that holds it already.
pub mod Deadlock
use browserpm.Common.{
  ℕ, zero, suc, ◌+◌, ◌-◌, ◌≤◌, ◌<◌, ◌≡◌, ◌≢◌, refl, ap, ◌∙◌, inl, inr, Bool, true, false,
  Bool-cases, Option, none, some, Option-cases, arith, ◌==◌, if◌then◌else◌,
}
use browserpm.Common.Turns.{enter, total, total-enter, total-le}

pub data Writer : Type 0 where
  absent pending holding : Writer

pub record RwMutex : Type 0 where
  pub readers : ℕ
  pub writer : Writer

-- Where a goroutine is: before Stats, in its loop with the lock held, in the loop of ActiveOps with the lock
-- held twice, before the second RUnlock; before Lock, in Lock, between Lock and Unlock; or done.
pub data Phase : Type 0 where
  before counts sums summed : Phase
  enters locks writes : Phase
  done : Phase

-- RLock, RUnlock, Lock in its two parts, and Unlock; `none` is a wait.
abbrev pub r_lock : RwMutex → Option RwMutex
r_lock l = elim l.writer [
  | absent ↦ some (record l { readers = suc l.readers })
  | pending ↦ none
  | holding ↦ none
]

abbrev pub r_unlock : RwMutex → Option RwMutex
r_unlock l = some (record l { readers = l.readers - 1 })

abbrev pub announce : RwMutex → Option RwMutex
announce l = elim l.writer [
  | absent ↦ some (record l { writer = pending })
  | pending ↦ none
  | holding ↦ none
]

abbrev pub obtain : RwMutex → Option RwMutex
obtain l = if l.readers == 0 then some (record l { writer = holding }) else none

abbrev pub unlock : RwMutex → Option RwMutex
unlock l = some (record l { writer = absent })

-- The next call of a goroutine on the lock, and its phase afterwards.
unfoldable pub attempt : Phase → RwMutex → Option RwMutex
attempt before l = r_lock l
attempt counts l = r_lock l
attempt sums l = r_unlock l
attempt summed l = r_unlock l
attempt enters l = announce l
attempt locks l = obtain l
attempt writes l = unlock l
attempt done l = none

abbrev pub following : Phase → Phase
following before = counts
following counts = sums
following sums = summed
following summed = done
following enters = locks
following locks = writes
following writes = done
following done = done

pub record System : Type 0 where
  pub mutex : RwMutex
  pub phase : ℕ → Phase

pub data Step (n : ℕ) (u : System) : System → Type 0 where
  turn :
      (i : ℕ) (l : RwMutex)
      → i < n
      → attempt (u.phase i) u.mutex ≡ some l
      → Step n u (record { mutex = l; phase = enter u.phase i (following (u.phase i)) })

pub data Reach (n : ℕ) (u : System) : System → Type 0 where
  here : Reach n u u
  later : {v w : System} → Reach n u v → Step n v w → Reach n u w

-- How often a goroutine holds the lock for reading.
abbrev pub holds : Phase → ℕ
holds counts = 1
holds sums = 2
holds summed = 1
holds _ = 0
