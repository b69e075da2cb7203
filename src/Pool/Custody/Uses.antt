-- ===== src/Pool/Custody/Uses.antt =====
-- pool.go: what goroutines do to the pool besides opening, removing and closing pages is a use of it.
use browserpm.Common.{ℕ, refl, Option-cases, inl, inr, arith}
use browserpm.Config.{PoolConfig}
use browserpm.Driver.{Driver, Trace}
use browserpm.Pool.Page.{Pool, PageState, set_state, touch, claim, release}
use browserpm.Pool.Select.{select_available, try_acquire}
use browserpm.Pool.Remove.{spawn_replace}
use browserpm.Pool.Custody.{IsUse}

pub touch-IsUse : (p now : ℕ) (s : Pool) → IsUse s (touch p now s)
unfolding touch
touch-IsUse p now s = record {
  same_slice = refl;
  same_cells = refl;
  same_pages = λ q. ground arith;
}

pub claim-IsUse : (p now : ℕ) (s : Pool) → IsUse s (claim p now s)
unfolding claim
claim-IsUse p now s = record {
  same_slice = refl;
  same_cells = refl;
  same_pages = λ q. ground arith;
}

pub release-IsUse : (p : ℕ) (s : Pool) → IsUse s (release p s)
unfolding release
release-IsUse p s = record { same_slice = refl; same_cells = refl; same_pages = λ q. ground arith }

pub set_state-IsUse : (p : ℕ) (st : PageState) (s : Pool) → IsUse s (set_state p st s)
unfolding set_state
set_state-IsUse p st s = record {
  same_slice = refl;
  same_cells = refl;
  same_pages = λ q. ground arith;
}

pub spawn_replace-IsUse : (p : ℕ) (s : Pool) → IsUse s (spawn_replace p s)
unfolding spawn_replace
spawn_replace-IsUse p s = record { same_slice = refl; same_cells = refl; same_pages = λ q. refl }

pub try_acquire-IsUse :
    (cfg : PoolConfig) (d : Driver) (s : Pool) (t : Trace) → IsUse s (try_acquire cfg d s t).1
unfolding try_acquire
try_acquire-IsUse cfg d s t =
    let (found, c) = select_available cfg (d.now t) s in
    elim (Option-cases found) [
      | inl e ↦
          rw (e, try_acquire)
            (record { same_slice = refl; same_cells = refl; same_pages = λ q. refl })
      | inr (p, e) ↦
          let u = touch-IsUse p (d.now t) (record s { counter = c }) in
          rw (e, try_acquire)
            (record {
              same_slice = u.same_slice;
              same_cells = u.same_cells;
              same_pages = u.same_pages;
            })
    ]
