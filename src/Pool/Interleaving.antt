-- ===== src/Pool/Interleaving.antt =====
-- pool.go: calls of Acquire by several goroutines at once. Acquire gives up the lock between its look at the
-- pool, the creation of a page, and each further try, so that other goroutines run in between: a
-- system is the pool with a phase for each goroutine, and a step lets one goroutine go on to its next
-- such point. A page that is being created is nobody else's until it is appended, so creation and
-- append are one step.
pub mod Bound
pub mod Overrun
use browserpm.Common.{ℕ, ◌<◌, ◌==◌, Option, none, some, if◌then◌else◌}
use browserpm.Common.Turns.{enter}
use browserpm.Common.Int.{pos, ltb_ℤ}
use browserpm.Errors.{Outcome, ok, err}
use browserpm.Config.{PoolConfig}
use browserpm.Driver.{Driver, Trace}
use browserpm.Pool.Page.{Pool, release}
use browserpm.Pool.Select.{try_acquire}
use browserpm.Pool.Acquire.{grow, spin_round}
use browserpm.Pool.Remove.{remove_page_locked}

-- Where a goroutine is: not in Acquire, about to create a page, waiting for the next tick with a
-- deadline, or using a page.
pub data Phase : Type 0 where
  outside growing : Phase
  spinning : ℕ → Phase
  holding : ℕ → Phase

pub record System : Type 0 where
  pub pool : Pool
  pub trace : Trace
  pub phase : ℕ → Phase

module _ (d : Driver) (cfg : PoolConfig) where
  -- The beginning of Acquire: a page, or the decision to create one, or to wait until `deadline`.
  unfoldable pub look : ℕ → Pool → Trace → Phase × Pool × Trace
  look deadline s t =
      let ((found, total), s', t') = try_acquire cfg d s t in
      elim found [
        | some p ↦ (holding p, s', t')
        | none ↦
            if ltb_ℤ (pos total) cfg.max_pages
            then (growing, s', t')
            else (spinning deadline, s', t')
      ]

  -- The rest of the growth path; an error ends the call.
  unfoldable pub finish_growth : Pool → Trace → Phase × Pool × Trace
  finish_growth s t =
      let (r, s', t') = grow d cfg s t in (elim r [ ok p ↦ holding p | err e ↦ outside ], s', t')

  -- A round of the loop; the deadline's error ends the call.
  unfoldable pub spin_once : ℕ → Pool → Trace → Phase × Pool × Trace
  spin_once deadline s t =
      let (r, s', t') = spin_round d cfg deadline s t in
      (
        elim r [ none ↦ spinning deadline | some (ok p) ↦ holding p | some (err e) ↦ outside ],
        s',
        t',
      )

  -- What a goroutine does next in its phase; one that has a page releases it.
  unfoldable pub advance : ℕ → Phase → Pool → Trace → Phase × Pool × Trace
  advance deadline outside s t = look deadline s t
  advance deadline growing s t = finish_growth s t
  advance deadline (spinning until) s t = spin_once until s t
  advance deadline (holding p) s t = (outside, release p s, t)

  unfoldable pub take_turn : ℕ → ℕ → System → System
  take_turn deadline i u =
      let (x, s, t) = advance deadline (u.phase i) u.pool u.trace in
      record { pool = s; trace = t; phase = enter u.phase i x }

  -- A step of one of the first `n` goroutines, or of one that takes a page off the pool.
  pub data Step (n : ℕ) (u : System) : System → Type 0 where
    turn : (deadline i : ℕ) → i < n → Step n u (take_turn deadline i u)
    removal :
        (p : ℕ)
        → Step n u (record u {
          pool = (remove_page_locked p u.pool u.trace).0;
          trace = (remove_page_locked p u.pool u.trace).1;
        })

  pub data Reach (n : ℕ) (u : System) : System → Type 0 where
    here : Reach n u u
    later : {v w : System} → Reach n u v → Step n v w → Reach n u w
