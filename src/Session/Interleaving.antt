-- ===== src/Session/Interleaving.antt =====
-- session.go: calls of Do, DoShare and Close by several goroutines at once. A step runs from one point
-- where a goroutine holds no lock of the session to its next such point: the session's mutex makes
-- the critical sections of ensureContext, rebuildContext and Close steps, and the flag `rebuilding`
-- is changed by atomic operations of its own.
pub mod Contexts
pub mod Rebuilds
pub mod Reopened
pub mod NilPool
use browserpm.Common.{
  ℕ, zero, suc, ◌<◌, ◌≡◌, Bool, true, false, Option, none, some, List, ◌∷◌, if◌then◌else◌,
}
use browserpm.Common.Turns.{enter}
use browserpm.Errors.{Error, Called, done, panics}
use browserpm.Driver.{Driver, Trace, slept}
use browserpm.Pool.Page.{Pool}
use browserpm.Pool.Contexts.{IsSame}
use browserpm.Session.State.{Session, Others, Caller, closed, is_closed, max_retries}
use browserpm.Session.Context.{
  ensure_context, tear_down, build_context_locked, close_pool, close_context,
}
use browserpm.Session.Exclusive.{do_exclusive, is_lost}

-- The pool that DoShare calls Acquire of, which it reads after ensureContext, without the lock. Acquire uses
-- the fields of its pool, and so a nil pool makes it panic.
abbrev pub read_pool : Session → Called Pool
read_pool s = elim s.pool [ none ↦ panics | some p ↦ done p ]

-- Where a goroutine is: in no call; at the beginning of a round of Do or DoShare, with the rounds that
-- follow it; after its ensureContext; about to rebuild; alone in rebuildContext, before and after its
-- critical section; waiting for another rebuild; in Close, with the parts taken off the session.
pub data Phase : Type 0 where
  outside : Phase
  begins ensured loses rebuilds : ℕ → Phase
  leaves : Option Error → ℕ → Phase
  awaits : ℕ → ℕ → Phase
  dismantles : Option Pool → Option ℕ → Phase

pub record System : Type 0 where
  pub session : Session
  pub trace : Trace
  pub phase : ℕ → Phase

-- The next round, if any is left.
abbrev pub next : ℕ → Phase
next zero = outside
next (suc n) = begins n

-- The phases that may follow the work of DoShare on a page of the pool: its call ends, a further round
-- begins, or the context is lost.
pub data IsAfterShare (n : ℕ) : Phase → Type 0 where
  ends : IsAfterShare n outside
  retries : IsAfterShare n (next n)
  gives_up : IsAfterShare n (loses n)

module _ (d : Driver) (others : Others) (caller : Caller) where
  -- The isClosed of Do and of DoShare.
  unfoldable pub call : Session → Trace → Phase × Session × Trace
  call s t = (if is_closed s then outside else begins max_retries, s, t)

  unfoldable pub begin_round : ℕ → Session → Trace → Phase × Session × Trace
  begin_round n s t =
      let (r, s', t') = ensure_context d s t in
      (elim r [ some e ↦ next n | none ↦ ensured n ], s', t')

  -- doExclusive, and the test after it.
  unfoldable pub work_alone : ℕ → Session → Trace → Phase × Session × Trace
  work_alone n s t =
      let (r, t') = do_exclusive d caller s t in
      elim r [
        | none ↦ (outside, s, t')
        | some e ↦
            (let (lost, t'') = is_lost d others caller e s t' in
              (if lost then loses n else next n, s, t''))
      ]

  -- rebuilding.Swap(true).
  unfoldable pub swap : ℕ → Session → Trace → Phase × Session × Trace
  swap n s t =
      (if s.rebuilding then awaits 100 n else rebuilds n, record s { rebuilding = true }, t)

  -- The critical section of rebuildContext.
  unfoldable pub rebuild_locked : ℕ → Session → Trace → Phase × Session × Trace
  rebuild_locked n s t =
      let (s1, t1) = tear_down d s t in
      let (r, s2, t2) = build_context_locked d s1 t1 in (leaves r n, s2, t2)

  -- rebuilding.Store(false); an error ends the call.
  unfoldable pub leave : Option Error → ℕ → Session → Trace → Phase × Session × Trace
  leave r n s t = (elim r [ some e ↦ outside | none ↦ next n ], record s { rebuilding = false }, t)

  -- A round of the wait for another rebuild, with the rounds that follow it.
  unfoldable pub await : ℕ → ℕ → Session → Trace → Phase × Session × Trace
  await zero n s t = (outside, s, t)
  await (suc k) n s t = (if s.rebuilding then awaits k n else next n, s, slept ∷ t)

  -- The critical section of Close.
  unfoldable pub take_parts : Session → Trace → Phase × Session × Trace
  take_parts s t = if is_closed s then (outside, s, t) else (
    dismantles s.pool s.browser_context,
    record s { state = closed; pool = none; browser_context = none; is_cancelled = true },
    t,
  )

  -- The end of Close, after the drain, which works on the pool like other goroutines.
  unfoldable pub dismantle : Option Pool → Option ℕ → Session → Trace → Phase × Session × Trace
  dismantle p c s t = (outside, s, close_context d c (close_pool d p s t))

  -- What a goroutine does next in its phase.
  unfoldable pub advance : Phase → Session → Trace → Phase × Session × Trace
  advance outside s t = call s t
  advance (begins n) s t = begin_round n s t
  advance (ensured n) s t = work_alone n s t
  advance (loses n) s t = swap n s t
  advance (rebuilds n) s t = rebuild_locked n s t
  advance (leaves r n) s t = leave r n s t
  advance (awaits k n) s t = await k n s t
  advance (dismantles p c) s t = dismantle p c s t

  abbrev pub moved : ℕ → (ℕ → Phase) → Phase × Session × Trace → System
  moved i f (x, s, t) = record { session = s; trace = t; phase = enter f i x }

  -- A step of one of the first `n` goroutines: its next turn; Close instead of Do; or the work of DoShare
  -- on the pool and its outcome. Whoever uses a pool may change it, and makes calls that open and close
  -- no context.
  pub data Step (n : ℕ) (u : System) : System → Type 0 where
    turn : (i : ℕ) → i < n → Step n u (moved i u.phase (advance (u.phase i) u.session u.trace))
    shuts :
        (i : ℕ)
        → i < n
        → u.phase i ≡ outside
        → Step n u (moved i u.phase (take_parts u.session u.trace))
    shares :
        (i k : ℕ) (x : Phase)
        → i < n
        → u.phase i ≡ ensured k
        → IsAfterShare k x
        → Step n u (moved i u.phase (x, u.session, u.trace))
    uses :
        (p p' : Pool) (t' : Trace)
        → u.session.pool ≡ some p
        → ((c : ℕ) → IsSame c u.trace t')
        → Step n u (record u { session = record u.session { pool = some p' }; trace = t' })
    works : (t' : Trace) → ((c : ℕ) → IsSame c u.trace t') → Step n u (record u { trace = t' })

  pub data Reach (n : ℕ) (u : System) : System → Type 0 where
    here : Reach n u u
    later : {v w : System} → Reach n u v → Step n v w → Reach n u w
