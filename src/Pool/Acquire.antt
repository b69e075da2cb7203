-- ===== src/Pool/Acquire.antt =====
-- pool.go: Acquire. While it waits for the ticker other goroutines use the pool: what they do to it
-- is the parameter `others`.
use browserpm.Common.{ℕ, zero, suc, ◌-◌, Option, none, some, ltb, ◌∷◌, if◌then◌else◌}
use browserpm.Common.Int.{pos, ltb_ℤ, ◌+ℤ◌, pos_part}
use browserpm.Errors.{
  Outcome, ok, err, Wait, returned, hangs, new_error, wrap_error, timeout, pool_exhausted,
}
use browserpm.Config.{PoolConfig}
use browserpm.Driver.{Driver, Trace, clock_read, ticked}
use browserpm.Pool.Page.{Pool, claim, append_page}
use browserpm.Pool.Create.{create_and_init_page}
use browserpm.Pool.Select.{try_acquire}

module _ (d : Driver) (cfg : PoolConfig) where
  -- The branch of Acquire that adds a page on demand.
  unfoldable pub grow : Pool → Trace → Outcome ℕ × Pool × Trace
  unfolding claim append_page
  grow s t =
      let (r, s', t') = create_and_init_page d cfg s t in
      elim r [
        | err e ↦ (err e, s', t')
        | ok p ↦ (ok p, append_page p (claim p (d.now t') s'), clock_read ∷ t')
      ]

  -- One round of the loop of Acquire after a tick: the deadline, then another try. `none` is a
  -- further round.
  unfoldable pub spin_round : ℕ → Pool → Trace → Option (Outcome ℕ) × Pool × Trace
  spin_round deadline s t =
      if ltb deadline (d.now t)
      then (
        some (err (new_error pool_exhausted "all pages busy and pool at max capacity")),
        s,
        clock_read ∷ t,
      )
      else (let ((found, n), s', t') = try_acquire cfg d s (clock_read ∷ t) in
          elim found [ none ↦ (none, s', t') | some p ↦ (some (ok p), s', t') ])

module _ (d : Driver) (cfg : PoolConfig) (others : Pool → Trace → Pool) where
  -- The loop. The time passes at each tick, so that the rounds which `acquire` allots suffice.
  unfoldable pub spin : ℕ → ℕ → Pool → Trace → Wait (Outcome ℕ) × Pool × Trace
  unfolding spin_round
  spin zero deadline s t = (hangs, s, t)
  spin (suc fuel) deadline s t =
      let t_tick : Trace = ticked ∷ t in
      let s_tick = others s t_tick in
      let (r, s', t') = spin_round d cfg deadline s_tick t_tick in
      let rest = spin fuel deadline s' t' in
      elim (d.done t) [
        | some e ↦ (returned (err (wrap_error e timeout "acquire page timed out")), s_tick, t_tick)
        | none ↦ elim r [ some o ↦ (returned o, s', t') | none ↦ rest ]
      ]

  -- The caller's deadline, or one that the operation timeout sets.
  unfoldable pub wait_for_page : Option ℕ → Pool → Trace → Wait (Outcome ℕ) × Pool × Trace
  wait_for_page (some deadline) s t = spin (suc (suc deadline - d.now t)) deadline s t
  wait_for_page none s t =
      let deadline = pos_part (pos (d.now t) +ℤ cfg.operation_timeout) in
      let t' : Trace = clock_read ∷ t in spin (suc (suc deadline - d.now t')) deadline s t'

  -- Acquire, with the deadline of the caller's context if it has one.
  unfoldable pub acquire : Option ℕ → Pool → Trace → Wait (Outcome ℕ) × Pool × Trace
  acquire deadline s t =
      let ((found, total), s', t') = try_acquire cfg d s t in
      elim found [
        | some p ↦ (returned (ok p), s', t')
        | none ↦
            if ltb_ℤ (pos total) cfg.max_pages
            then (let (r, s'', t'') = grow d cfg s' t' in (returned r, s'', t''))
            else wait_for_page deadline s' t'
      ]
