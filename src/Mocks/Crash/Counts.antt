-- ===== src/Mocks/Crash/Counts.antt =====
-- browser.go of test_scenarios/mock: what KillAllProcesses counts.
use browserpm.Common.{
  ℕ, suc, ◌+◌, ◌≤◌, ◌≡◌, ◌↔◌, refl, ap, ◌∙◌, false, inl, inr, Option, none, some, Option-cases,
  List, [], ◌∷◌, String, length, arith,
}
use browserpm.Common.Int.{ℤ}
use browserpm.Errors.{Error, returned}
use browserpm.Mocks.Killer.{Processes, ProcessKiller, KillRecord, Log, put_down, kill_process}
use browserpm.Mocks.Killer.Records.{IsClock, kill_process-cases}
use browserpm.Mocks.Crash.{kill_all_loop}

kept_going : (r : KillRecord) (pk : ProcessKiller) → (put_down r pk).skip_kill ≡ pk.skip_kill
unfolding put_down
kept_going r pk = refl

module _ (x : Processes) (clock : IsClock x.now) where
  -- With a killer that does not skip, the loop comes to an end. It counts at most one process for each entry, and
  -- it counts them all exactly if it keeps no new error.
  pub kill_all_loop_lem :
      (infos : List (ℤ × String)) (killed : ℕ) (last_err : Option Error) (pk : ProcessKiller)
      (t : Log)
      → pk.skip_kill ≡ false
      → (n : ℕ) × (e : Option Error) × ((kill_all_loop x infos killed last_err pk t).0
          ≡ returned (killed + n, e))
        × (n ≤ length infos)
        × ((e ≡ none) ↔ ((n ≡ length infos) × (last_err ≡ none)))
  unfolding kill_all_loop
  kill_all_loop_lem [] killed last_err pk t kills = (
    0,
    last_err,
    ap (λ m. returned (m, last_err)) (omega arith),
    omega arith,
    (λ h. (refl, h), λ h. h.1),
  )
  kill_all_loop_lem ((pid, type) ∷ infos) killed last_err pk t kills =
      let (r, e1, ends, puts, of_pid, good) = kill_process-cases x clock pid pk t kills in
      let pk' = (kill_process x pid pk t).1 in
      let t' = (kill_process x pid pk t).2 in
      let goes : pk'.skip_kill ≡ false = rw puts (kept_going r pk ∙ kills) in
      elim (Option-cases e1) [
        | inl fine ↦
            let (n, e, rest, few, whole) =
              kill_all_loop_lem infos (suc killed) last_err pk' t' goes in
            (
              suc n,
              e,
              rw (kill_all_loop, ends, fine) (rest ∙ ap (λ m. returned (m, e)) (omega arith)),
              omega (arith, few),
              (
                λ h. (omega (arith, (whole.0 h).0), (whole.0 h).1),
                λ h. whole.1 (omega (arith, h.0), h.1),
              ),
            )
        | inr (f, failed) ↦
            let (n, e, rest, few, whole) = kill_all_loop_lem infos killed (some f) pk' t' goes in
            (
              n,
              e,
              rw (kill_all_loop, ends, failed) rest,
              omega (arith, few),
              (
                λ h. cc ((whole.0 h).1),
                λ h. let too_many : ⊥ = omega (arith, few, h.0) in elim too_many [ ],
              ),
            )
      ]
