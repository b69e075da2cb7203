-- ===== src/Mocks/Killer/Records.antt =====
-- browser.go of test_scenarios/mock: what KillProcess puts down, and what the assertions on it say.
use browserpm.Common.{
  ℕ, zero, suc, ◌+◌, ◌-◌, ◌≤◌, ◌<◌, ◌≡◌, ◌↔◌, ◌⊎◌, inl, inr, refl, Bool, true, false, Bool-cases,
  Option, none, some, List, [], ◌∷◌, ◌++◌, length, arith, length-append, if◌then◌else◌, ◌&&◌,
  Option-cases,
}
use browserpm.Common.Int.{ℤ, pos, ltb_ℤ, eqb_ℤ, eqb_ℤ-self}
use browserpm.Errors.{Error, Wait, returned, hangs, Outcome-cases}
use browserpm.Helpers.Bench.{goes_on}
use browserpm.Helpers.Faults.{killed_loop, assert_process_killed}
use browserpm.Mocks.Killer.{
  ProcessCall, exists_asked, process_opened, process_killed, clock_read, slept, Log, Processes,
  KillRecord, ProcessKiller, new_record, put_down, signal_name, verify_loop, verify, send, attempt,
  kill_process,
}

-- The clock never goes back, and time passes during a sleep.
pub record IsClock (now : Log → ℕ) : Type 0 where
  pub forward : (c : ProcessCall) (t : Log) → now t ≤ now (c ∷ t)
  pub sleep_passes : (t : Log) → now t < now (slept ∷ t)

abbrev is_none : Option Error → Bool
is_none none = true
is_none (some e) = false

-- The call comes to an end, and its record, of the process `pid`, says success exactly if it returns nil.
abbrev IsRecorded : ℤ → Wait (KillRecord × Option Error) → Type 0
IsRecorded pid hangs = ⊥
IsRecorded pid (returned (r, e)) = (r.pid ≡ pid) × (r.success ≡ is_none e)

IsRecorded-cases :
    (pid : ℤ) (w : Wait (KillRecord × Option Error))
    → IsRecorded pid w
    → (r : KillRecord) × (e : Option Error) × (w ≡ returned (r, e))
      × (r.pid ≡ pid)
      × (r.success ≡ is_none e)
IsRecorded-cases pid hangs h = elim h [ ]
IsRecorded-cases pid (returned (r, e)) h = (r, e, refl, h.0, h.1)

-- The history has a kill of the process that succeeded.
killed_loop-append :
    (history : List KillRecord) (r : KillRecord) (pid : ℤ)
    → (killed_loop (history ++ (r ∷ [])) pid false ≡ goes_on false)
      ↔ ((killed_loop history pid false ≡ goes_on false) ⊎ ((eqb_ℤ r.pid pid && r.success) ≡ true))
unfolding killed_loop
killed_loop-append [] r pid = elim (Bool-cases (eqb_ℤ r.pid pid && r.success)) [
  | inl e ↦ (λ h. inr e, λ h. rw (e, killed_loop) refl)
  | inr n ↦ (λ h. ground (arith, h, n), λ h. ground (arith, h, n))
]
killed_loop-append (q ∷ history) r pid = elim (Bool-cases (eqb_ℤ q.pid pid && q.success)) [
  | inl e ↦ (λ h. inl (rw (e, killed_loop) refl), λ h. rw (e, killed_loop) refl)
  | inr n ↦ rw (n, killed_loop) (killed_loop-append history r pid)
]

succeeded_iff :
    (pid : ℤ) (r : KillRecord) (e : Option Error)
    → r.pid ≡ pid
    → r.success ≡ is_none e
    → ((eqb_ℤ r.pid pid && r.success) ≡ true) ↔ (e ≡ none)
succeeded_iff pid r none of_pid good = (λ h. refl, λ h. rw (of_pid, good, eqb_ℤ-self pid) refl)
succeeded_iff pid r (some e) of_pid good = (λ h. ground (arith, h, good), λ h. cc)

module _ (x : Processes) (clock : IsClock x.now) where
  verify_loop_returns :
      (fuel deadline : ℕ) (pid : ℤ) (t : Log)
      → deadline - x.now t < fuel
      → (verify_loop x fuel deadline pid t).0 ≡ returned tt
  unfolding verify_loop
  verify_loop_returns zero deadline pid t h = elim h [ ]
  verify_loop_returns (suc fuel) deadline pid t h =
      let t1 : Log = clock_read ∷ t in
      let t2 : Log = exists_asked pid ∷ t1 in
      ground (
        arith,
        clock.forward clock_read t,
        clock.forward (exists_asked pid) t1,
        clock.sleep_passes t2,
        verify_loop_returns fuel deadline pid (slept ∷ t2),
      )

  verify_returns :
      (pk : ProcessKiller) (r : KillRecord) (t : Log)
      → (verify x pk r t).0 ≡ returned (record r { success = true })
  unfolding verify
  verify_returns pk r t =
      let t1 : Log = if ltb_ℤ (pos 0) pk.grace_period then slept ∷ t else t in
      let deadline = x.now t1 + 5000000000 in
      rw
        (
          verify,
          verify_loop_returns (suc (deadline - x.now t1)) deadline r.pid (clock_read ∷ t1)
              (omega (arith, clock.forward clock_read t1)),
        )
        refl

  send-IsRecorded :
      (pk : ProcessKiller) (r : KillRecord) (t : Log)
      → r.success ≡ false
      → IsRecorded r.pid (send x pk r t).0
  unfolding send
  send-IsRecorded pk r t h =
      let t1 : Log = process_opened r.pid ∷ t in
      let t2 : Log = process_killed r.pid ∷ t1 in
      let named : KillRecord = record r { signal = signal_name pk.kill_signal } in
      elim (Option-cases (x.new_process r.pid t)) [
        | inr (e, lost) ↦ rw (lost, send) (refl, h)
        | inl found ↦ elim (Option-cases (x.kill r.pid t1)) [
          | inr (e, spared) ↦ rw (found, spared, send) (refl, h)
          | inl sent ↦ rw (found, sent, send, verify_returns pk named t2) (refl, refl)
        ]
      ]

  attempt-IsRecorded :
      (pk : ProcessKiller) (r : KillRecord) (t : Log)
      → r.success ≡ false
      → IsRecorded r.pid (attempt x pk r t).0
  unfolding attempt
  attempt-IsRecorded pk r t h = elim (Bool-cases pk.dry_run) [
    | inl dry ↦ rw (dry, attempt) (refl, refl)
    | inr wet ↦ elim (Outcome-cases (x.pid_exists r.pid t)) [
      | inl (e, unknown) ↦ rw (wet, unknown, attempt) (refl, h)
      | inr (false, gone) ↦ rw (wet, gone, attempt) (refl, h)
      | inr (true, there) ↦
          rw (wet, there, attempt) (send-IsRecorded pk r (exists_asked r.pid ∷ t) h)
    ]
  ]

  kill_process-attempt :
      (pid : ℤ) (pk : ProcessKiller) (t : Log) (r : KillRecord) (e : Option Error)
      → pk.skip_kill ≡ false
      → (attempt x pk (new_record pid (x.now t)) (clock_read ∷ t)).0 ≡ returned (r, e)
      → ((kill_process x pid pk t).0 ≡ returned e) × ((kill_process x pid pk t).1 ≡ put_down r pk)
  unfolding kill_process
  kill_process-attempt pid pk t r e kills same = ground (arith, kills, same)

  -- What KillProcess puts down, for a killer that does not skip: one record, and one entry of the list.
  pub kill_process-cases :
      (pid : ℤ) (pk : ProcessKiller) (t : Log)
      → pk.skip_kill ≡ false
      → (r : KillRecord) × (e : Option Error) × ((kill_process x pid pk t).0 ≡ returned e)
        × ((kill_process x pid pk t).1 ≡ put_down r pk)
        × (r.pid ≡ pid)
        × (r.success ≡ is_none e)
  kill_process-cases pid pk t kills =
      let (r, e, same, of_pid, good) =
        IsRecorded-cases pid (attempt x pk (new_record pid (x.now t)) (clock_read ∷ t)).0
          (attempt-IsRecorded pk (new_record pid (x.now t)) (clock_read ∷ t) refl) in
      let (ends, puts) = kill_process-attempt pid pk t r e kills same in
      (r, e, ends, puts, of_pid, good)

  -- KillProcess of a killer that does not skip comes to an end, if the clock passes at every sleep. AssertProcessKilled
  -- passes afterwards exactly if it did before or the call has returned nil; but the list whose length
  -- AssertProcessCountKilled tests has grown by one also if the call has returned an error.
  pub kill_process-asserts :
      (pid : ℤ) (pk : ProcessKiller) (t : Log)
      → pk.skip_kill ≡ false
      → (e : Option Error) × ((kill_process x pid pk t).0 ≡ returned e)
        × (let pk' = (kill_process x pid pk t).1 in
            ((assert_process_killed pid pk' false ≡ goes_on false)
              ↔ ((assert_process_killed pid pk false ≡ goes_on false) ⊎ (e ≡ none)))
            × (length pk'.killed_pids ≡ suc (length pk.killed_pids)))
  unfolding put_down
  kill_process-asserts pid pk t kills =
      let (r, e, ends, same, of_pid, good) = kill_process-cases pid pk t kills in
      let (from, to) = killed_loop-append pk.kill_history r pid in
      let (nil, success) = succeeded_iff pid r e of_pid good in
      (
        e,
        ends,
        rw same (
          (
            λ h. elim (from h) [ inl before ↦ inl before | inr now ↦ inr (nil now) ],
            λ h. elim h [ inl before ↦ to (inl before) | inr now ↦ to (inr (success now)) ],
          ),
          omega (arith, length-append pk.killed_pids (r.pid ∷ [])),
        ),
      )
