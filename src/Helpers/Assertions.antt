-- ===== src/Helpers/Assertions.antt =====
-- assertions.go: what the helpers assert of errors, of a session and of a manager's sessions. The test has
-- failed already or not when a helper is called.
pub mod Codes
pub mod Names
use text.Mathlib.Text.{◌==◌}
use browserpm.Common
use browserpm.Common.{
  ℕ, Bool, true, false, ◌||◌, Option, none, some, List, [], ◌∷◌, String, if◌then◌else◌,
}
use browserpm.Common.Int.{ℤ, pos, ltb_ℤ, eqb_ℤ, from_word}
use browserpm.Errors.{ErrorCode, Error, bpm, bpm_wrap, foreign, foreign_wrap, code_num, is_error}
use browserpm.Driver.{Driver, Trace}
use browserpm.Pool.Observe.{PoolStats}
use browserpm.Session.State.{Session, SessionState, active, degraded, closed}
use browserpm.Session.Observe.{SessionInfo, status, stats, is_healthy}
use browserpm.Manager.Operations.{Manager, list_sessions}
use browserpm.Helpers.Bench.{Flow, goes_on, error_f, fatal_f, pass}

-- errors.As for a *BpmError: the first one along the chain of causes, with its code and its message.
abbrev pub as_bpm : Error → Option (ErrorCode × String)
as_bpm (bpm c m) = some (c, m)
as_bpm (bpm_wrap c m e) = some (c, m)
as_bpm (foreign s) = none
as_bpm (foreign_wrap m e) = as_bpm e

unfoldable pub assert_error_code : Option Error → ErrorCode → Bool → Flow
assert_error_code none expected failed = fatal_f failed
assert_error_code (some e) expected failed = elim (as_bpm e) [
  | none ↦ fatal_f failed
  | some (c, m) ↦
      if Common.◌==◌ (code_num c) (code_num expected) then pass failed else error_f failed
]

-- Of a target that is a BpmError with the given code.
unfoldable pub assert_error_is : Option Error → ErrorCode → Bool → Flow
assert_error_is none target failed = error_f failed
assert_error_is (some e) target failed = if is_error e target then pass failed else error_f failed

unfoldable pub assert_no_error : Option Error → Bool → Flow
assert_no_error none failed = pass failed
assert_no_error (some e) failed = fatal_f failed

abbrev pub state_num : SessionState → ℕ
state_num active = 0
state_num degraded = 1
state_num closed = 2

abbrev assert_state : SessionState → Session → Bool → Flow
assert_state expected s failed =
    if Common.◌==◌ (state_num (status s).state) (state_num expected)
    then pass failed
    else error_f failed

-- AssertSessionActive, AssertSessionClosed and AssertSessionDegraded.
abbrev pub assert_session_active : Session → Bool → Flow
assert_session_active s failed = assert_state active s failed

abbrev pub assert_session_closed : Session → Bool → Flow
assert_session_closed s failed = assert_state closed s failed

abbrev pub assert_session_degraded : Session → Bool → Flow
assert_session_degraded s failed = assert_state degraded s failed

module _ (d : Driver) where
  unfoldable pub assert_session_healthy : Session → Bool → Trace → Flow × Trace
  assert_session_healthy s failed t =
      let (healthy, t') = is_healthy d s t in (if healthy then pass failed else error_f failed, t')

  unfoldable pub assert_session_not_healthy : Session → Bool → Trace → Flow × Trace
  assert_session_not_healthy s failed t =
      let (healthy, t') = is_healthy d s t in (if healthy then error_f failed else pass failed, t')

unfoldable pub assert_page_count : Session → ℤ → Bool → Flow
assert_page_count s expected failed =
    if eqb_ℤ (pos (status s).page_count) expected then pass failed else error_f failed

unfoldable pub assert_page_count_in_range : Session → ℤ → ℤ → Bool → Flow
assert_page_count_in_range s least most failed =
    let count = pos (status s).page_count in
    if ltb_ℤ count least || ltb_ℤ most count then error_f failed else pass failed

unfoldable pub assert_active_ops : Session → ℤ → Bool → Flow
assert_active_ops s expected failed =
    if eqb_ℤ (from_word (status s).active_ops) expected then pass failed else error_f failed

-- The loops over the manager's sessions.
unfoldable pub exists_loop : List SessionInfo → String → Bool → Flow
exists_loop [] name failed = error_f failed
exists_loop (s ∷ sessions) name failed =
    let rest = exists_loop sessions name failed in if s.name == name then pass failed else rest

unfoldable pub not_exists_loop : List SessionInfo → String → Bool → Flow
not_exists_loop [] name failed = pass failed
not_exists_loop (s ∷ sessions) name failed =
    let rest = not_exists_loop sessions name failed in
    if s.name == name then error_f failed else rest

abbrev pub assert_session_exists : Manager → String → Bool → Flow
assert_session_exists m name failed = exists_loop (list_sessions m) name failed

abbrev pub assert_session_not_exists : Manager → String → Bool → Flow
assert_session_not_exists m name failed = not_exists_loop (list_sessions m) name failed

unfoldable pub assert_pool_stats : Session → (PoolStats → Bool) → Bool → Flow
assert_pool_stats s check failed = elim (stats s) [
  | none ↦ fatal_f failed
  | some x ↦ if check x then pass failed else error_f failed
]
