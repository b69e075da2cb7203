-- ===== src/Errors.antt =====
-- errors.go: error codes, the package's error type, wrapping, and matching by errors.Is.
-- `bpm` is a BpmError with a nil Cause, `bpm_wrap` one with a cause, `foreign` any error of other
-- code, known by its text, and `foreign_wrap` one that fmt.Errorf makes of a text, a colon and %w. A
-- nil `error` is `none` in an `Option Error`. Codes other than the nine constants do not occur.
pub mod Chain
pub mod Connection
use browserpm.Common.{
  ◌≡◌, refl, ◌⊎◌, inl, inr, ℕ, zero, suc, Bool, true, false, Option, none, some, List, ◌++◌, String,
  ◌==◌, if◌then◌else◌,
}
use browserpm.Common.Text.{codes}

pub data ErrorCode : Type 0 where
  session_not_found session_exists pool_exhausted context_dead page_unavailable : ErrorCode
  timeout closed invalid_state internal : ErrorCode

-- The constants of the iota block.
unfoldable pub code_num : ErrorCode → ℕ
code_num session_not_found = 0
code_num session_exists = 1
code_num pool_exhausted = 2
code_num context_dead = 3
code_num page_unavailable = 4
code_num timeout = 5
code_num closed = 6
code_num invalid_state = 7
code_num internal = 8

unfoldable pub code_name : ErrorCode → String
code_name session_not_found = "SessionNotFound"
code_name session_exists = "SessionExists"
code_name pool_exhausted = "PoolExhausted"
code_name context_dead = "ContextDead"
code_name page_unavailable = "PageUnavailable"
code_name timeout = "Timeout"
code_name closed = "Closed"
code_name invalid_state = "InvalidState"
code_name internal = "Internal"

pub data Error : Type 0 where
  bpm : ErrorCode → String → Error
  bpm_wrap : ErrorCode → String → Error → Error
  foreign : String → Error
  foreign_wrap : String → Error → Error

-- A Go result pair: a value, or an error that is not nil.
pub data Outcome {ℓ} (A : Type ℓ) : Type ℓ where
  ok : A → Outcome A
  err : Error → Outcome A

-- What a call that may wait comes to: it returns, or it is still waiting when the rounds that the
-- model allots are used up.
pub data Wait {ℓ} (A : Type ℓ) : Type ℓ where
  returned : A → Wait A
  hangs : Wait A

-- A call that ends with a result, or in a panic.
pub data Called {ℓ} (A : Type ℓ) : Type ℓ where
  done : A → Called A
  panics : Called A

-- NewError and WrapError.
abbrev pub new_error : ErrorCode → String → Error
new_error c m = bpm c m

abbrev pub wrap_error : Error → ErrorCode → String → Error
wrap_error e c m = bpm_wrap c m e

-- The sentinels for errors.Is: a code without a message.
abbrev pub sentinel : ErrorCode → Error
sentinel c = bpm c ""

-- (*BpmError).Error, as code points.
unfoldable pub error_text : Error → List ℕ
unfolding code_name
error_text (bpm c m) = codes "browserpm [" ++ (codes (code_name c) ++ (codes "]: " ++ codes m))
error_text (bpm_wrap c m e) =
    codes "browserpm ["
    ++ (codes (code_name c) ++ (codes "]: " ++ (codes m ++ (codes ": " ++ error_text e))))
error_text (foreign s) = codes s
error_text (foreign_wrap m e) = codes m ++ (codes ": " ++ error_text e)

-- (*BpmError).Unwrap, and the Unwrap of an error of other code that wraps one.
unfoldable pub unwrap : Error → Option Error
unwrap (bpm_wrap c m e) = some e
unwrap (foreign_wrap m e) = some e
unwrap _ = none

-- (*BpmError).Is against a BpmError of the given code; the default of errors.Is, identity, never
-- holds between an error of other code and a BpmError.
unfoldable pub is_match : Error → ErrorCode → Bool
unfolding code_num
is_match (bpm c m) target = code_num c == code_num target
is_match (bpm_wrap c m e) target = code_num c == code_num target
is_match (foreign s) target = false
is_match (foreign_wrap m e) target = false

-- How many causes stand below an error, which bounds the rounds of errors.Is.
unfoldable pub height : Error → ℕ
height (bpm c m) = 0
height (bpm_wrap c m e) = suc (height e)
height (foreign s) = 0
height (foreign_wrap m e) = suc (height e)

-- The loop of errors.Is(err, &BpmError{Code: target}): the method Is of each error, then Unwrap.
unfoldable pub find_match : ℕ → Error → ErrorCode → Bool
find_match zero e target = false
find_match (suc fuel) e target =
    if is_match e target
    then true
    else (elim (unwrap e) [ none ↦ false | some cause ↦ find_match fuel cause target ])

unfoldable pub is_error : Error → ErrorCode → Bool
is_error e target = find_match (suc (height e)) e target

pub Outcome-cases {ℓ} :
    {A : Type ℓ} (o : Outcome A) → ((e : Error) × (o ≡ err e)) ⊎ ((a : A) × (o ≡ ok a))
Outcome-cases (err e) = inl (e, refl)
Outcome-cases (ok a) = inr (a, refl)
