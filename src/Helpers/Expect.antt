-- ===== src/Helpers/Expect.antt =====
-- assertions.go: ErrorMatcher, whose methods can be called one after another. Each of them gives back its
-- receiver, so that what matters is the state of the test.
pub mod Chains
use browserpm.Common.{Bool, Option, none, some, String, List, if◌then◌else◌}
use browserpm.Common.Text.{codes}
use browserpm.Errors.{ErrorCode, Error, error_text}
use browserpm.Helpers.Bench.{Flow, error_f, fatal_f, pass, and_then}
use browserpm.Helpers.Assertions.{as_bpm, assert_error_code, assert_error_is, assert_no_error}
use browserpm.Helpers.Substring.{contains}

pub record ErrorMatcher : Type 0 where
  pub error : Option Error

-- ExpectError.
abbrev pub expect_error : Option Error → ErrorMatcher
expect_error e = record { error = e }

abbrev pub to_have_code : ErrorCode → ErrorMatcher → Bool → Flow
to_have_code code m failed = assert_error_code m.error code failed

abbrev pub to_be : ErrorCode → ErrorMatcher → Bool → Flow
to_be target m failed = assert_error_is m.error target failed

abbrev pub to_not_exist : ErrorMatcher → Bool → Flow
to_not_exist m failed = assert_no_error m.error failed

-- The message of the first BpmError along the chain of causes, or else the whole text.
unfoldable pub to_contain_message : String → ErrorMatcher → Bool → Flow
to_contain_message substr m failed = elim m.error [
  | none ↦ fatal_f failed
  | some e ↦ elim (as_bpm e) [
    | some (c, message) ↦
        if contains (codes message) (codes substr) then pass failed else error_f failed
    | none ↦ if contains (error_text e) (codes substr) then pass failed else error_f failed
  ]
]
