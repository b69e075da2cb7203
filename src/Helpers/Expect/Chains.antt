-- ===== src/Helpers/Expect/Chains.antt =====
-- assertions.go: a chain of two matchers.
use browserpm.Common.{
  ℕ, List, ◌≡◌, ◌≢◌, refl, ◌↔◌, Bool, true, false, inl, inr, none, some, Option-cases, String,
  arith, if◌then◌else◌,
}
use browserpm.Common.Text
use browserpm.Common.Text.{codes}
use browserpm.Errors.{ErrorCode, Error, error_text}
use browserpm.Helpers.Bench.{Flow, goes_on, exits, and_then}
use browserpm.Helpers.Assertions.{as_bpm}
use browserpm.Helpers.Assertions.Codes.{IsFirstCode, assert_error_code_iff}
use browserpm.Helpers.Substring.Search.{contains-contains}
use browserpm.Helpers.Expect.{expect_error, to_have_code, to_contain_message}

-- The text in which ToContainMessage searches.
abbrev pub searched : Error → List ℕ
searched e = elim (as_bpm e) [ some (c, message) ↦ codes message | none ↦ error_text e ]

verdict_iff :
    (b : Bool) → ((if b then goes_on false else goes_on true) ≡ goes_on false) ↔ (b ≡ true)
verdict_iff b = ground arith

to_contain_message_iff :
    (e : Error) (substr : String)
    → (to_contain_message substr (expect_error (some e)) false ≡ goes_on false)
      ↔ (Text.contains (searched e) (codes substr) ≡ true)
unfolding to_contain_message
to_contain_message_iff e substr = elim (Option-cases (as_bpm e)) [
  | inl foreign_text ↦
      rw
        (
          to_contain_message,
          searched,
          foreign_text,
          contains-contains (error_text e) (codes substr),
        )
        (verdict_iff _)
  | inr ((c, message), first) ↦
      rw (to_contain_message, searched, first, contains-contains (codes message) (codes substr))
        (verdict_iff _)
]

-- A test that has failed stays so.
to_contain_message-failed :
    (e : Error) (substr : String)
    → to_contain_message substr (expect_error (some e)) true ≢ goes_on false
unfolding to_contain_message
to_contain_message-failed e substr h = ground arith

and_then-passes :
    (x : Flow) (next : Bool → Flow)
    → next true ≢ goes_on false
    → and_then x next ≡ goes_on false
    → (x ≡ goes_on false) × (next false ≡ goes_on false)
and_then-passes (goes_on false) next n h = (refl, h)
and_then-passes (goes_on true) next n h = elim (n h) [ ]
and_then-passes exits next n h = cc

-- A test passes ToHaveCode and then ToContainMessage exactly if the first BpmError along the chain of
-- causes has the code and, as strings.Contains has it, its message contains the text.
pub chain_iff :
    (e : Error) (c : ErrorCode) (substr : String)
    → let m = expect_error (some e) in
      (and_then (to_have_code c m false) (λ failed. to_contain_message substr m failed)
        ≡ goes_on false)
      ↔ (IsFirstCode c e × (Text.contains (searched e) (codes substr) ≡ true))
chain_iff e c substr =
    let m = expect_error (some e) in
    let ((code, first), by_is, inner) = assert_error_code_iff e c in
    let (message, found) = to_contain_message_iff e substr in
    (
      λ h.
          let (x, y) =
            and_then-passes (to_have_code c m false) (λ failed. to_contain_message substr m failed)
              (to_contain_message-failed e substr) h in
          (code x, message y),
      λ h. rw (first h.0) (found h.1),
    )
