-- ===== src/Helpers/Assertions/Codes.antt =====
-- assertions.go: the two helpers that look for a code in an error.
use browserpm.Common.{◌≡◌, ◌↔◌, Bool, false, some, String, arith, subst}
use browserpm.Errors.{ErrorCode, Error, bpm, bpm_wrap, foreign, foreign_wrap}
use browserpm.Errors.Chain.{
  HasCode, head, head_wrap, cause_foreign, is_error_iff, code_num-injective,
}
use browserpm.Helpers.Bench.{goes_on}
use browserpm.Helpers.Assertions.{assert_error_code, assert_error_is}

-- The code stands at the first BpmError along the chain of causes.
pub data IsFirstCode (c : ErrorCode) : Error → Type 0 where
  first : (m : String) → IsFirstCode c (bpm c m)
  first_wrap : (m : String) (e : Error) → IsFirstCode c (bpm_wrap c m e)
  below : (m : String) {e : Error} → IsFirstCode c e → IsFirstCode c (foreign_wrap m e)

IsFirstCode-HasCode : {c : ErrorCode} {e : Error} → IsFirstCode c e → HasCode c e
IsFirstCode-HasCode (first m) = head m
IsFirstCode-HasCode (first_wrap m e) = head_wrap m e
IsFirstCode-HasCode (below m h) = cause_foreign m (IsFirstCode-HasCode h)

IsFirstCode-assert_error_code :
    {c : ErrorCode} {e : Error} (failed : Bool)
    → IsFirstCode c e
    → assert_error_code (some e) c failed ≡ goes_on failed
unfolding assert_error_code
IsFirstCode-assert_error_code failed (first m) = ground arith
IsFirstCode-assert_error_code failed (first_wrap m e) = ground arith
IsFirstCode-assert_error_code failed (below m h) = IsFirstCode-assert_error_code failed h

assert_error_code-IsFirstCode :
    (e : Error) (c : ErrorCode)
    → assert_error_code (some e) c false ≡ goes_on false
    → IsFirstCode c e
unfolding assert_error_code
assert_error_code-IsFirstCode (bpm d m) c h =
    let same : d ≡ c = code_num-injective d c (ground (arith, h)) in
    subst (λ k. IsFirstCode k (bpm d m)) same (first m)
assert_error_code-IsFirstCode (bpm_wrap d m e) c h =
    let same : d ≡ c = code_num-injective d c (ground (arith, h)) in
    subst (λ k. IsFirstCode k (bpm_wrap d m e)) same (first_wrap m e)
assert_error_code-IsFirstCode (foreign s) c h = cc
assert_error_code-IsFirstCode (foreign_wrap m e) c h = below m (assert_error_code-IsFirstCode e c h)

-- AssertErrorCode lets an error pass exactly if the first BpmError along its chain of causes has the code, and
-- then AssertErrorIs lets it pass with the sentinel of that code, which asks for any BpmError of the
-- chain to have it.
pub assert_error_code_iff :
    (e : Error) (c : ErrorCode)
    → ((assert_error_code (some e) c false ≡ goes_on false) ↔ IsFirstCode c e)
      × ((assert_error_is (some e) c false ≡ goes_on false) ↔ HasCode c e)
      × (IsFirstCode c e → HasCode c e)
unfolding assert_error_is
assert_error_code_iff e c = (
  (assert_error_code-IsFirstCode e c, IsFirstCode-assert_error_code false),
  (λ h. (is_error_iff e c).0 (ground (arith, h)), λ h. ground (arith, (is_error_iff e c).1 h)),
  IsFirstCode-HasCode,
)
