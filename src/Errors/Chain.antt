-- ===== src/Errors/Chain.antt =====
-- errors.go: what errors.Is finds along a chain of causes.
use browserpm.Common.{
  ℕ, zero, suc, ◌<◌, true, ◌≡◌, subst, ◌↔◌, arith, String, ◌==◌, ==_iff, Bool-cases, inl, inr,
}
use browserpm.Errors.{
  ErrorCode, Error, bpm, bpm_wrap, foreign, foreign_wrap, code_num, height, unwrap, is_match,
  find_match, is_error,
}

-- The code stands at the head of the error or at that of one of its causes.
pub data HasCode (c : ErrorCode) : Error → Type 0 where
  head : (m : String) → HasCode c (bpm c m)
  head_wrap : (m : String) (e : Error) → HasCode c (bpm_wrap c m e)
  cause : (d : ErrorCode) (m : String) {e : Error} → HasCode c e → HasCode c (bpm_wrap d m e)
  cause_foreign : (m : String) {e : Error} → HasCode c e → HasCode c (foreign_wrap m e)

pub code_num-injective : (c d : ErrorCode) → code_num c ≡ code_num d → c ≡ d
unfolding code_num
code_num-injective c d h = ground arith

HasCode-find_match :
    (c : ErrorCode) (e : Error) (fuel : ℕ)
    → height e < fuel
    → HasCode c e
    → find_match fuel e c ≡ true
unfolding find_match is_match unwrap height
HasCode-find_match c e zero l h = elim l [ ]
HasCode-find_match c _ (suc fuel) l (head m) = ground arith
HasCode-find_match c _ (suc fuel) l (head_wrap m e) = ground arith
HasCode-find_match c _ (suc fuel) l (cause d m {e} h) =
    ground (arith, HasCode-find_match c e fuel (omega (arith, l)) h)
HasCode-find_match c _ (suc fuel) l (cause_foreign m {e} h) =
    HasCode-find_match c e fuel (omega (arith, l)) h

same_code : (c d : ErrorCode) → (code_num d == code_num c) ≡ true → d ≡ c
same_code c d h = code_num-injective d c ((==_iff _ _).0 h)

find_match-HasCode :
    (fuel : ℕ) (e : Error) (c : ErrorCode) → find_match fuel e c ≡ true → HasCode c e
unfolding find_match is_match unwrap
find_match-HasCode zero e c h = cc
find_match-HasCode (suc fuel) (bpm d m) c h =
    subst (λ k. HasCode k (bpm d m)) (same_code c d (ground (arith, h))) (head m)
find_match-HasCode (suc fuel) (bpm_wrap d m e) c h = elim (Bool-cases (code_num d == code_num c)) [
  | inl same ↦ subst (λ k. HasCode k (bpm_wrap d m e)) (same_code c d same) (head_wrap m e)
  | inr other ↦ cause d m (find_match-HasCode fuel e c (ground (arith, h, other)))
]
find_match-HasCode (suc fuel) (foreign s) c h = cc
find_match-HasCode (suc fuel) (foreign_wrap m e) c h =
    cause_foreign m (find_match-HasCode fuel e c h)

-- errors.Is finds a code exactly when it stands somewhere along the chain of causes.
pub is_error_iff : (e : Error) (c : ErrorCode) → (is_error e c ≡ true) ↔ HasCode c e
unfolding is_error
is_error_iff e c =
    (find_match-HasCode (suc (height e)) e c, HasCode-find_match c e (suc (height e)) (omega arith))
