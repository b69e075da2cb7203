-- ===== src/Helpers/Retry.antt =====
-- setup.go: Retry. The function that it repeats is the caller's, and so a parameter: an error or nil, and
-- the calls that it made.
pub mod Attempts
use browserpm.Common.{ℕ, zero, suc, Option, none, some, ◌∷◌}
use browserpm.Common.Int.{ℤ, pos, pos_part}
use browserpm.Errors.{Error}
use browserpm.Driver.{Trace, slept}
use browserpm.Helpers.Settings.{default_test_timeout}

pub record RetryConfig : Type 0 where
  pub max_attempts : ℤ
  pub delay : ℤ
  pub timeout : ℤ

-- DefaultRetryConfig.
abbrev pub default_retry_config : RetryConfig
default_retry_config = record {
  max_attempts = pos 3;
  delay = pos 100000000;
  timeout = default_test_timeout;
}

module _ (fn : Trace → Option Error × Trace) where
  -- The loop, with the number of attempts that are left and the last error.
  unfoldable pub attempts : ℕ → Option Error → Trace → Option Error × Trace
  attempts zero last_err t = (last_err, t)
  attempts (suc n) last_err t =
      let (e, t') = fn t in
      let rest = attempts n e (slept ∷ t') in elim e [ none ↦ (none, t') | some x ↦ rest ]

  unfoldable pub retry : RetryConfig → Trace → Option Error × Trace
  retry config t = attempts (pos_part config.max_attempts) none t
