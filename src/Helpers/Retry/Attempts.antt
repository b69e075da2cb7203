-- ===== src/Helpers/Retry/Attempts.antt =====
-- setup.go: when Retry reports success, and after how many attempts.
use browserpm.Common.{
  ℕ, zero, suc, ◌<◌, ◌≡◌, ◌↔◌, ◌⊎◌, inl, inr, refl, Option, none, ◌∷◌, arith, Option-cases,
}
use browserpm.Common.Int.{pos_part}
use browserpm.Errors.{Error}
use browserpm.Driver.{Trace, slept}
use browserpm.Helpers.Retry.{RetryConfig, attempts, retry}

module _ (fn : Trace → Option Error × Trace) where
  -- The calls made before an attempt that stands so many attempts and pauses later.
  abbrev pub before : ℕ → Trace → Trace
  before zero t = t
  before (suc i) t = before i (slept ∷ (fn t).1)

  -- One of the first `n` attempts succeeds.
  abbrev pub Succeeds : ℕ → Trace → Type 0
  Succeeds n t = (i : ℕ) × (i < n) × ((fn (before i t)).0 ≡ none)

  attempts-none :
      (n : ℕ) (last_err : Option Error) (t : Trace)
      → (attempts fn n last_err t).0 ≡ none
      → ((n ≡ 0) × (last_err ≡ none)) ⊎ Succeeds n t
  unfolding attempts
  attempts-none zero last_err t h = inl (refl, h)
  attempts-none (suc n) last_err t h = elim (Option-cases (fn t).0) [
    | inl e ↦ inr (zero, omega arith, e)
    | inr (x, e) ↦
        let rest : (attempts fn n (fn t).0 (slept ∷ (fn t).1)).0 ≡ none = ground (arith, h, e) in
        elim (attempts-none n (fn t).0 (slept ∷ (fn t).1) rest) [
          | inl no_rounds ↦ cc (e, no_rounds.1)
          | inr (i, l, s) ↦ inr (suc i, omega (arith, l), s)
        ]
  ]

  Succeeds-attempts :
      (n : ℕ) (last_err : Option Error) (t : Trace)
      → Succeeds n t
      → (attempts fn n last_err t).0 ≡ none
  unfolding attempts
  Succeeds-attempts zero last_err t (i, l, s) = elim l [ ]
  Succeeds-attempts (suc n) last_err t (zero, l, s) = ground (arith, s)
  Succeeds-attempts (suc n) last_err t (suc i, l, s) =
      ground (arith, Succeeds-attempts n (fn t).0 (slept ∷ (fn t).1) (i, omega (arith, l), s))

  -- Retry returns nil exactly if one of its attempts succeeds, or if it is told to make none.
  pub retry_iff :
      (config : RetryConfig) (t : Trace)
      → ((retry fn config t).0 ≡ none)
        ↔ ((pos_part config.max_attempts ≡ 0) ⊎ Succeeds (pos_part config.max_attempts) t)
  unfolding retry attempts
  retry_iff config t = (
    λ h. elim (attempts-none (pos_part config.max_attempts) none t h) [
      | inl no_rounds ↦ inl no_rounds.0
      | inr s ↦ inr s
    ],
    λ h. elim h [
      | inl no_rounds ↦ rw (no_rounds, attempts) refl
      | inr s ↦ Succeeds-attempts (pos_part config.max_attempts) none t s
    ],
  )
