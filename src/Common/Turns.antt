-- ===== src/Common/Turns.antt =====
-- Goroutines that take turns: the phase of each, and sums over the first of them.
use Prim.Native.Nat.{ℕ, zero, suc, ◌+◌, ◌≤◌, ◌<◌}
use mathlib.Core.Path.{◌≡◌, refl}
use mathlib.Core.Logic.{inl, inr}
use native.Mathlib.Omega.{arith}
use browserpm.Common.Tests.{if◌then◌else◌, ◌==◌, Bool-cases}

module _ {ℓ} {A : Type ℓ} where
  -- The phases after goroutine `i` has come to phase `x`.
  abbrev pub enter : (ℕ → A) → ℕ → A → ℕ → A
  enter f i x j = if i == j then x else f j

  module _ (weight : A → ℕ) where
    abbrev pub total : ℕ → (ℕ → A) → ℕ
    total zero f = 0
    total (suc n) f = total n f + weight (f n)

    total-enter_above : (n i : ℕ) (f : ℕ → A) (x : A) → n ≤ i → total n (enter f i x) ≡ total n f
    total-enter_above zero i f x h = refl
    total-enter_above (suc n) i f x h = ground (arith, total-enter_above n i f x)

    pub total-enter :
        (n i : ℕ) (f : ℕ → A) (x : A)
        → i < n
        → total n (enter f i x) + weight (f i) ≡ total n f + weight x
    total-enter zero i f x h = elim h [ ]
    total-enter (suc n) i f x h = elim (Bool-cases (i == n)) [
      | inl e ↦ ground (arith, e, total-enter_above n i f x)
      | inr e ↦ ground (arith, e, total-enter n i f x)
    ]

    pub total-zero : (n : ℕ) (a : A) → weight a ≡ 0 → total n (λ i. a) ≡ 0
    total-zero zero a h = refl
    total-zero (suc n) a h = omega (arith, h, total-zero n a h)

    pub total-le : (n i : ℕ) (f : ℕ → A) → i < n → weight (f i) ≤ total n f
    total-le zero i f h = elim h [ ]
    total-le (suc n) i f h = elim (Bool-cases (i == n)) [
      | inl e ↦ ground (arith, e)
      | inr e ↦ ground (arith, e, total-le n i f)
    ]

  pub total-cong :
      (v w : A → ℕ) (n : ℕ) (f : ℕ → A)
      → ((i : ℕ) → i < n → v (f i) ≡ w (f i))
      → total v n f ≡ total w n f
  total-cong v w zero f h = refl
  total-cong v w (suc n) f h =
      omega (arith, h n (omega arith), total-cong v w n f (λ i l. h i (omega arith)))
