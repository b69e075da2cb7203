-- ===== src/Helpers/Substring/Search.antt =====
-- assertions.go: contains is strings.Contains.
use browserpm.Common.{
  ℕ, zero, suc, ◌-◌, ◌≤◌, ◌<◌, ◌≡◌, refl, sym, ◌∙◌, inl, inr, true, false, Bool-cases, List, [],
  ◌∷◌, length, take, leb, arith, take-length,
}
use browserpm.Common.Text
use browserpm.Common.Text.{starts_with}
use browserpm.Helpers.Substring.{same, helper_loop, contains_helper, contains}

starts_with-short : (p s : List ℕ) → length s < length p → starts_with p s ≡ false
unfolding starts_with
starts_with-short [] s h = elim h [ ]
starts_with-short (x ∷ p) [] h = refl
starts_with-short (x ∷ p) (c ∷ s) h = ground (arith, starts_with-short p s (omega (arith, h)))

contains-short : (s p : List ℕ) → length s < length p → Text.contains s p ≡ false
unfolding Text.contains
contains-short [] p h = starts_with-short p [] h
contains-short (c ∷ s) p h =
    ground (arith, starts_with-short p (c ∷ s) h, contains-short s p (omega (arith, h)))

starts_with-same :
    (p s : List ℕ) → length p ≤ length s → same (take (length p) s) p ≡ starts_with p s
unfolding same starts_with
starts_with-same [] s h = refl
starts_with-same (x ∷ p) [] h = elim h [ ]
starts_with-same (x ∷ p) (c ∷ s) h = ground (arith, starts_with-same p s (omega (arith, h)))

same-length : (s p : List ℕ) → same s p ≡ true → length s ≡ length p
unfolding same
same-length [] [] h = refl
same-length [] (y ∷ ys) h = cc
same-length (x ∷ xs) [] h = cc
same-length (x ∷ xs) (y ∷ ys) h = ground (arith, same-length xs ys)

same-nonempty : (s p : List ℕ) → same s p ≡ false → length p ≤ length s → 0 < length s
unfolding same
same-nonempty [] [] h l = cc
same-nonempty [] (y ∷ ys) h l = elim l [ ]
same-nonempty (x ∷ xs) p h l = omega arith

starts_with-contains : (p s : List ℕ) → starts_with p s ≡ true → Text.contains s p ≡ true
unfolding Text.contains
starts_with-contains p [] h = h
starts_with-contains p (c ∷ s) h = ground (arith, h)

-- A round at the next index is a round on the rest of the text.
helper_loop-shift :
    (rounds i c : ℕ) (s p : List ℕ)
    → helper_loop rounds (suc i) (c ∷ s) p ≡ helper_loop rounds i s p
unfolding helper_loop
helper_loop-shift zero i c s p = refl
helper_loop-shift (suc rounds) i c s p = rw (helper_loop-shift rounds (suc i) c s p) refl

contains_helper-contains : (s p : List ℕ) → contains_helper s p ≡ Text.contains s p
unfolding helper_loop Text.contains same starts_with
contains_helper-contains [] [] = refl
contains_helper-contains [] (x ∷ p) =
    let none_left : 1 - suc (length p) ≡ 0 = omega arith in rw (none_left, helper_loop) refl
contains_helper-contains (c ∷ s) p = elim (Bool-cases (leb (length p) (suc (length s)))) [
  | inl fits ↦
      let k : ℕ = suc (length s) - length p in
      let rounds : suc (suc (length s)) - length p ≡ suc k = ground (arith, fits) in
      let at_head : same (take (length p) (c ∷ s)) p ≡ starts_with p (c ∷ s) =
        starts_with-same p (c ∷ s) (ground (arith, fits)) in
      let later : helper_loop k 1 (c ∷ s) p ≡ Text.contains s p =
        helper_loop-shift k 0 c s p ∙ contains_helper-contains s p in
      rw (rounds, helper_loop, at_head, later) refl
  | inr short ↦
      let none_left : suc (suc (length s)) - length p ≡ 0 = ground (arith, short) in
      rw (none_left, helper_loop) (sym (contains-short (c ∷ s) p (ground (arith, short))))
]

-- contains finds what strings.Contains finds.
pub contains-contains : (s p : List ℕ) → contains s p ≡ Text.contains s p
unfolding contains
contains-contains s p = elim (Bool-cases (leb (length p) (length s))) [
  | inr short ↦ ground (arith, short, contains-short s p)
  | inl fits ↦ elim (Bool-cases (same s p)) [
    | inl e ↦
        let whole : take (length p) s ≡ s =
          take-length (length p) s (omega (arith, same-length s p e)) in
        let begins : starts_with p s ≡ true =
          sym (starts_with-same p s (ground (arith, fits))) ∙ rw whole e in
        ground (arith, fits, e, starts_with-contains p s begins)
    | inr differs ↦ ground (
      arith,
      fits,
      differs,
      same-nonempty s p differs (ground (arith, fits)),
      contains_helper-contains s p,
    )
  ]
]
