-- ===== src/Scheduler/Fairness.antt =====
-- scheduler.go: the choice is always one of the pages, and a round takes each page once.
use mathlib.Core.List.{Perm, map-append, perm_append_comm}
use mathlib.Core.List.Perm
use native.Mathlib.Nat.{
  mod-lt, mod-eq_of_lt, div-add-mod, mul-add-mod_self_left, add-zero, zero-add, mod_self, add-suc,
  suc-add,
}
use mathlib.Core.Path.{ap₂}
use browserpm.Common.{
  ℕ, zero, suc, ◌+◌, ◌-◌, ◌*◌, ◌/◌, ◌%◌, ◌≤◌, ◌<◌, ◌≡◌, ◌≢◌, refl, sym, subst, ◌∙◌, ap, Option,
  some, List, [], ◌∷◌, ◌++◌, length, drop-get_elem?, get_elem?, get_elem?-of_lt, take, drop,
  take-length, length-drop, take-append-drop, arith, map,
}
use browserpm.Common.Int.{word}
use browserpm.Scheduler.{select, counter_add, index_of}

-- Adding one and taking it off again gives the counter back, also when it wraps around.
index_of-counter_add : (c : ℕ) → c < 18446744073709551616 → index_of (counter_add c) ≡ c
unfolding index_of counter_add
index_of-counter_add c h = omega arith

mod_next : (c n i : ℕ) → c % n ≡ i → suc i < n → suc c % n ≡ suc i
mod_next c n i h l =
    let e : suc c ≡ n * (c / n) + suc i = omega (arith, div-add-mod c n) in
    rw (e, mul-add-mod_self_left n (c / n) (suc i)) (mod-eq_of_lt l)

mod_around : (c n i k : ℕ) → c % n ≡ i → i + k ≡ n → (c + k) % n ≡ 0
mod_around c n i k h l =
    let e : c + k ≡ n * (c / n) + n = omega (arith, div-add-mod c n) in
    rw (e, mul-add-mod_self_left n (c / n) n) (mod_self n)

module _ {ℓ} {A : Type ℓ} where
  -- Select never reads out of bounds: on a list that is not empty it returns an element.
  pub select-some : (c : ℕ) (pages : List A) → pages ≢ [] → (a : A) × ((select c pages).0 ≡ some a)
  unfolding select
  select-some c [] h = absurd (h refl)
  select-some c (p ∷ ps) h =
      let i : ℕ = index_of (counter_add c) % suc (length ps) in
      let (a, e) = get_elem?-of_lt (p ∷ ps) i (mod-lt _ (omega arith)) in (a, ground (arith, e))

  -- The choice is at the counter modulo the length, and the counter goes up by one.
  pub select_lem :
      (c : ℕ) (pages : List A)
      → c < 18446744073709551616
      → 0 < length pages
      → select c pages ≡ (get_elem? pages (c % length pages), word (c + 1))
  unfolding select counter_add
  select_lem c pages h k = ground (arith, index_of-counter_add c h)

  -- The choices of `n` calls in a row.
  pub selects : ℕ → ℕ → List A → List (Option A)
  selects zero c pages = []
  selects (suc n) c pages =
      let (a, c') = select c pages in let rest = selects n c' pages in a ∷ rest

  -- Calls that stay before the end of the list take the pages in order.
  selects_run :
      (m c i : ℕ) (pages : List A)
      → c % length pages ≡ i
      → i + m ≤ length pages
      → c + m ≤ 18446744073709551616
      → 0 < length pages
      → selects m c pages ≡ map some (take m (drop i pages))
  unfolding selects
  selects_run zero c i pages h l k n = refl
  selects_run (suc zero) c i pages h l k n =
      let (a, e) = get_elem?-of_lt pages i (omega arith) in
      rw (select_lem c pages (omega arith) n, h, e, drop-get_elem? i pages e) refl
  selects_run (suc (suc m)) c i pages h l k n =
      let (a, e) = get_elem?-of_lt pages i (omega arith) in
      let after : word (c + 1) ≡ suc c = omega arith in
      let rest : selects (suc m) (suc c) pages ≡ map some (take (suc m) (drop (suc i) pages)) =
        selects_run (suc m) (suc c) (suc i) pages (mod_next c _ i h (omega arith)) (omega arith)
          (omega arith) n in
      rw (select_lem c pages (omega arith) n, h, e, drop-get_elem? i pages e, after)
        (ap (◌∷◌ (some a)) rest)

  selects-append :
      (a b c : ℕ) (pages : List A)
      → c + a < 18446744073709551616
      → 0 < length pages
      → selects (a + b) c pages ≡ selects a c pages ++ selects b (c + a) pages
  unfolding selects
  selects-append zero b c pages h n = cc (add-zero c, zero-add b)
  selects-append (suc a) b c pages h n =
      let after : word (c + 1) ≡ suc c = omega arith in
      let rest : selects (a + b) (suc c) pages
          ≡ selects a (suc c) pages ++ selects b (c + suc a) pages =
        rw (add-suc c a, ← suc-add c a) (selects-append a b (suc c) pages (omega arith) n) in
      rw (suc-add a b, select_lem c pages (omega arith) n, after)
        (ap (◌∷◌ (get_elem? pages (c % length pages))) rest)

  -- A round of as many calls as there are pages takes the pages in their order, starting at the
  -- counter modulo their number, as long as the counter does not wrap around in between.
  pub selects_round :
      (c : ℕ) (pages : List A)
      → 0 < length pages
      → c + length pages < 18446744073709551616
      → let k = c % length pages in
        selects (length pages) c pages ≡ map some (drop k pages ++ take k pages)
  selects_round c pages n h =
      let k : ℕ = c % length pages in
      let below : k < length pages = mod-lt c n in
      let whole : length pages - k + k ≡ length pages = omega arith in
      let first : selects (length pages - k) c pages ≡ map some (drop k pages) =
        selects_run (length pages - k) c k pages refl (omega arith) (omega arith) n
        ∙ ap (map some) (take-length _ _ (omega (arith, length-drop k pages))) in
      let second : selects k (c + (length pages - k)) pages ≡ map some (take k pages) =
        selects_run k _ 0 pages (mod_around c _ k _ refl (omega arith)) (omega arith) (omega arith)
          n in
      let joined : selects (length pages - k + k) c pages
          ≡ map some (drop k pages) ++ map some (take k pages) =
        selects-append (length pages - k) k c pages (omega arith) n ∙ ap₂ ◌++◌ first second in
      subst (λ (m : ℕ). selects m c pages ≡ map some (drop k pages ++ take k pages)) whole
        (joined ∙ sym (map-append some (drop k pages) (take k pages)))

  -- So a round takes every page exactly once.
  pub selects-perm :
      (c : ℕ) (pages : List A)
      → 0 < length pages
      → c + length pages < 18446744073709551616
      → Perm (selects (length pages) c pages) (map some pages)
  selects-perm c pages n h =
      let k : ℕ = c % length pages in
      rw (selects_round c pages n h) (
        Perm.map some
          (rw (take-append-drop k pages) at (perm_append_comm (drop k pages) (take k pages))))
