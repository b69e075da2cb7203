-- ===== src/Pool/Selection.antt =====
-- pool.go: what selectAvailable chooses.
use browserpm.Common.{
  ℕ, zero, suc, ◌%◌, ◌≡◌, refl, Bool, true, false, none, some, List, [], ◌∷◌, arith, length,
  get_elem?, keep_if, has,
}
use browserpm.Config.{PoolConfig}
use browserpm.Scheduler.{select, index_of, counter_add}
use browserpm.Scheduler.Fairness.{select-some}
use browserpm.Pool.Page.{Pool, is_available}
use browserpm.Pool.Select.{may_serve, all_available, select_available}

-- An element that is read off a list stands in it.
get_elem?-has : (xs : List ℕ) (i a : ℕ) → get_elem? xs i ≡ some a → has a xs ≡ true
get_elem?-has [] i a h = cc
get_elem?-has (x ∷ xs) zero a h = ground arith
get_elem?-has (x ∷ xs) (suc i) a h = ground (arith, get_elem?-has xs i a h)

select-has : (c : ℕ) (pages : List ℕ) (p : ℕ) → (select c pages).0 ≡ some p → has p pages ≡ true
unfolding select
select-has c [] p h = ground arith
select-has c (q ∷ ps) p h =
    get_elem?-has (q ∷ ps) (index_of (counter_add c) % suc (length ps)) p (ground arith)

select-none : (c : ℕ) (pages : List ℕ) → (select c pages).0 ≡ none → pages ≡ []
select-none c [] h = refl
select-none c (q ∷ ps) h = let (a, e) = select-some c (q ∷ ps) (λ n. cc) in cc

keep_if-has :
    (f : ℕ → Bool) (xs : List ℕ) (a : ℕ)
    → has a (keep_if f xs) ≡ true
    → (has a xs ≡ true) × (f a ≡ true)
keep_if-has f [] a h = cc
keep_if-has f (x ∷ xs) a h = ground (arith, keep_if-has f xs a)

keep_if-nil :
    (f : ℕ → Bool) (xs : List ℕ) → keep_if f xs ≡ [] → (a : ℕ) → has a xs ≡ true → f a ≡ false
keep_if-nil f [] h a m = cc
keep_if-nil f (x ∷ xs) h a m = ground (arith, λ (e : keep_if f xs ≡ []). keep_if-nil f xs e a)

module _ (cfg : PoolConfig) (now : ℕ) (s : Pool) where
  keep_if_all :
      (ps : List ℕ) → all_available cfg now s ps ≡ true → keep_if (may_serve cfg now s) ps ≡ ps
  unfolding all_available
  keep_if_all [] h = refl
  keep_if_all (p ∷ ps) h = ground (arith, keep_if_all ps)

  -- The fast path makes no difference: the choice is always that of the scheduler among the pages
  -- that are available, in the order of the slice.
  pub select_available-keep_if :
      select_available cfg now s ≡ select s.counter (keep_if (may_serve cfg now s) s.pages)
  unfolding select_available
  select_available-keep_if = ground (arith, keep_if_all s.pages)

  -- What is chosen stands in the slice and is available.
  pub select_available-some :
      (p : ℕ)
      → (select_available cfg now s).0 ≡ some p
      → (has p s.pages ≡ true) × (is_available cfg now (s.store p) ≡ true)
  select_available-some p h =
      keep_if-has (may_serve cfg now s) s.pages p
        (select-has s.counter _ p (rw (← select_available-keep_if) h))

  -- Nothing is chosen exactly when no page of the slice is available.
  pub select_available-none :
      (select_available cfg now s).0 ≡ none
      → (p : ℕ) → has p s.pages ≡ true
      → is_available cfg now (s.store p) ≡ false
  select_available-none h p m =
      keep_if-nil (may_serve cfg now s) s.pages
        (select-none s.counter (keep_if (may_serve cfg now s) s.pages)
          (rw (← select_available-keep_if) h))
        p m
