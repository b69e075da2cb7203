-- ===== src/Helpers/Cleanup.antt =====
-- setup.go: the cleanup functions of a TestManager. What they and the manager's Close act on is a state of
-- any type `S`; t.Cleanup runs Close once, when the test is over.
use browserpm.Common.{
  ℕ, zero, suc, ◌≤◌, ◌<◌, ◌≡◌, refl, ap, Option, none, some, List, [], ◌∷◌, ◌++◌, length, get_elem?,
  arith,
}

-- A nil Manager is `none`.
pub record TestManager (S : Type 0) : Type 0 where
  pub manager : Option (S → S)
  pub cleanup : List (S → S)

module _ {S : Type 0} where
  -- AddCleanup.
  unfoldable pub add_cleanup : (S → S) → TestManager S → TestManager S
  add_cleanup fn tm = record tm { cleanup = tm.cleanup ++ (fn ∷ []) }

  -- The loop of Close, down from the index below `i`.
  unfoldable pub run_cleanup : List (S → S) → ℕ → S → S
  run_cleanup fns zero s = s
  run_cleanup fns (suc i) s =
      run_cleanup fns i (elim (get_elem? fns i) [ none ↦ s | some fn ↦ fn s ])

  -- Close.
  unfoldable pub close : TestManager S → S → S
  close tm s =
      let s' = run_cleanup tm.cleanup (length tm.cleanup) s in
      elim tm.manager [ none ↦ s' | some shut ↦ shut s' ]

  get_elem?-append :
      (xs ys : List (S → S)) (i : ℕ) → i < length xs → get_elem? (xs ++ ys) i ≡ get_elem? xs i
  get_elem?-append [] ys i h = elim h [ ]
  get_elem?-append (x ∷ xs) ys zero h = refl
  get_elem?-append (x ∷ xs) ys (suc i) h = get_elem?-append xs ys i (omega (arith, h))

  get_elem?-last :
      (xs : List (S → S)) (fn : S → S) → get_elem? (xs ++ (fn ∷ [])) (length xs) ≡ some fn
  get_elem?-last [] fn = refl
  get_elem?-last (x ∷ xs) fn = get_elem?-last xs fn

  run_cleanup-append :
      (fns more : List (S → S)) (i : ℕ) (s : S)
      → i ≤ length fns
      → run_cleanup (fns ++ more) i s ≡ run_cleanup fns i s
  unfolding run_cleanup
  run_cleanup-append fns more zero s h = refl
  run_cleanup-append fns more (suc i) s h =
      rw
        (
          get_elem?-append fns more i (omega (arith, h)),
          run_cleanup-append fns more i _ (omega (arith, h)),
        )
        refl

  length-last : (xs : List (S → S)) (fn : S → S) → length (xs ++ (fn ∷ [])) ≡ suc (length xs)
  length-last [] fn = refl
  length-last (x ∷ xs) fn = ap suc (length-last xs fn)

  run_cleanup-last :
      (fns : List (S → S)) (fn : S → S) (s : S)
      → run_cleanup (fns ++ (fn ∷ [])) (length (fns ++ (fn ∷ []))) s
        ≡ run_cleanup fns (length fns) (fn s)
  unfolding run_cleanup
  run_cleanup-last fns fn s =
      rw (length-last fns fn, run_cleanup, get_elem?-last fns fn)
        (run_cleanup-append fns (fn ∷ []) (length fns) (fn s) (omega arith))

  -- The functions run in the opposite order of their registration, each once, and the manager's Close
  -- after all of them: one that is added is the first to run.
  pub close-add_cleanup :
      (fn : S → S) (tm : TestManager S) (s : S) → close (add_cleanup fn tm) s ≡ close tm (fn s)
  unfolding close add_cleanup
  close-add_cleanup fn tm s =
      ap (λ x. elim tm.manager [ none ↦ x | some shut ↦ shut x ]) (run_cleanup-last tm.cleanup fn s)
