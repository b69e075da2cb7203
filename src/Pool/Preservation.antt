-- ===== src/Pool/Preservation.antt =====
-- pool.go and health.go: the steps of the operations keep the pool well formed.
use browserpm.Common.{ℕ, ◌≡◌, refl, inl, inr, List, [], ◌∷◌}
use browserpm.Config.{PoolConfig}
use browserpm.Driver.{Driver, Trace}
use browserpm.Pool.Page.{Pool}
use browserpm.Pool.Create.{create_and_init_page, add_page}
use browserpm.Pool.Remove.{remove_page_locked, replace_page, close_all, close}
use browserpm.Pool.Health.{start, reap_one}
use browserpm.Pool.Acquire.{grow}
use browserpm.Pool.Keeps.{Keeps, start-keeps, reap_one-keeps}
use browserpm.Pool.Created.{create_and_init_page-Created}
use browserpm.Pool.Invariant.{
  release-IsWellFormed, claim-IsWellFormed, IsWellFormed, alloc-IsWellFormed,
  append_page-IsWellFormed, remove_page_locked-IsWellFormed, touch-IsWellFormed,
  set_state-closing-IsWellFormed,
}

module _ (d : Driver) (cfg : PoolConfig) where
  pub create_and_init_page-IsWellFormed :
      (s : Pool) (t : Trace) → IsWellFormed s → IsWellFormed (create_and_init_page d cfg s t).1
  create_and_init_page-IsWellFormed s t w = elim (create_and_init_page-Created d cfg s t) [
    | inl (x, r, q) ↦ rw q w
    | inr (pp, r, q, i, a, u) ↦ rw q (alloc-IsWellFormed s pp w)
  ]

  pub add_page-IsWellFormed :
      (s : Pool) (t : Trace) → IsWellFormed s → IsWellFormed (add_page d cfg s t).1
  unfolding add_page
  add_page-IsWellFormed s t w = elim (create_and_init_page-Created d cfg s t) [
    | inl (x, r, q) ↦ rw (r, add_page, q) w
    | inr (pp, r, q, i, a, u) ↦ rw (r, add_page, q) (append_page-IsWellFormed s pp (rw i refl) w)
  ]

  pub replace_page-IsWellFormed :
      (p : ℕ) (s : Pool) (t : Trace) → IsWellFormed s → IsWellFormed (replace_page d cfg p s t).0
  unfolding replace_page
  replace_page-IsWellFormed p s t w =
      let (s1, t1) = remove_page_locked p s t in
      let w1 = remove_page_locked-IsWellFormed p s t w in
      elim (create_and_init_page-Created d cfg s1 t1) [
        | inl (x, r, q) ↦ rw (r, replace_page, q) w1
        | inr (pp, r, q, i, a, u) ↦
            rw (r, replace_page, q) (append_page-IsWellFormed s1 pp (rw i refl) w1)
      ]

  close_all-pages :
      (ps : List ℕ) (s : Pool) (t : Trace) → (close_all d cfg ps s t).0.pages ≡ s.pages
  unfolding close_all
  close_all-pages [] s t = refl
  close_all-pages (p ∷ ps) s t = close_all-pages ps _ _

  -- An empty slice is well formed.
  empty-IsWellFormed : (s : Pool) → s.pages ≡ [] → IsWellFormed s
  empty-IsWellFormed s e = record { distinct = rw e tt; allocated = rw e tt; live = rw e tt }

  pub close-IsWellFormed : (s : Pool) (t : Trace) → IsWellFormed (close d cfg s t).0
  unfolding close
  close-IsWellFormed s t = empty-IsWellFormed _ refl

  grow-IsWellFormed : (s : Pool) (t : Trace) → IsWellFormed s → IsWellFormed (grow d cfg s t).1
  unfolding grow
  grow-IsWellFormed s t w = elim (create_and_init_page-Created d cfg s t) [
    | inl (x, r, q) ↦ rw (r, grow, q) w
    | inr (pp, r, q, i, a, u) ↦
        rw (r, grow, q)
          (claim-IsWellFormed s.next _ (append_page-IsWellFormed s pp (rw i refl) w) _)
  ]

  pub IsWellFormed-Keeps : Keeps d cfg (λ s t. IsWellFormed s)
  IsWellFormed-Keeps = record {
    asks = λ e s t q w. w;
    counts = λ c s t w. record { distinct = w.distinct; allocated = w.allocated; live = w.live };
    runs_loops =
        λ a b s t w. record { distinct = w.distinct; allocated = w.allocated; live = w.live };
    touches = λ p now s t w. touch-IsWellFormed p s w now;
    frees = λ p s t w. release-IsWellFormed p s w;
    retires = λ p s t w. set_state-closing-IsWellFormed p s w;
    adds = add_page-IsWellFormed;
    grows = grow-IsWellFormed;
    removes = remove_page_locked-IsWellFormed;
    replaces = replace_page-IsWellFormed;
    closes = λ s t w. close-IsWellFormed s t;
    clears = λ s t w. empty-IsWellFormed _ (close_all-pages s.pages (record s { pages = [] }) t);
  }

  pub start-IsWellFormed :
      (s : Pool) (t : Trace) → IsWellFormed s → IsWellFormed (start d cfg s t).1
  start-IsWellFormed s t w = start-keeps d cfg _ IsWellFormed-Keeps s t w

  pub reap_one-IsWellFormed :
      (now p : ℕ) (s : Pool) (t : Trace)
      → IsWellFormed s
      → IsWellFormed (reap_one d cfg now p s t).0
  reap_one-IsWellFormed now p s t w = reap_one-keeps d cfg _ IsWellFormed-Keeps now p s t w
