-- ===== src/Pool/Created.antt =====
-- pool.go: what createAndInitPage comes to, in a form that its callers' proofs use.
use browserpm.Common.{ℕ, ◌≡◌, refl, ◌⊎◌, inl, inr, Option-cases, ◌∷◌}
use browserpm.Errors.{Error, Outcome, ok, err, Outcome-cases}
use browserpm.Config.{PoolConfig}
use browserpm.Driver.{Driver, Trace, page_opened, clock_read, id_drawn}
use browserpm.Pool.Page.{Pool, PoolPage, idle, alloc}
use browserpm.Pool.Create.{create_and_init_page, init_pool_page, init_context, new_pool_page}

module _ (d : Driver) (cfg : PoolConfig) (s : Pool) (t : Trace) where
  -- Either it fails and leaves the pool as it was, or it fills the next cell with an idle page that
  -- has no operations and no uses.
  abbrev pub Created : Outcome ℕ × Pool × Trace → Type 0
  Created (r, s', t') =
      ((e : Error) × (r ≡ err e) × (s' ≡ s))
      ⊎ ((pp : PoolPage) × (r ≡ ok s.next)
          × (s' ≡ alloc pp s)
          × (pp.state ≡ idle)
          × (pp.active_ops ≡ 0)
          × (pp.use_count ≡ 0))

  init_pool_page-Created : (raw : ℕ) (t1 : Trace) → Created (init_pool_page d cfg raw s t1)
  unfolding init_pool_page
  init_pool_page-Created raw t1 =
      elim (Option-cases (d.init_page (init_context d cfg s) raw (clock_read ∷ id_drawn ∷ t1))) [
        | inl e ↦
            rw (e, init_pool_page) (inr (new_pool_page d cfg raw t1, refl, refl, refl, refl, refl))
        | inr (x, e) ↦ rw (e, init_pool_page) (inl (_, refl, refl))
      ]

  pub create_and_init_page-Created : Created (create_and_init_page d cfg s t)
  unfolding create_and_init_page
  create_and_init_page-Created = elim (Outcome-cases (d.new_page s.context t)) [
    | inl (x, e) ↦ rw (e, create_and_init_page) (inl (_, refl, refl))
    | inr (raw, e) ↦
        rw (e, create_and_init_page) (init_pool_page-Created raw (page_opened s.context raw ∷ t))
  ]
