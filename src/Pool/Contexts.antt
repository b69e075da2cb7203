-- ===== src/Pool/Contexts.antt =====
-- pool.go: the pool opens and closes pages, never a browser context.
use browserpm.Common.{zero, suc, ℕ, ◌≡◌, refl, ◌∙◌, inl, inr, List, [], ◌∷◌, arith}
use browserpm.Errors.{Outcome-cases}
use browserpm.Config.{PoolConfig}
use browserpm.Driver.{
  Driver, Trace, contexts_opened, contexts_closed, page_opened, page_refused, page_initialised,
  page_closed, clock_read, id_drawn,
}
use browserpm.Pool.Page.{Pool, closed, set_state}
use browserpm.Pool.Create.{init_pool_page, create_and_init_page, add_page, warm_up_loop, warm_up}
use browserpm.Pool.Remove.{close_all, close}
use browserpm.Pool.Health.{start}
use browserpm.Common.Int.{pos_part}

-- A count of calls that leaves out those by which the pool creates and closes pages.
pub record IgnoresPages (count : Trace → ℕ) : Type 0 where
  pub opening : (c p : ℕ) (t : Trace) → count (page_opened c p ∷ t) ≡ count t
  pub refusal : (c : ℕ) (t : Trace) → count (page_refused c ∷ t) ≡ count t
  pub initialising : (p : ℕ) (t : Trace) → count (page_initialised p ∷ t) ≡ count t
  pub closing : (p : ℕ) (t : Trace) → count (page_closed p ∷ t) ≡ count t
  pub reading : (t : Trace) → count (clock_read ∷ t) ≡ count t
  pub drawing : (t : Trace) → count (id_drawn ∷ t) ≡ count t

module _ (d : Driver) (cfg : PoolConfig) (count : Trace → ℕ) (w : IgnoresPages count) where
  init_pool_page-count :
      (raw : ℕ) (s : Pool) (t : Trace) → count (init_pool_page d cfg raw s t).2 ≡ count t
  unfolding init_pool_page
  init_pool_page-count raw s t =
      let t_now : Trace = clock_read ∷ id_drawn ∷ t in
      let t_init : Trace = page_initialised raw ∷ t_now in
      let same = w.initialising raw t_now ∙ w.reading (id_drawn ∷ t) ∙ w.drawing t in
      ground (arith, same, w.closing raw t_init)

  create_and_init_page-count :
      (s : Pool) (t : Trace) → count (create_and_init_page d cfg s t).2 ≡ count t
  unfolding create_and_init_page
  create_and_init_page-count s t = elim (Outcome-cases (d.new_page s.context t)) [
    | inl (x, e) ↦ rw (e, create_and_init_page) (w.refusal s.context t)
    | inr (raw, e) ↦
        rw (e, create_and_init_page)
          (init_pool_page-count raw s (page_opened s.context raw ∷ t) ∙ w.opening s.context raw t)
  ]

  close_all-count :
      (ps : List ℕ) (s : Pool) (t : Trace) → count (close_all d cfg ps s t).1 ≡ count t
  unfolding close_all
  close_all-count [] s t = refl
  close_all-count (p ∷ ps) s t =
      close_all-count ps (set_state p closed s) (page_closed (s.store p).page ∷ t)
      ∙ w.closing (s.store p).page t

  pub close-count : (s : Pool) (t : Trace) → count (close d cfg s t).1 ≡ count t
  unfolding close
  close-count s t = close_all-count s.pages _ t

  add_page-count : (s : Pool) (t : Trace) → count (add_page d cfg s t).2 ≡ count t
  unfolding add_page
  add_page-count s t = ground (arith, create_and_init_page-count s t)

  warm_up_loop-count : (n : ℕ) (s : Pool) (t : Trace) → count (warm_up_loop d cfg n s t).2 ≡ count t
  unfolding warm_up_loop
  warm_up_loop-count zero s t = refl
  warm_up_loop-count (suc n) s t =
      let (r, s', t') = add_page d cfg s t in
      ground (arith, add_page-count s t, warm_up_loop-count n s' t')

  pub start-count : (s : Pool) (t : Trace) → count (start d cfg s t).2 ≡ count t
  unfolding start warm_up
  start-count s t = ground (arith, warm_up_loop-count (pos_part cfg.min_pages) s t)

-- Two traces that agree on the context `c`.
abbrev pub IsSame : ℕ → Trace → Trace → Type 0
IsSame c t t' =
    (contexts_opened c t' ≡ contexts_opened c t) × (contexts_closed c t' ≡ contexts_closed c t)

contexts_opened-IgnoresPages : (c : ℕ) → IgnoresPages (contexts_opened c)
contexts_opened-IgnoresPages c = record {
  opening = λ b p t. refl;
  refusal = λ b t. refl;
  initialising = λ p t. refl;
  closing = λ p t. refl;
  reading = λ t. refl;
  drawing = λ t. refl;
}

contexts_closed-IgnoresPages : (c : ℕ) → IgnoresPages (contexts_closed c)
contexts_closed-IgnoresPages c = record {
  opening = λ b p t. refl;
  refusal = λ b t. refl;
  initialising = λ p t. refl;
  closing = λ p t. refl;
  reading = λ t. refl;
  drawing = λ t. refl;
}

module _ (d : Driver) (cfg : PoolConfig) (c : ℕ) (s : Pool) (t : Trace) where
  pub close-contexts : IsSame c t (close d cfg s t).1
  close-contexts = (
    close-count d cfg (contexts_opened c) (contexts_opened-IgnoresPages c) s t,
    close-count d cfg (contexts_closed c) (contexts_closed-IgnoresPages c) s t,
  )

  pub start-contexts : IsSame c t (start d cfg s t).2
  start-contexts = (
    start-count d cfg (contexts_opened c) (contexts_opened-IgnoresPages c) s t,
    start-count d cfg (contexts_closed c) (contexts_closed-IgnoresPages c) s t,
  )
