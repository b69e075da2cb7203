-- ===== src/Pool/Reaping.antt =====
-- health.go: which pages the reaper takes off the pool.
use browserpm.Common.{
  ℕ, ◌≤◌, ◌<◌, ◌≡◌, ◌≢◌, refl, Bool, true, false, not, ◌&&◌, Bool-cases, inl, inr, List, [], ◌∷◌,
  arith, ◌==◌, ==_iff, has, has-append, IsDistinct, ap, ◌∙◌, All-has,
}
use browserpm.Config.{PoolConfig}
use browserpm.Driver.{Driver, Trace, clock_read}
use browserpm.Pool.Page.{Pool, PoolPage, closing, is_closing, set_state, alloc, append_page}
use browserpm.Pool.Create.{add_page}
use browserpm.Pool.Remove.{remove_first, remove_page_locked}
use browserpm.Pool.Health.{is_spared, is_expired, reap, reap_one, reap_loop, run_reap}
use browserpm.Pool.Created.{create_and_init_page-Created}
use browserpm.Pool.Preservation.{reap_one-IsWellFormed}
use browserpm.Pool.Invariant.{IsWellFormed, has-remove_first_self}

-- A page is due when it is closing, older than the TTL, and either not busy or past the end of its
-- grace period.
abbrev pub is_due : PoolConfig → ℕ → PoolPage → Bool
is_due cfg now pp = is_closing pp.state && (is_expired cfg now pp && not (is_spared cfg now pp))

has-remove_first_ne : (p q : ℕ) (ps : List ℕ) → q ≢ p → has p (remove_first q ps) ≡ has p ps
unfolding remove_first
has-remove_first_ne p q [] h = refl
has-remove_first_ne p q (x ∷ ps) h = ground (arith, has-remove_first_ne p q ps h)

-- What a step leaves alone of a page: whether it is listed, and its cell.
record Same (p : ℕ) (s s' : Pool) : Type 0 where
  listed : has p s'.pages ≡ has p s.pages
  cell : s'.store p ≡ s.store p
  grown : s.next ≤ s'.next

Same-trans : {p : ℕ} {s s' s'' : Pool} → Same p s s' → Same p s' s'' → Same p s s''
Same-trans a b = record {
  listed = b.listed ∙ a.listed;
  cell = b.cell ∙ a.cell;
  grown = omega (arith, a.grown, b.grown);
}

module _ (d : Driver) (cfg : PoolConfig) where
  add_page-Same : (p : ℕ) (s : Pool) (t : Trace) → p < s.next → Same p s (add_page d cfg s t).1
  unfolding add_page alloc append_page
  add_page-Same p s t l = elim (create_and_init_page-Created d cfg s t) [
    | inl (x, r, q) ↦
        rw (r, add_page, q) (record { listed = refl; cell = refl; grown = omega arith })
    | inr (pp, r, q, i, a, u) ↦
        rw (r, add_page, q)
          (record {
            listed = ground (arith, has-append p s.pages (s.next ∷ []));
            cell = ground arith;
            grown = omega arith;
          })
  ]

  remove_page_locked-Same :
      (p q : ℕ) (s : Pool) (t : Trace) → q ≢ p → Same p s (remove_page_locked q s t).0
  unfolding remove_page_locked
  remove_page_locked-Same p q s t h = record {
    listed = has-remove_first_ne p q s.pages h;
    cell = ground arith;
    grown = omega arith;
  }

  reap-Same : (p q : ℕ) (s : Pool) (t : Trace) → q ≢ p → p < s.next → Same p s (reap d cfg q s t).0
  unfolding reap
  reap-Same p q s t h l =
      let first = remove_page_locked-Same p q s t h in
      let (s1, t1) = remove_page_locked q s t in
      ground (arith, first, Same-trans first (add_page-Same p s1 t1 (omega (arith, first.grown))))

  reap_one-Same :
      (now p q : ℕ) (s : Pool) (t : Trace)
      → q ≢ p
      → p < s.next
      → Same p s (reap_one d cfg now q s t).0
  unfolding reap_one set_state
  reap_one-Same now p q s t h l =
      let same : Same p s s = record { listed = refl; cell = refl; grown = omega arith } in
      let closed_too : Same p s (set_state q closing s) = record {
        listed = refl;
        cell = ground arith;
        grown = omega arith;
      } in
      ground (arith, same, closed_too, reap-Same p q s t h l)

  reap_loop-Same :
      (now p : ℕ) (ps : List ℕ) (s : Pool) (t : Trace)
      → has p ps ≡ false
      → p < s.next
      → Same p s (reap_loop d cfg now ps s t).0
  unfolding reap_loop
  reap_loop-Same now p [] s t h l = record { listed = refl; cell = refl; grown = omega arith }
  reap_loop-Same now p (q ∷ ps) s t h l =
      let here = reap_one-Same now p q s t (ground arith) l in
      Same-trans here (reap_loop-Same now p ps _ _ (ground arith) (omega (arith, here.grown)))

  -- The page itself is gone after its removal, also if another is added.
  reap_self :
      (p : ℕ) (s : Pool) (t : Trace)
      → IsDistinct s.pages
      → p < s.next
      → (has p (reap d cfg p s t).0.pages ≡ false) × (s.next ≤ (reap d cfg p s t).0.next)
  unfolding reap remove_page_locked
  reap_self p s t u l =
      let (s1, t1) = remove_page_locked p s t in
      let rest = add_page-Same p s1 t1 l in
      ground (arith, has-remove_first_self p s.pages u, rest.listed, rest.grown)

  -- The step at the page itself.
  reap_one_self :
      (now p : ℕ) (s : Pool) (t : Trace)
      → IsDistinct s.pages
      → has p s.pages ≡ true
      → p < s.next
      → (has p (reap_one d cfg now p s t).0.pages ≡ not (is_due cfg now (s.store p)))
        × (s.next ≤ (reap_one d cfg now p s t).0.next)
  unfolding reap_one set_state
  reap_one_self now p s t u h l = ground (arith, reap_self p s t u l)

  reap_loop-has :
      (now p : ℕ) (ps : List ℕ) (s : Pool) (t : Trace)
      → IsDistinct ps
      → has p ps ≡ true
      → IsWellFormed s
      → has p s.pages ≡ true
      → p < s.next
      → has p (reap_loop d cfg now ps s t).0.pages ≡ not (is_due cfg now (s.store p))
  unfolding reap_loop
  reap_loop-has now p [] s t v m w h l = cc
  reap_loop-has now p (q ∷ ps) s t v m w h l =
      let (s', t') = reap_one d cfg now q s t in
      elim (Bool-cases (q == p)) [
        | inl e ↦
            let same : q ≡ p = (==_iff q p).0 e in
            let (gone, grown) = reap_one_self now p s t w.distinct h l in
            let rest =
              reap_loop-Same now p ps _ (reap_one d cfg now p s t).1 (rw same at v.0)
                (omega arith) in
            rw same (rest.listed ∙ gone)
        | inr e ↦
            let differs : q ≢ p = λ same. cc ((==_iff q p).1 same) in
            let here = reap_one-Same now p q s t differs l in
            reap_loop-has now p ps s' t' v.1 (ground arith)
              (reap_one-IsWellFormed d cfg now q s t w) (here.listed ∙ h)
              (omega (arith, here.grown))
            ∙ ap (λ (pp : PoolPage). not (is_due cfg now pp)) here.cell
      ]

  -- A run of the reaper takes off the slice exactly those of its pages that are due at the time it
  -- reads: a page that is idle, young, or busy within its grace period stays.
  pub run_reap-has :
      (s : Pool) (t : Trace) (p : ℕ)
      → IsWellFormed s
      → has p s.pages ≡ true
      → has p (run_reap d cfg s t).0.pages ≡ not (is_due cfg (d.now t) (s.store p))
  unfolding run_reap
  run_reap-has s t p w h =
      reap_loop-has (d.now t) p s.pages s (clock_read ∷ t) w.distinct h w h
        (All-has _ p s.pages w.allocated h)
