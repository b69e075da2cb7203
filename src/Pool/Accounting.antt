-- ===== src/Pool/Accounting.antt =====
-- pool.go: the counters of operations and uses, and what Stats reports.
use browserpm.Common.{
  ℕ, suc, ◌+◌, ◌<◌, ◌≡◌, refl, ap, Bool, inl, inr, Option, some, List, [], ◌∷◌, arith,
  if◌then◌else◌, length, All,
}
use browserpm.Common.Int.{word}
use browserpm.Errors.{ok}
use browserpm.Config.{PoolConfig}
use browserpm.Driver.{Driver, Trace}
use browserpm.Pool.Page.{
  Pool, PoolPage, is_idle, is_closing, touch, claim, release, alloc, append_page,
}
use browserpm.Pool.Select.{try_acquire}
use browserpm.Pool.Acquire.{grow}
use browserpm.Pool.Observe.{stats_loop, stats}
use browserpm.Pool.Invariant.{IsWellFormed, IsOpen}
use browserpm.Pool.Acquired.{try_acquire-Tried, grow-Grown}

release-touch :
    (p now q : ℕ) (s : Pool)
    → (s.store p).active_ops < 18446744073709551616
    → ((release p (touch p now s)).store q).active_ops ≡ (s.store q).active_ops
unfolding release touch
release-touch p now q s h = ground arith

grown_counts :
    (s : Pool) (pp : PoolPage) (now : ℕ)
    → pp.active_ops ≡ 0
    → pp.use_count ≡ 0
    → let qq = (append_page s.next (claim s.next now (alloc pp s))).store s.next in
      (qq.active_ops ≡ 1) × (qq.use_count ≡ 0)
unfolding append_page claim alloc
grown_counts s pp now a u = ground arith

module _ (d : Driver) (cfg : PoolConfig) (s : Pool) (t : Trace) (p : ℕ) where
  -- Release undoes what tryAcquire counted: afterwards every page has as many active operations as
  -- before, and the slice is the same.
  pub release-try_acquire :
      (try_acquire cfg d s t).0.0 ≡ some p
      → (s.store p).active_ops < 18446744073709551616
      → let s' = release p (try_acquire cfg d s t).1 in
        (s'.pages ≡ s.pages) × ((q : ℕ) → (s'.store q).active_ops ≡ (s.store q).active_ops)
  release-try_acquire h b =
      let (c, tried) = try_acquire-Tried d cfg s t in
      elim tried [
        | inl (r, e) ↦ cc (ap (λ (x : Option ℕ × ℕ). x.0) r)
        | inr (p', r, e, m, a) ↦
            let same : p ≡ p' = cc (ap (λ (x : Option ℕ × ℕ). x.0) r) in
            rw (e, ← same)
              (
                unfold release touch in refl,
                λ q. release-touch p (d.now t) q (record s { counter = c }) b,
              )
      ]

  -- A page that Acquire creates on demand is handed out with one active operation and no use: this
  -- use is never counted.
  pub grow-use_count :
      (grow d cfg s t).0 ≡ ok p
      → let pp = (grow d cfg s t).1.store p in (pp.active_ops ≡ 1) × (pp.use_count ≡ 0)
  grow-use_count h = elim (grow-Grown d cfg s t) [
    | inl (x, r, e) ↦ cc
    | inr (pp, now, r, e, i, a, u) ↦
        let same : p ≡ s.next = cc in rw (e, same) (grown_counts s pp now a u)
  ]

-- The number of pages that a test counts.
abbrev pub count_pages : (PoolPage → Bool) → Pool → List ℕ → ℕ
count_pages f s [] = 0
count_pages f s (p ∷ ps) = let rest = count_pages f s ps in if f (s.store p) then suc rest else rest

stats_loop-count :
    (s : Pool) (ps : List ℕ) (a b u : ℕ)
    → let (idles, closings, uses) = stats_loop s ps a b u in
      (idles ≡ a + count_pages (λ pp. is_idle pp.state) s ps)
      × (closings ≡ b + count_pages (λ pp. is_closing pp.state) s ps)
unfolding stats_loop
stats_loop-count s [] a b u = (omega arith, omega arith)
stats_loop-count s (p ∷ ps) a b u =
    let pp = s.store p in
    ground (
      arith,
      stats_loop-count s ps (if is_idle pp.state then suc a else a)
          (if is_closing pp.state then suc b else b) (word (u + pp.use_count)),
    )

count_open :
    (s : Pool) (ps : List ℕ)
    → All (IsOpen s.store) ps
    → count_pages (λ pp. is_idle pp.state) s ps + count_pages (λ pp. is_closing pp.state) s ps
      ≡ length ps
count_open s [] h = refl
count_open s (p ∷ ps) h = ground (arith, count_open s ps h.1)

-- In the statistics of a well-formed pool the idle and the closing pages make up all pages.
pub stats-total :
    (s : Pool)
    → IsWellFormed s
    → (stats s).idle_pages + (stats s).closing_pages ≡ (stats s).total_pages
unfolding stats
stats-total s w = omega (arith, stats_loop-count s s.pages 0 0 0, count_open s s.pages w.live)
