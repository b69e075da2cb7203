-- ===== src/Pool/Custody.antt =====
-- pool.go and health.go: who has which page while goroutines warm up, grow, replace, reap, rebuild and close
-- the pool at once. A page is in the hands of a goroutine from its creation until it is appended, and
-- RebuildAll has the old slice in its hands while it closes it. A step runs from one point where a
-- goroutine does not hold the pool's lock to its next such point.
pub mod Turns
pub mod Pages
pub mod Late
pub mod Uses
use browserpm.Common.{ℕ, ◌<◌, ◌≡◌, List, [], ◌∷◌}
use browserpm.Common.Turns.{enter}
use browserpm.Errors.{ok, err}
use browserpm.Config.{PoolConfig}
use browserpm.Driver.{Driver, Trace, opened, released, page_closed}
use browserpm.Pool.Page.{Pool, closed, set_state, append_page}
use browserpm.Pool.Create.{create_and_init_page}
use browserpm.Pool.Remove.{remove_page_locked, close}

-- Where a goroutine is: in none of the following; about to create a page; with a page that it is about to
-- append; with the pages of an old slice that it has not closed yet.
pub data Phase : Type 0 where
  outside creating : Phase
  carrying : ℕ → Phase
  dismantling : List ℕ → Phase

-- The pages in a goroutine's hands.
abbrev pub hands : Phase → List ℕ
hands outside = []
hands creating = []
hands (carrying p) = p ∷ []
hands (dismantling ps) = ps

pub record System : Type 0 where
  pub pool : Pool
  pub trace : Trace
  pub phase : ℕ → Phase

module _ (d : Driver) (cfg : PoolConfig) where
  -- createAndInitPage; its callers give up on an error.
  unfoldable pub create_turn : Pool → Trace → Phase × Pool × Trace
  create_turn s t =
      let (r, s', t') = create_and_init_page d cfg s t in
      (elim r [ ok p ↦ carrying p | err e ↦ outside ], s', t')

  -- The critical section of addPage, of replacePage and of Acquire.
  unfoldable pub append_turn : ℕ → Pool → Trace → Phase × Pool × Trace
  append_turn p s t = (outside, append_page p s, t)

  -- The first critical section of replacePage, and that of runReap, with what follows it.
  unfoldable pub remove_turn : ℕ → Phase → Pool → Trace → Phase × Pool × Trace
  remove_turn p x s t = let (s', t') = remove_page_locked p s t in (x, s', t')

  -- The critical section of RebuildAll.
  unfoldable pub clear_turn : Pool → Trace → Phase × Pool × Trace
  clear_turn s t = (dismantling s.pages, record s { pages = [] }, t)

  -- A round of its loop over the old pages.
  unfoldable pub dismantle_turn : ℕ → List ℕ → Pool → Trace → Phase × Pool × Trace
  dismantle_turn p ps s t = (dismantling ps, set_state p closed s, page_closed (s.store p).page ∷ t)

  -- Close, which keeps the lock to its end.
  unfoldable pub close_turn : Pool → Trace → Phase × Pool × Trace
  close_turn s t = let (s', t') = close d cfg s t in (outside, s', t')

-- A change of the counters, of the states and of the scheduler: the slice and the browser's pages stay.
pub record IsUse (s s' : Pool) : Type 0 where
  pub same_slice : s'.pages ≡ s.pages
  pub same_cells : s'.next ≡ s.next
  pub same_pages : (p : ℕ) → (s'.store p).page ≡ (s.store p).page

-- What a goroutine that has removed a page does: it creates another one, or it does not.
pub data IsAfterRemoval : Phase → Type 0 where
  ends : IsAfterRemoval outside
  replaces : IsAfterRemoval creating

abbrev pub moved : ℕ → (ℕ → Phase) → Phase × Pool × Trace → System
moved i f (x, s, t) = record { pool = s; trace = t; phase = enter f i x }

module _ (d : Driver) (cfg : PoolConfig) where
  -- A step of one of the first `n` goroutines; the last two are of any goroutine, and stand for all that
  -- Acquire, Release, the loops and the background goroutines do besides.
  pub data Step (n : ℕ) (u : System) : System → Type 0 where
    begins :
        (i : ℕ)
        → i < n
        → u.phase i ≡ outside
        → Step n u (moved i u.phase (creating, u.pool, u.trace))
    creates :
        (i : ℕ)
        → i < n
        → u.phase i ≡ creating
        → Step n u (moved i u.phase (create_turn d cfg u.pool u.trace))
    appends :
        (i p : ℕ)
        → i < n
        → u.phase i ≡ carrying p
        → Step n u (moved i u.phase (append_turn d cfg p u.pool u.trace))
    removes :
        (i p : ℕ) (x : Phase)
        → i < n
        → u.phase i ≡ outside
        → IsAfterRemoval x
        → Step n u (moved i u.phase (remove_turn d cfg p x u.pool u.trace))
    clears :
        (i : ℕ)
        → i < n
        → u.phase i ≡ outside
        → Step n u (moved i u.phase (clear_turn d cfg u.pool u.trace))
    dismantles :
        (i p : ℕ) (ps : List ℕ)
        → i < n
        → u.phase i ≡ dismantling (p ∷ ps)
        → Step n u (moved i u.phase (dismantle_turn d cfg p ps u.pool u.trace))
    finishes :
        (i : ℕ)
        → i < n
        → u.phase i ≡ dismantling []
        → Step n u (moved i u.phase (outside, u.pool, u.trace))
    closes :
        (i : ℕ)
        → i < n
        → u.phase i ≡ outside
        → Step n u (moved i u.phase (close_turn d cfg u.pool u.trace))
    uses : (s' : Pool) → IsUse u.pool s' → Step n u (record u { pool = s' })
    works :
        (t' : Trace)
        → ((h : ℕ) → (opened h t' ≡ opened h u.trace) × (released h t' ≡ released h u.trace))
        → Step n u (record u { trace = t' })

  pub data Reach (n : ℕ) (u : System) : System → Type 0 where
    here : Reach n u u
    later : {v w : System} → Reach n u v → Step n v w → Reach n u w
