-- ===== src/Pool/Invariant.antt =====
-- pool.go: the pool's well-formedness. No page stands twice in the slice, each has a cell of its own,
-- and none of them is in the closed state. Here: the steps that the operations are made of.
use browserpm.Common.{
  ℕ, suc, ◌<◌, ◌≡◌, refl, false, List, [], ◌∷◌, ◌++◌, arith, ◌==◌, Bool-cases, inl, inr, All,
  All-append, has, IsDistinct, has-append,
}
use browserpm.Pool.Page.{
  Pool, PoolPage, closing, is_closed_state, update, set_state, touch, claim, release, append_page,
  alloc,
}
use browserpm.Pool.Create.{new_page_pool}
use browserpm.Pool.Remove.{remove_first, remove_page_locked}
use browserpm.Driver.{Trace}

abbrev pub IsOpen : (ℕ → PoolPage) → ℕ → Type 0
IsOpen store p = is_closed_state (store p).state ≡ false

pub record IsWellFormed (s : Pool) : Type 0 where
  pub distinct : IsDistinct s.pages
  pub allocated : All (λ p. p < s.next) s.pages
  pub live : All (IsOpen s.store) s.pages

-- A page that is not in the slice may change its cell in any way.
pub All-update_absent :
    (store : ℕ → PoolPage) (p : ℕ) (pp : PoolPage) (ps : List ℕ)
    → has p ps ≡ false
    → All (IsOpen store) ps
    → All (IsOpen (update store p pp)) ps
All-update_absent store p pp [] h a = tt
All-update_absent store p pp (q ∷ ps) h a =
    (ground arith, All-update_absent store p pp ps (ground arith) a.1)

-- A cell that stays open may change otherwise.
pub All-update-IsOpen :
    (store : ℕ → PoolPage) (p : ℕ) (pp : PoolPage) (ps : List ℕ)
    → is_closed_state pp.state ≡ false
    → All (IsOpen store) ps
    → All (IsOpen (update store p pp)) ps
All-update-IsOpen store p pp [] h a = tt
All-update-IsOpen store p pp (q ∷ ps) h a = (ground arith, All-update-IsOpen store p pp ps h a.1)

-- A number above all is not in the list.
pub has-of_All_lt : (p : ℕ) (ps : List ℕ) → All (λ q. q < p) ps → has p ps ≡ false
has-of_All_lt p [] a = refl
has-of_All_lt p (q ∷ ps) a = ground (arith, has-of_All_lt p ps a.1)

IsDistinct-snoc :
    (p : ℕ) (ps : List ℕ) → has p ps ≡ false → IsDistinct ps → IsDistinct (ps ++ (p ∷ []))
IsDistinct-snoc p [] h d = (refl, tt)
IsDistinct-snoc p (q ∷ ps) h d =
    (ground (arith, has-append q ps (p ∷ [])), IsDistinct-snoc p ps (ground arith) d.1)

All-lt_suc : (n : ℕ) (ps : List ℕ) → All (λ q. q < n) ps → All (λ q. q < suc n) ps
All-lt_suc n [] a = tt
All-lt_suc n (q ∷ ps) a = (omega arith, All-lt_suc n ps a.1)

-- A new cell changes nothing for the pages of the slice.
pub alloc-IsWellFormed : (s : Pool) (pp : PoolPage) → IsWellFormed s → IsWellFormed (alloc pp s)
unfolding alloc
alloc-IsWellFormed s pp w = record {
  distinct = w.distinct;
  allocated = All-lt_suc s.next s.pages w.allocated;
  live =
      All-update_absent s.store s.next pp s.pages (has-of_All_lt s.next s.pages w.allocated) w.live;
}

-- A new page that is not closed may be appended.
pub append_page-IsWellFormed :
    (s : Pool) (pp : PoolPage)
    → is_closed_state pp.state ≡ false
    → IsWellFormed s
    → IsWellFormed (append_page s.next (alloc pp s))
unfolding append_page alloc
append_page-IsWellFormed s pp h w =
    let fresh = has-of_All_lt s.next s.pages w.allocated in
    record {
      distinct = IsDistinct-snoc s.next s.pages fresh w.distinct;
      allocated =
          All-append _ s.pages (s.next ∷ []) (All-lt_suc s.next s.pages w.allocated) (omega arith);
      live =
          All-append _ s.pages (s.next ∷ [])
            (All-update_absent s.store s.next pp s.pages fresh w.live) (ground arith);
    }

-- Removal leaves a part of the slice.
has-remove_first : (p q : ℕ) (ps : List ℕ) → has q ps ≡ false → has q (remove_first p ps) ≡ false
unfolding remove_first
has-remove_first p q [] h = refl
has-remove_first p q (x ∷ ps) h = ground (arith, has-remove_first p q ps)

pub All-remove_first {κ} :
    (P : ℕ → Type κ) (p : ℕ) (ps : List ℕ) → All P ps → All P (remove_first p ps)
unfolding remove_first
All-remove_first P p [] a = tt
All-remove_first P p (x ∷ ps) a = elim (Bool-cases (x == p)) [
  | inl e ↦ rw e a.1
  | inr e ↦ rw e (a.0, All-remove_first P p ps a.1)
]

pub IsDistinct-remove_first : (p : ℕ) (ps : List ℕ) → IsDistinct ps → IsDistinct (remove_first p ps)
unfolding remove_first
IsDistinct-remove_first p [] d = tt
IsDistinct-remove_first p (x ∷ ps) d = elim (Bool-cases (x == p)) [
  | inl e ↦ rw e d.1
  | inr e ↦ rw e (has-remove_first p x ps d.0, IsDistinct-remove_first p ps d.1)
]

-- After the removal the page is not in the slice, since it stood there once at most.
pub has-remove_first_self :
    (p : ℕ) (ps : List ℕ) → IsDistinct ps → has p (remove_first p ps) ≡ false
unfolding remove_first
has-remove_first_self p [] d = refl
has-remove_first_self p (x ∷ ps) d = ground (arith, has-remove_first_self p ps d.1)

pub remove_page_locked-IsWellFormed :
    (p : ℕ) (s : Pool) (t : Trace) → IsWellFormed s → IsWellFormed (remove_page_locked p s t).0
unfolding remove_page_locked
remove_page_locked-IsWellFormed p s t w = record {
  distinct = IsDistinct-remove_first p s.pages w.distinct;
  allocated = All-remove_first _ p s.pages w.allocated;
  live =
      All-update_absent s.store p _ _ (has-remove_first_self p s.pages w.distinct)
        (All-remove_first _ p s.pages w.live);
}

-- The atomic operations on one page keep the pool well formed. The first three change no state, so a
-- closed cell stays closed, and such a cell is not in the slice.
module _ (p : ℕ) (s : Pool) (w : IsWellFormed s) where
  kept :
      (pp : PoolPage) (ps : List ℕ)
      → pp.state ≡ (s.store p).state
      → All (IsOpen s.store) ps
      → All (IsOpen (update s.store p pp)) ps
  kept pp [] h a = tt
  kept pp (q ∷ ps) h a = (ground arith, kept pp ps h a.1)

  pub touch-IsWellFormed : (now : ℕ) → IsWellFormed (touch p now s)
  unfolding touch
  touch-IsWellFormed now = record {
    distinct = w.distinct;
    allocated = w.allocated;
    live = kept _ s.pages refl w.live;
  }

  pub claim-IsWellFormed : (now : ℕ) → IsWellFormed (claim p now s)
  unfolding claim
  claim-IsWellFormed now = record {
    distinct = w.distinct;
    allocated = w.allocated;
    live = kept _ s.pages refl w.live;
  }

  pub release-IsWellFormed : IsWellFormed (release p s)
  unfolding release
  release-IsWellFormed = record {
    distinct = w.distinct;
    allocated = w.allocated;
    live = kept _ s.pages refl w.live;
  }

  pub set_state-closing-IsWellFormed : IsWellFormed (set_state p closing s)
  unfolding set_state
  set_state-closing-IsWellFormed = record {
    distinct = w.distinct;
    allocated = w.allocated;
    live = All-update-IsOpen s.store p _ s.pages refl w.live;
  }

pub new_page_pool-IsWellFormed : (c : ℕ) → IsWellFormed (new_page_pool c)
unfolding new_page_pool
new_page_pool-IsWellFormed c = record { distinct = tt; allocated = tt; live = tt }
