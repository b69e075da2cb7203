-- ===== src/Pool/Custody/Turns.antt =====
-- pool.go: what each turn of a goroutine does with the pages of the browser.
use browserpm.Common.{
  ℕ, suc, ◌+◌, ◌≤◌, ◌<◌, ◌≡◌, refl, ap, ◌∙◌, inl, inr, true, false, List, [], ◌∷◌, arith, All,
  All-append,
}
use browserpm.Config.{PoolConfig}
use browserpm.Driver.{Driver, Trace, opened, released, page_closed}
use browserpm.Pool.Page.{Pool, PoolPage, closed, update, set_state, append_page, alloc}
use browserpm.Pool.Remove.{remove_first, remove_page_locked, close_all, close}
use browserpm.Pool.Leaks.{
  listed, listed-append, listed-update_same, listed-remove_first, create_and_init_page-Opened,
}
use browserpm.Pool.Custody.{
  Phase, outside, creating, carrying, dismantling, hands, create_turn, append_turn, remove_turn,
  clear_turn, dismantle_turn, close_turn, IsAfterRemoval, ends, replaces,
}

-- How many pages in a goroutine's hands stand for the page `h` of the browser.
abbrev pub held : ℕ → (ℕ → PoolPage) → Phase → ℕ
held h store x = listed h store (hands x)

abbrev pub IsBelow : ℕ → List ℕ → Type 0
IsBelow k ps = All (λ p. p < k) ps

pub IsBelow-le : (j k : ℕ) (ps : List ℕ) → j ≤ k → IsBelow j ps → IsBelow k ps
IsBelow-le j k [] l a = tt
IsBelow-le j k (p ∷ ps) l a = (omega (arith, l, a), IsBelow-le j k ps l a.1)

IsBelow-remove_first : (k p : ℕ) (ps : List ℕ) → IsBelow k ps → IsBelow k (remove_first p ps)
unfolding remove_first
IsBelow-remove_first k p [] a = tt
IsBelow-remove_first k p (q ∷ ps) a = ground (arith, a, IsBelow-remove_first k p ps a.1)

pub listed-agree :
    (h k : ℕ) (f g : ℕ → PoolPage) (ps : List ℕ)
    → ((p : ℕ) → p < k → (g p).page ≡ (f p).page)
    → IsBelow k ps
    → listed h g ps ≡ listed h f ps
listed-agree h k f g [] e a = refl
listed-agree h k f g (p ∷ ps) e a = ground (arith, e p a.0, listed-agree h k f g ps e a.1)

set_state-page :
    (p : ℕ) (s : Pool) (q : ℕ) → ((set_state p closed s).store q).page ≡ (s.store q).page
unfolding set_state
set_state-page p s q = ground arith

pub alloc-page :
    (pp : PoolPage) (s : Pool) (p : ℕ)
    → p < s.next
    → (update s.store s.next pp p).page ≡ (s.store p).page
alloc-page pp s p l = ground arith

hands-IsAfterRemoval : (x : Phase) → IsAfterRemoval x → hands x ≡ []
hands-IsAfterRemoval _ ends = refl
hands-IsAfterRemoval _ replaces = refl

module _ (h : ℕ) where
  -- What a turn from the phase `x` does: it closes as much of `h` as it takes out of the slice and out of the
  -- goroutine's hands, at least, and puts what it opens into them.
  pub record IsTurn (x : Phase) (s : Pool) (t : Trace) (r : Phase × Pool × Trace) : Type 0 where
    pub balance :
        opened h r.2 + released h t + listed h s.store s.pages + held h s.store x
        ≤ opened h t + released h r.2 + listed h (r.1).store (r.1).pages + held h (r.1).store r.0
    pub grows : s.next ≤ (r.1).next
    pub keeps : (p : ℕ) → p < s.next → ((r.1).store p).page ≡ (s.store p).page
    pub slice : IsBelow (r.1).next (r.1).pages
    pub in_hands : IsBelow (r.1).next (hands r.0)

  -- A goroutine that has nothing in its hands goes on without the pool.
  pub pass-IsTurn :
      (x y : Phase) (s : Pool) (t : Trace)
      → hands x ≡ []
      → hands y ≡ []
      → IsBelow s.next s.pages
      → IsTurn x s t (y, s, t)
  pass-IsTurn x y s t e f a = record {
    balance = omega (arith, ap (listed h s.store) e, ap (listed h s.store) f);
    grows = omega arith;
    keeps = λ p l. refl;
    slice = a;
    in_hands = rw f tt;
  }

  module _ (d : Driver) (cfg : PoolConfig) where
    -- The loop of Close closes each page of its list, and changes no page of a cell.
    pub close_all-released :
        (ps : List ℕ) (s : Pool) (t : Trace)
        → let (s', t') = close_all d cfg ps s t in
          (opened h t' ≡ opened h t)
          × (released h t' ≡ released h t + listed h s.store ps)
          × (s'.next ≡ s.next)
          × ((p : ℕ) → (s'.store p).page ≡ (s.store p).page)
    unfolding close_all set_state
    close_all-released [] s t = (refl, omega arith, refl, λ p. refl)
    close_all-released (p ∷ ps) s t =
        let t1 : Trace = page_closed (s.store p).page ∷ t in
        let (o, r, n, k) = close_all-released ps (set_state p closed s) t1 in
        let same = listed-update_same h s.store p (record (s.store p) { state = closed }) ps refl in
        (o, ground (arith, r, same), n, λ q. k q ∙ set_state-page p s q)

    pub create_turn-IsTurn :
        (s : Pool) (t : Trace)
        → IsBelow s.next s.pages
        → IsTurn creating s t (create_turn d cfg s t)
    unfolding create_turn alloc
    create_turn-IsTurn s t a = elim (create_and_init_page-Opened h d cfg s t) [
      | inl (x, r, q, o) ↦
          rw (r, create_turn, q)
            (record {
              balance = omega (arith, o);
              grows = omega arith;
              keeps = λ p l. refl;
              slice = a;
              in_hands = tt;
            })
      | inr (pp, r, q, o, u) ↦
          rw (r, create_turn, q)
            (record {
              balance = ground (
                arith,
                o,
                u,
                listed-agree h s.next s.store (update s.store s.next pp) s.pages
                    (λ p l. alloc-page pp s p l) a,
              );
              grows = omega arith;
              keeps = λ p l. alloc-page pp s p l;
              slice = IsBelow-le s.next (suc s.next) s.pages (omega arith) a;
              in_hands = (omega arith, tt);
            })
    ]

    pub append_turn-IsTurn :
        (p : ℕ) (s : Pool) (t : Trace)
        → IsBelow s.next s.pages
        → p < s.next
        → IsTurn (carrying p) s t (append_turn d cfg p s t)
    unfolding append_turn append_page
    append_turn-IsTurn p s t a l = record {
      balance = ground (arith, listed-append h s.store s.pages (p ∷ []));
      grows = omega arith;
      keeps = λ q m. refl;
      slice = All-append _ s.pages (p ∷ []) a (l, tt);
      in_hands = tt;
    }

    pub remove_turn-IsTurn :
        (p : ℕ) (x : Phase) (s : Pool) (t : Trace)
        → IsBelow s.next s.pages
        → IsAfterRemoval x
        → IsTurn outside s t (remove_turn d cfg p x s t)
    unfolding remove_turn remove_page_locked set_state
    remove_turn-IsTurn p x s t a e = record {
      balance = ground (
        arith,
        hands-IsAfterRemoval x e,
        listed-remove_first h s.store p s.pages,
        listed-update_same h s.store p (record (s.store p) { state = closed })
            (remove_first p s.pages) refl,
      );
      grows = omega arith;
      keeps = λ q m. set_state-page p (record s { pages = remove_first p s.pages }) q;
      slice = IsBelow-remove_first s.next p s.pages a;
      in_hands = rw (hands-IsAfterRemoval x e) tt;
    }

    pub clear_turn-IsTurn :
        (s : Pool) (t : Trace) → IsBelow s.next s.pages → IsTurn outside s t (clear_turn d cfg s t)
    unfolding clear_turn
    clear_turn-IsTurn s t a = record {
      balance = omega arith;
      grows = omega arith;
      keeps = λ q m. refl;
      slice = tt;
      in_hands = a;
    }

    pub dismantle_turn-IsTurn :
        (p : ℕ) (ps : List ℕ) (s : Pool) (t : Trace)
        → IsBelow s.next s.pages
        → IsBelow s.next ps
        → IsTurn (dismantling (p ∷ ps)) s t (dismantle_turn d cfg p ps s t)
    unfolding dismantle_turn set_state
    dismantle_turn-IsTurn p ps s t a b =
        let same = listed-update_same h s.store p (record (s.store p) { state = closed }) in
        record {
          balance = ground (arith, same ps refl, same s.pages refl);
          grows = omega arith;
          keeps = λ q m. set_state-page p s q;
          slice = a;
          in_hands = b;
        }

    pub close_turn-IsTurn : (s : Pool) (t : Trace) → IsTurn outside s t (close_turn d cfg s t)
    unfolding close_turn close
    close_turn-IsTurn s t =
        let (o, r, n, k) =
          close_all-released s.pages
            (record s { is_cancelled = true; checker_runs = false; reaper_runs = false }) t in
        record {
          balance = omega (arith, o, r);
          grows = omega (arith, n);
          keeps = λ q m. k q;
          slice = tt;
          in_hands = tt;
        }
