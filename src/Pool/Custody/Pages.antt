-- ===== src/Pool/Custody/Pages.antt =====
-- pool.go and health.go: however goroutines warm up, grow, replace, reap, rebuild and close the pool, no page
-- of the browser is forgotten.
use browserpm.Common.{
  ℕ, ◌+◌, ◌≤◌, ◌<◌, ◌≡◌, refl, ap, sym, inl, inr, Bool-cases, List, [], ◌∷◌, arith, ◌==◌, All,
  subst,
}
use browserpm.Common.Turns.{total, total-enter, total-zero, total-cong}
use browserpm.Config.{PoolConfig}
use browserpm.Driver.{Driver, Trace, opened, released}
use browserpm.Pool.Page.{Pool}
use browserpm.Pool.Leaks.{listed}
use browserpm.Pool.Custody.{
  Phase, outside, creating, carrying, dismantling, hands, System, create_turn, append_turn,
  remove_turn, clear_turn, dismantle_turn, close_turn, moved, Step, begins, creates, appends,
  removes, clears, dismantles, finishes, closes, uses, works, Reach, here, later,
}
use browserpm.Pool.Custody.Turns.{
  held, IsBelow, IsBelow-le, listed-agree, IsTurn, pass-IsTurn, create_turn-IsTurn,
  append_turn-IsTurn, remove_turn-IsTurn, clear_turn-IsTurn, dismantle_turn-IsTurn,
  close_turn-IsTurn,
}

module _ (h : ℕ) (d : Driver) (cfg : PoolConfig) (n : ℕ) where
  record IsKept (u : System) : Type 0 where
    counted :
        opened h u.trace
        ≤ released h u.trace
          + listed h (u.pool).store (u.pool).pages
          + total (held h (u.pool).store) n u.phase
    slice : IsBelow (u.pool).next (u.pool).pages
    in_hands : (i : ℕ) → i < n → IsBelow (u.pool).next (hands (u.phase i))

  moved-IsKept :
      (i : ℕ) (x : Phase) (u : System) (r : Phase × Pool × Trace)
      → i < n
      → u.phase i ≡ x
      → IsTurn h x u.pool u.trace r
      → IsKept u
      → IsKept (moved i u.phase r)
  moved-IsKept i x u (x', s', t') l e a k =
      let same = total-cong (held h s'.store) (held h (u.pool).store) n u.phase (λ j m.
        listed-agree h (u.pool).next (u.pool).store s'.store (hands (u.phase j)) a.keeps
          (k.in_hands j m)) in
      let own =
        listed-agree h (u.pool).next (u.pool).store s'.store (hands (u.phase i)) a.keeps
          (k.in_hands i l) in
      record {
        counted = omega (
          arith,
          k.counted,
          a.balance,
          same,
          own,
          ap (held h (u.pool).store) e,
          total-enter (held h s'.store) n i u.phase x' l,
        );
        slice = a.slice;
        in_hands = λ j m. elim (Bool-cases (i == j)) [
          | inl q ↦ rw q a.in_hands
          | inr q ↦
              rw q (IsBelow-le (u.pool).next s'.next (hands (u.phase j)) a.grows (k.in_hands j m))
        ];
      }

  Step-IsKept : {u v : System} → Step d cfg n u v → IsKept u → IsKept v
  Step-IsKept {u} (begins i l e) k =
      moved-IsKept i outside u (creating, u.pool, u.trace) l e
        (pass-IsTurn h outside creating u.pool u.trace refl refl k.slice) k
  Step-IsKept {u} (creates i l e) k =
      moved-IsKept i creating u (create_turn d cfg u.pool u.trace) l e
        (create_turn-IsTurn h d cfg u.pool u.trace k.slice) k
  Step-IsKept {u} (appends i p l e) k =
      let mine : IsBelow (u.pool).next (p ∷ []) = rw e at (k.in_hands i l) in
      moved-IsKept i (carrying p) u (append_turn d cfg p u.pool u.trace) l e
        (append_turn-IsTurn h d cfg p u.pool u.trace k.slice mine.0) k
  Step-IsKept {u} (removes i p x l e a) k =
      moved-IsKept i outside u (remove_turn d cfg p x u.pool u.trace) l e
        (remove_turn-IsTurn h d cfg p x u.pool u.trace k.slice a) k
  Step-IsKept {u} (clears i l e) k =
      moved-IsKept i outside u (clear_turn d cfg u.pool u.trace) l e
        (clear_turn-IsTurn h d cfg u.pool u.trace k.slice) k
  Step-IsKept {u} (dismantles i p ps l e) k =
      let mine : IsBelow (u.pool).next (p ∷ ps) = rw e at (k.in_hands i l) in
      moved-IsKept i (dismantling (p ∷ ps)) u (dismantle_turn d cfg p ps u.pool u.trace) l e
        (dismantle_turn-IsTurn h d cfg p ps u.pool u.trace k.slice mine.1) k
  Step-IsKept {u} (finishes i l e) k =
      moved-IsKept i (dismantling []) u (outside, u.pool, u.trace) l e
        (pass-IsTurn h (dismantling []) outside u.pool u.trace refl refl k.slice) k
  Step-IsKept {u} (closes i l e) k =
      moved-IsKept i outside u (close_turn d cfg u.pool u.trace) l e
        (close_turn-IsTurn h d cfg u.pool u.trace) k
  Step-IsKept {u} (uses s' a) k =
      let below : (ps : List ℕ) → IsBelow (u.pool).next ps → IsBelow s'.next ps =
        λ ps b. subst (λ m. IsBelow m ps) (sym a.same_cells) b in
      let agree = listed-agree h (u.pool).next (u.pool).store s'.store in
      record {
        counted = omega (
          arith,
          k.counted,
          ap (listed h s'.store) a.same_slice,
          agree (u.pool).pages (λ p l. a.same_pages p) k.slice,
          total-cong (held h s'.store) (held h (u.pool).store) n u.phase
              (λ i l. agree (hands (u.phase i)) (λ p m. a.same_pages p) (k.in_hands i l)),
        );
        slice = rw a.same_slice (below (u.pool).pages k.slice);
        in_hands = λ i l. below (hands (u.phase i)) (k.in_hands i l);
      }
  Step-IsKept {u} (works t' same) k = record {
    counted = omega (arith, k.counted, same h);
    slice = k.slice;
    in_hands = k.in_hands;
  }

  Reach-IsKept : {u v : System} → Reach d cfg n u v → IsKept u → IsKept v
  Reach-IsKept here k = k
  Reach-IsKept (later r st) k = Step-IsKept st (Reach-IsKept r k)

  -- However `n` goroutines warm up, grow, replace, reap, rebuild and close a pool at once, from a time when
  -- none of them has a page in its hands and each page that was opened is closed or stands in the slice,
  -- each time that the page `h` of the browser was opened it was closed, or a goroutine was sent to
  -- close it, or it stands in the slice, or a goroutine is about to append or to close it.
  pub Reach-opened :
      (s : Pool) (t : Trace) (v : System)
      → All (λ p. p < s.next) s.pages
      → opened h t ≤ released h t + listed h s.store s.pages
      → Reach d cfg n (record { pool = s; trace = t; phase = λ i. outside }) v
      → opened h v.trace
        ≤ released h v.trace
          + listed h (v.pool).store (v.pool).pages
          + total (held h (v.pool).store) n v.phase
  Reach-opened s t v a b r =
      (Reach-IsKept r (record {
        counted = omega (arith, b, total-zero (held h s.store) n outside refl);
        slice = a;
        in_hands = λ i l. tt;
      })).counted
