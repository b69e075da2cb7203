-- ===== src/Session/Interleaving/Contexts.antt =====
-- session.go: however calls of Do, DoShare and Close interleave, no browser context is lost.
use browserpm.Common.{ℕ, zero, suc, ◌+◌, ◌<◌, ◌≡◌, refl, ap, ◌∙◌, inl, inr, Option-cases, arith}
use browserpm.Common.Turns.{total, total-enter, total-zero}
use browserpm.Errors.{Error}
use browserpm.Driver.{Driver, Trace, contexts_opened, contexts_closed}
use browserpm.Pool.Contexts.{IsSame}
use browserpm.Session.State.{Session, Others, Caller, is_context_dead}
use browserpm.Session.Context.{tear_down}
use browserpm.Session.Exclusive.{do_exclusive, is_lost}
use browserpm.Session.Consistency.{build_context_locked-Built}
use browserpm.Session.Interleaving.{
  Phase, outside, begins, ensured, loses, rebuilds, leaves, awaits, dismantles, System, next, call,
  begin_round, work_alone, swap, rebuild_locked, leave, await, take_parts, dismantle, advance, Step,
  turn, shuts, shares, uses, works, IsAfterShare, ends, retries, gives_up, moved, Reach, here,
  later,
}
use browserpm.Session.Accounts.{
  held, IsPaired, with_pool-IsPaired, build_context_locked-Balanced, ensure_context-Balanced,
  tear_down-Balanced, closed-held, do_exclusive-IsSame,
}

-- Whether a goroutine in Close is about to close the context `c`.
abbrev pub pending : ℕ → Phase → ℕ
pending c (dismantles p b) = held c b
pending c _ = 0

module _ (d : Driver) (others : Others) (caller : Caller) (c : ℕ) where
  is_lost-IsSame :
      (e : Error) (s : Session) (t : Trace) → IsSame c t (is_lost d others caller e s t).1
  unfolding is_lost is_context_dead
  is_lost-IsSame e s t = ground arith

  pending-next : (n : ℕ) → pending c (next n) ≡ 0
  pending-next zero = refl
  pending-next (suc n) = refl

  pending-IsAfterShare : (n : ℕ) (x : Phase) → IsAfterShare n x → pending c x ≡ 0
  pending-IsAfterShare n _ ends = refl
  pending-IsAfterShare n _ retries = pending-next n
  pending-IsAfterShare n _ gives_up = refl

  -- A turn: what the session and the goroutine hold accounts for what is opened and closed.
  abbrev Accounted : Phase → Session → Trace → Phase × Session × Trace → Type 0
  Accounted x s t (x', s', t') =
      (contexts_opened c t' + contexts_closed c t + held c s.browser_context + pending c x
        ≡ contexts_opened c t + contexts_closed c t' + held c s'.browser_context + pending c x')
      × IsPaired s'

  rebuild_locked-Accounted :
      (n : ℕ) (s : Session) (t : Trace)
      → Accounted (rebuilds n) s t (rebuild_locked d others caller n s t)
  unfolding rebuild_locked
  rebuild_locked-Accounted n s t =
      let (s1, t1) = tear_down d s t in
      let down = tear_down-Balanced d c s t in
      let up = build_context_locked-Balanced d c s1 t1 (unfold tear_down in refl) in
      (
        omega (arith, down, up),
        elim (build_context_locked-Built d s1 t1) [
          | inl (r, e, w, a) ↦ inl e
          | inr (x, r, e, f, a) ↦
              inr (e ∙ (unfold tear_down in refl), f ∙ (unfold tear_down in refl))
        ],
      )

  work_alone-Accounted :
      (n : ℕ) (s : Session) (t : Trace)
      → IsPaired s
      → Accounted (ensured n) s t (work_alone d others caller n s t)
  unfolding work_alone
  work_alone-Accounted n s t v =
      let (r, t1) = do_exclusive d caller s t in
      let same = do_exclusive-IsSame d c caller s t in
      elim (Option-cases r) [
        | inl e ↦ rw (e, work_alone) (omega (arith, same), v)
        | inr (y, e) ↦
            rw (e, work_alone) (ground (arith, same, is_lost-IsSame y s t1, pending-next n), v)
      ]

  take_parts-Accounted :
      (s : Session) (t : Trace)
      → IsPaired s
      → Accounted outside s t (take_parts d others caller s t)
  unfolding take_parts
  take_parts-Accounted s t v = ground (arith, v)

  advance-Accounted :
      (x : Phase) (s : Session) (t : Trace)
      → IsPaired s
      → Accounted x s t (advance d others caller x s t)
  unfolding advance call begin_round swap leave await dismantle
  advance-Accounted outside s t v = ground (arith, v)
  advance-Accounted (begins n) s t v = ground (arith, ensure_context-Balanced d c s t v)
  advance-Accounted (ensured n) s t v = work_alone-Accounted n s t v
  advance-Accounted (loses n) s t v = ground (arith, v)
  advance-Accounted (rebuilds n) s t v = rebuild_locked-Accounted n s t
  advance-Accounted (leaves r n) s t v = ground (arith, v)
  advance-Accounted (awaits zero n) s t v = (omega arith, v)
  advance-Accounted (awaits (suc k) n) s t v = ground (arith, v)
  advance-Accounted (dismantles p b) s t v = (omega (arith, closed-held d c p b s t), v)

  module _ (n : ℕ) where
    abbrev IsAccounted : System → Type 0
    IsAccounted u =
        (contexts_opened c u.trace
          ≡ contexts_closed c u.trace
            + held c u.session.browser_context
            + total (pending c) n u.phase)
        × IsPaired u.session

    moved-IsAccounted :
        (i : ℕ) (x : Phase) (u : System) (r : Phase × Session × Trace)
        → i < n
        → u.phase i ≡ x
        → Accounted x u.session u.trace r
        → IsAccounted u
        → IsAccounted (moved d others caller i u.phase r)
    moved-IsAccounted i x u (x', s', t') l e (a, v) (k, w) =
        (omega (arith, k, a, total-enter (pending c) n i u.phase x', ap (pending c) e), v)

    Step-IsAccounted : {u v : System} → Step d others caller n u v → IsAccounted u → IsAccounted v
    Step-IsAccounted {u} (turn i l) k =
        moved-IsAccounted i (u.phase i) u (advance d others caller (u.phase i) u.session u.trace) l
          refl (advance-Accounted (u.phase i) u.session u.trace k.1) k
    Step-IsAccounted {u} (shuts i l o) k =
        moved-IsAccounted i outside u (take_parts d others caller u.session u.trace) l o
          (take_parts-Accounted u.session u.trace k.1) k
    Step-IsAccounted {u} (shares i m x l o a) k =
        moved-IsAccounted i (ensured m) u (x, u.session, u.trace) l o
          (omega (arith, pending-IsAfterShare m x a), k.1) k
    Step-IsAccounted {u} (uses p p' t' o same) k =
        (omega (arith, k.0, same c), with_pool-IsPaired u.session p p' k.1 o)
    Step-IsAccounted {u} (works t' same) k = (omega (arith, k.0, same c), k.1)

    Reach-IsAccounted : {u v : System} → Reach d others caller n u v → IsAccounted u → IsAccounted v
    Reach-IsAccounted here k = k
    Reach-IsAccounted (later r st) k = Step-IsAccounted st (Reach-IsAccounted r k)

  -- However `n` goroutines interleave their calls of Do, DoShare and Close, from a time when none of them is
  -- in a call and each context that was opened is closed or is the session's, every opened context has
  -- been closed, or is the session's, or is about to be closed by a Close that has taken it off the
  -- session; and none is closed twice.
  pub Reach-contexts :
      (n : ℕ) (s : Session) (t : Trace) (v : System)
      → IsPaired s
      → contexts_opened c t ≡ contexts_closed c t + held c s.browser_context
      → Reach d others caller n (record { session = s; trace = t; phase = λ i. outside }) v
      → contexts_opened c v.trace
        ≡ contexts_closed c v.trace + held c v.session.browser_context + total (pending c) n v.phase
  Reach-contexts n s t v p b r =
      (Reach-IsAccounted n r (omega (arith, b, total-zero (pending c) n outside refl), p)).0
