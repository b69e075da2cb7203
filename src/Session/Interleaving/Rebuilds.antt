-- ===== src/Session/Interleaving/Rebuilds.antt =====
-- session.go: the flag `rebuilding` lets one goroutine rebuild at a time.
use browserpm.Common.{
  ℕ, zero, suc, ◌+◌, ◌≤◌, ◌<◌, ◌≡◌, refl, ap, inl, inr, false, none, some, Option-cases, arith,
  if◌then◌else◌,
}
use browserpm.Common.Turns.{total, total-enter, total-zero, total-le}
use browserpm.Driver.{Driver, Trace}
use browserpm.Session.State.{Session, Others, Caller}
use browserpm.Session.Context.{tear_down}
use browserpm.Session.Exclusive.{do_exclusive}
use browserpm.Session.Consistency.{build_context_locked-rebuilding, ensure_context-rebuilding}
use browserpm.Session.Interleaving.{
  Phase, outside, begins, ensured, loses, rebuilds, leaves, awaits, dismantles, System, next, call,
  begin_round, work_alone, swap, rebuild_locked, leave, await, take_parts, dismantle, advance, Step,
  turn, shuts, shares, uses, works, IsAfterShare, ends, retries, gives_up, moved, Reach, here,
  later,
}

-- Whether a goroutine is between the two changes of the flag in rebuildContext.
abbrev pub rebuilders : Phase → ℕ
rebuilders (rebuilds n) = 1
rebuilders (leaves r n) = 1
rebuilders _ = 0

abbrev pub flag : Session → ℕ
flag s = if s.rebuilding then 1 else 0

rebuilders-next : (n : ℕ) → rebuilders (next n) ≡ 0
rebuilders-next zero = refl
rebuilders-next (suc n) = refl

rebuilders-IsAfterShare : (n : ℕ) (x : Phase) → IsAfterShare n x → rebuilders x ≡ 0
rebuilders-IsAfterShare n _ ends = refl
rebuilders-IsAfterShare n _ retries = rebuilders-next n
rebuilders-IsAfterShare n _ gives_up = refl

module _ (d : Driver) (others : Others) (caller : Caller) where
  -- A turn moves the flag and the goroutine together.
  abbrev Flagged : Phase → Session → Phase × Session × Trace → Type 0
  Flagged x s (x', s', t') = flag s' + rebuilders x ≡ flag s + rebuilders x'

  advance-Flagged :
      (x : Phase) (s : Session) (t : Trace)
      → rebuilders x ≤ flag s
      → Flagged x s (advance d others caller x s t)
  unfolding advance call begin_round work_alone swap rebuild_locked tear_down leave await dismantle
  advance-Flagged outside s t h = ground arith
  advance-Flagged (begins n) s t h =
      ground (arith, ensure_context-rebuilding d s t, rebuilders-next n)
  advance-Flagged (ensured n) s t h = elim (Option-cases (do_exclusive d caller s t).0) [
    | inl e ↦ rw (e, work_alone) refl
    | inr (y, e) ↦ rw (e, work_alone) (ground (arith, rebuilders-next n))
  ]
  advance-Flagged (loses n) s t h = ground arith
  advance-Flagged (rebuilds n) s t h =
      let (s1, t1) = tear_down d s t in ground (arith, build_context_locked-rebuilding d s1 t1)
  advance-Flagged (leaves (some e) n) s t h = ground (arith, h)
  advance-Flagged (leaves none n) s t h = ground (arith, h, rebuilders-next n)
  advance-Flagged (awaits zero n) s t h = refl
  advance-Flagged (awaits (suc k) n) s t h = ground (arith, rebuilders-next n)
  advance-Flagged (dismantles p b) s t h = refl

  take_parts-Flagged :
      (s : Session) (t : Trace) → Flagged outside s (take_parts d others caller s t)
  unfolding take_parts
  take_parts-Flagged s t = ground arith

  module _ (n : ℕ) where
    abbrev IsFlagged : System → Type 0
    IsFlagged u = total rebuilders n u.phase ≡ flag u.session

    moved-IsFlagged :
        (i : ℕ) (x : Phase) (u : System) (r : Phase × Session × Trace)
        → i < n
        → u.phase i ≡ x
        → Flagged x u.session r
        → IsFlagged u
        → IsFlagged (moved d others caller i u.phase r)
    moved-IsFlagged i x u (x', s', t') l e a k =
        omega (arith, k, a, total-enter rebuilders n i u.phase x', ap rebuilders e)

    Step-IsFlagged : {u v : System} → Step d others caller n u v → IsFlagged u → IsFlagged v
    Step-IsFlagged {u} (turn i l) k =
        moved-IsFlagged i (u.phase i) u (advance d others caller (u.phase i) u.session u.trace) l
          refl
          (advance-Flagged (u.phase i) u.session u.trace
            (omega (arith, total-le rebuilders n i u.phase l, k)))
          k
    Step-IsFlagged {u} (shuts i l o) k =
        moved-IsFlagged i outside u (take_parts d others caller u.session u.trace) l o
          (take_parts-Flagged u.session u.trace) k
    Step-IsFlagged {u} (shares i m x l o a) k =
        moved-IsFlagged i (ensured m) u (x, u.session, u.trace) l o
          (omega (arith, rebuilders-IsAfterShare m x a)) k
    Step-IsFlagged {u} (uses p p' t' o same) k = k
    Step-IsFlagged {u} (works t' same) k = k

    Reach-IsFlagged : {u v : System} → Reach d others caller n u v → IsFlagged u → IsFlagged v
    Reach-IsFlagged here k = k
    Reach-IsFlagged (later r st) k = Step-IsFlagged st (Reach-IsFlagged r k)

  -- However `n` goroutines interleave their calls, from a time when none of them is in a call and the flag
  -- is off, at most one of them is rebuilding the context, and the flag is on exactly while one is.
  pub Reach-rebuilders :
      (n : ℕ) (s : Session) (t : Trace) (v : System)
      → s.rebuilding ≡ false
      → Reach d others caller n (record { session = s; trace = t; phase = λ i. outside }) v
      → total rebuilders n v.phase ≡ flag v.session
  Reach-rebuilders n s t v b r =
      Reach-IsFlagged n r (ground (arith, b, total-zero rebuilders n outside refl))
