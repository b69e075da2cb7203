-- ===== src/Pool/Locks/Deadlock.antt =====
-- pool.go: Stats can wait for ever.
use browserpm.Common.{
  ℕ, ◌+◌, ◌≤◌, ◌<◌, ◌≡◌, ◌≢◌, refl, ap, subst, ◌∙◌, inl, inr, Bool-cases, some, arith, ◌==◌, ==_iff,
}
use browserpm.Common.Turns.{enter, total, total-enter, total-le}
use browserpm.Pool.Locks.{
  absent, pending, RwMutex, Phase, before, counts, sums, summed, enters, locks, writes, done,
  attempt, following, System, Step, turn, Reach, here, later, holds,
}

-- Whether a goroutine holds the lock for writing.
abbrev pub owns : Phase → ℕ
owns writes = 1
owns _ = 0

-- A goroutine is in Stats before its second RLock, and a Lock waits for it.
pub record IsStuck (n i : ℕ) (u : System) : Type 0 where
  pub inside : u.phase i ≡ counts
  pub waits : (u.mutex).writer ≡ pending
  pub counted : (u.mutex).readers ≡ total holds n u.phase
  pub unowned : total owns n u.phase ≡ 0

-- What a goroutine in phase `x` can still do then is to release the lock that it holds.
attempt-stuck :
    (x : Phase) (l l' : RwMutex)
    → l.writer ≡ pending
    → 0 < l.readers
    → owns x ≡ 0
    → holds x ≤ l.readers
    → attempt x l ≡ some l'
    → (l'.writer ≡ pending)
      × (l'.readers + holds x ≡ l.readers + holds (following x))
      × (owns (following x) ≡ 0)
      × (x ≢ counts)
      × (x ≢ locks)
unfolding attempt
attempt-stuck before l l' p r o h e = absurd (ground (arith, p, e))
attempt-stuck counts l l' p r o h e = absurd (ground (arith, p, e))
attempt-stuck sums l l' p r o h e = (
  ground (arith, p, e),
  ground (arith, e, h),
  refl,
  λ q. absurd (ground (arith, q)),
  λ q. absurd (ground (arith, q)),
)
attempt-stuck summed l l' p r o h e = (
  ground (arith, p, e),
  ground (arith, e, h),
  refl,
  λ q. absurd (ground (arith, q)),
  λ q. absurd (ground (arith, q)),
)
attempt-stuck enters l l' p r o h e = absurd (ground (arith, p, e))
attempt-stuck locks l l' p r o h e = absurd (ground (arith, r, e))
attempt-stuck writes l l' p r o h e = absurd (omega (arith, o))
attempt-stuck done l l' p r o h e = absurd (ground (arith, e))

module _ (n : ℕ) where
  -- A step leaves the goroutine stuck, and each Lock that waits goes on waiting.
  Step-IsStuck :
      (i : ℕ) {u v : System}
      → i < n
      → Step n u v
      → IsStuck n i u
      → IsStuck n i v × ((j : ℕ) → u.phase j ≡ locks → v.phase j ≡ locks)
  Step-IsStuck i {u} within (turn k l m e) s =
      let x = u.phase k in
      let some_reader : 0 < (u.mutex).readers =
        omega (arith, total-le holds n i u.phase within, ap holds s.inside, s.counted) in
      let (p, r, o, not_counting, not_locking) =
        attempt-stuck x u.mutex l s.waits some_reader
          (omega (arith, total-le owns n k u.phase m, s.unowned))
          (omega (arith, total-le holds n k u.phase m, s.counted)) e in
      (
        record {
          inside = elim (Bool-cases (k == i)) [
            | inl q ↦ absurd (not_counting (ap u.phase ((==_iff k i).0 q) ∙ s.inside))
            | inr q ↦ ground (arith, q, s.inside)
          ];
          waits = p;
          counted = omega (arith, r, s.counted, total-enter holds n k u.phase (following x) m);
          unowned = omega (arith, o, s.unowned, total-enter owns n k u.phase (following x) m);
        },
        λ j h. elim (Bool-cases (k == j)) [
          | inl q ↦ absurd (not_locking (ap u.phase ((==_iff k j).0 q) ∙ h))
          | inr q ↦ ground (arith, q, h)
        ],
      )

  Reach-IsStuck :
      (i : ℕ) {u v : System}
      → i < n
      → Reach n u v
      → IsStuck n i u
      → IsStuck n i v × ((j : ℕ) → u.phase j ≡ locks → v.phase j ≡ locks)
  Reach-IsStuck i within here s = (s, λ j h. h)
  Reach-IsStuck i within (later r st) s =
      let (s', keep) = Reach-IsStuck i within r s in
      let (s'', keep') = Step-IsStuck i within st s' in (s'', λ j h. keep' j (keep j h))

  then_turn :
      (u v : System) (i : ℕ) (x : Phase) (l : RwMutex)
      → i < n
      → v.phase i ≡ x
      → attempt x v.mutex ≡ some l
      → Reach n u v
      → Reach n u (record { mutex = l; phase = enter v.phase i (following x) })
  then_turn u v i x l m o e r =
      subst (λ y. Reach n u (record { mutex = l; phase = enter v.phase i (following y) })) o
        (later r (turn i l m (ap (λ y. attempt y v.mutex) o ∙ e)))

  -- If a goroutine is about to call Stats and another one is about to take the pool's lock for writing, while
  -- nobody holds it, then they can come to a state from which, whatever the goroutines do, neither goes on:
  -- Stats waits in ActiveOps for the lock that it holds already, and the Lock waits for Stats.
  pub deadlock :
      (f : ℕ → Phase)
      → 1 < n
      → f 0 ≡ before
      → f 1 ≡ enters
      → total holds n f ≡ 0
      → total owns n f ≡ 0
      → (u : System) × Reach n
          (record { mutex = record { readers = 0; writer = absent }; phase = f })
          u
        × ((v : System) → Reach n u v → (v.phase 0 ≡ counts) × (v.phase 1 ≡ locks))
  unfolding attempt
  deadlock f two reads takes unheld unowned =
      let u0 : System = record { mutex = record { readers = 0; writer = absent }; phase = f } in
      let u1 : System = record {
        mutex = record { readers = 1; writer = absent };
        phase = enter f 0 counts;
      } in
      let u2 : System = record {
        mutex = record { readers = 1; writer = pending };
        phase = enter u1.phase 1 locks;
      } in
      let r1 : Reach n u0 u1 = then_turn u0 u0 0 before _ (omega (arith, two)) reads refl here in
      let r2 : Reach n u0 u2 = then_turn u0 u1 1 enters _ two takes refl r1 in
      let held = total-enter holds n 0 f counts (omega (arith, two)) in
      let held' = total-enter holds n 1 u1.phase locks two in
      let own = total-enter owns n 0 f counts (omega (arith, two)) in
      let own' = total-enter owns n 1 u1.phase locks two in
      let stuck : IsStuck n 0 u2 = record {
        inside = refl;
        waits = refl;
        counted = omega (arith, held, held', unheld, ap holds reads, ap holds takes);
        unowned = omega (arith, own, own', unowned, ap owns reads, ap owns takes);
      } in
      (
        u2,
        r2,
        λ v r.
            let (s, keep) = Reach-IsStuck 0 (omega (arith, two)) r stuck in (s.inside, keep 1 refl),
      )
