-- ===== src/Process/Infos.antt =====
-- process.go: which processes GetProcessInfos reports.
use browserpm.Common.{
  ◌≡◌, ◌↔◌, refl, true, Option, none, some, List, [], ◌∷◌, String, map, inl, inr, arith,
}
use browserpm.Common.Int.{ℤ}
use browserpm.Errors.{Error, Outcome, ok, err, new_error, internal}
use browserpm.Driver.{Trace}
use browserpm.Manager.Operations.{Manager}
use browserpm.Process.{Inspector, ProcessInfo, process_info, process_loop, get_process_infos}
use mathlib.Core.Path.{ap₂}
use browserpm.Common.{◌⊎◌}
use browserpm.Common.{◌∙◌, Bool-cases, ◌∷◌}
use browserpm.Driver.{cdp_sent}
use browserpm.Process.{safe_float, read_reply}
use browserpm.Process.Reply.{
  as_number, as_text, as_array, boolean, null, Value, Items, nil, cons, Fields, get_field, object,
  array, number, string,
}

module _ {Real : Type 0} (x : Inspector Real) where
  -- What a report says of a process besides its memory: type, number and processor time.
  abbrev pub label : ProcessInfo Real → String × ℤ × Real
  label i = (i.kind, i.id, i.cpu)

  -- A text, or none; a number, or 0.
  abbrev pub text_of : Value Real → String
  text_of (string s) = s
  text_of _ = ""

  abbrev pub real_of : Value Real → Real
  real_of (number n) = n
  real_of _ = x.zero_real

  abbrev number_label : Fields Real → Value Real → Option (String × ℤ × Real)
  number_label fs (number n) =
      some (text_of (get_field "type" fs), x.to_int32 n, real_of (get_field "cpuTime" fs))
  number_label fs _ = none

  -- What an entry of the reply says, if it is an object with a number.
  abbrev pub label_of : Value Real → Option (String × ℤ × Real)
  label_of (object fs) = number_label fs (get_field "id" fs)
  label_of _ = none

  abbrev pub labels : Items Real → List (String × ℤ × Real)
  labels nil = []
  labels (cons v vs) = elim (label_of v) [ none ↦ labels vs | some l ↦ l ∷ labels vs ]

  as_text-text_of : (v : Value Real) → (elim (as_text v) [ some s ↦ s | none ↦ "" ]) ≡ text_of v
  as_text-text_of null = refl
  as_text-text_of (boolean b) = refl
  as_text-text_of (string s) = refl
  as_text-text_of (number n) = refl
  as_text-text_of (array xs) = refl
  as_text-text_of (object fs) = refl

  safe_float-real_of : (v : Value Real) → safe_float x v ≡ real_of v
  safe_float-real_of null = refl
  safe_float-real_of (boolean b) = refl
  safe_float-real_of (string s) = refl
  safe_float-real_of (number n) = refl
  safe_float-real_of (array xs) = refl
  safe_float-real_of (object fs) = refl

  number-cases :
      (fs : Fields Real) (v : Value Real)
      → ((as_number v ≡ none) × (number_label fs v ≡ none)) ⊎ ((n : Real) × (v ≡ number n))
  number-cases fs null = inl (refl, refl)
  number-cases fs (boolean b) = inl (refl, refl)
  number-cases fs (string s) = inl (refl, refl)
  number-cases fs (number n) = inr (n, refl)
  number-cases fs (array xs) = inl (refl, refl)
  number-cases fs (object gs) = inl (refl, refl)

  process_loop-labels :
      (vs : Items Real) (t : Trace) → map label (process_loop x vs t).0 ≡ labels vs
  unfolding process_loop process_info
  process_loop-labels nil t = refl
  process_loop-labels (cons (object fs) vs) t = elim (number-cases fs (get_field "id" fs)) [
    | inl (a, b) ↦ rw (process_loop, labels, a, b) (process_loop-labels vs t)
    | inr (n, e) ↦
        let t1 = (process_info x n fs t).1 in
        rw (process_loop, labels, e)
          (ap₂ ◌∷◌
            (ap₂ (λ (k : String) (c : Real). (k, x.to_int32 n, c))
              (as_text-text_of (get_field "type" fs)) (safe_float-real_of (get_field "cpuTime" fs)))
            (process_loop-labels vs t1))
  ]
  process_loop-labels (cons null vs) t = process_loop-labels vs t
  process_loop-labels (cons (boolean b) vs) t = process_loop-labels vs t
  process_loop-labels (cons (string s) vs) t = process_loop-labels vs t
  process_loop-labels (cons (number n) vs) t = process_loop-labels vs t
  process_loop-labels (cons (array xs) vs) t = process_loop-labels vs t

  -- A value that is no array.
  array-cases : (v : Value Real) → (as_array v ≡ none) ⊎ ((vs : Items Real) × (v ≡ array vs))
  array-cases null = inl refl
  array-cases (boolean b) = inl refl
  array-cases (string s) = inl refl
  array-cases (number n) = inl refl
  array-cases (array xs) = inr (xs, refl)
  array-cases (object fs) = inl refl

  -- A reply that holds a list is read by the loop; any other is an error.
  read_reply-cases :
      (r : Outcome (Value Real)) (t : Trace)
      → ((fs : Fields Real) × (vs : Items Real) × (r ≡ ok (object fs))
          × (get_field "processInfo" fs ≡ array vs)
          × ((read_reply x r t).0 ≡ ok (process_loop x vs t).0))
        ⊎ ((e : Error) × ((read_reply x r t).0 ≡ err e))
  unfolding read_reply
  read_reply-cases (err e) t = inr (_, refl)
  read_reply-cases (ok null) t = inr (_, refl)
  read_reply-cases (ok (boolean b)) t = inr (_, refl)
  read_reply-cases (ok (string s)) t = inr (_, refl)
  read_reply-cases (ok (number n)) t = inr (_, refl)
  read_reply-cases (ok (array xs)) t = inr (_, refl)
  read_reply-cases (ok (object fs)) t = elim (array-cases (get_field "processInfo" fs)) [
    | inl e ↦
        inr (new_error internal "processInfo field missing or invalid", rw (read_reply, e) refl)
    | inr (vs, e) ↦ inl (fs, vs, refl, e, rw (read_reply, e) refl)
  ]

  -- GetProcessInfos succeeds exactly when the manager has a DevTools session, and the reply is an object
  -- whose field processInfo is an array; it then reports, in order, the type, the number and the processor
  -- time of exactly those entries that are objects with a number for an id.
  pub get_process_infos_iff :
      (m : Manager) (t : Trace) (ls : List (String × ℤ × Real))
      → ((infos : List (ProcessInfo Real)) × ((get_process_infos x m t).0 ≡ ok infos)
          × (map label infos ≡ ls))
        ↔ ((m.has_cdp ≡ true)
            × ((fs : Fields Real) × (vs : Items Real) × (x.send t ≡ ok (object fs))
                × (get_field "processInfo" fs ≡ array vs)
                × (labels vs ≡ ls)))
  unfolding get_process_infos read_reply
  get_process_infos_iff m t ls = (
    λ (infos, h, q). elim (Bool-cases m.has_cdp) [
      | inr c ↦ absurd (ground (arith, h, c))
      | inl c ↦ elim (read_reply-cases (x.send t) (cdp_sent ∷ t)) [
        | inr (e, bad) ↦ absurd (ground (arith, h, c, bad))
        | inl (fs, vs, s, f, good) ↦ (
          c,
          (fs, vs, s, f, ground (arith, h, good, c, q, process_loop-labels vs (cdp_sent ∷ t))),
        )
      ]
    ],
    λ (c, (fs, vs, s, f, q)). (
      (process_loop x vs (cdp_sent ∷ t)).0,
      ground (arith, c, s, f),
      process_loop-labels vs (cdp_sent ∷ t) ∙ q,
    ),
  )
