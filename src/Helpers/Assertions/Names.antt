-- ===== src/Helpers/Assertions/Names.antt =====
-- assertions.go: AssertSessionExists and AssertSessionNotExists look at the names in the list of the sessions,
-- GetSession at the keys of the map.
use Prim.Native.String.{◌++◌}
use text.Mathlib.Text.{◌==◌}
use browserpm.Common.{
  ◌≡◌, refl, ◌⊎◌, inl, inr, true, false, Bool-cases, none, some, Option-cases, List, [], ◌∷◌,
  String, arith, All, map,
}
use browserpm.Common.Assoc.{lookup, delete}
use browserpm.Errors.{ok, err, new_error, session_not_found}
use browserpm.Config.{SessionOption, apply_all, validate_pool}
use browserpm.Driver.{Driver, Trace}
use browserpm.Session.State.{Session, Others}
use browserpm.Session.Observe.{status}
use browserpm.Manager.Operations.{
  Manager, create_session, get_session, close_session, list_sessions,
}
use browserpm.Helpers.Bench.{goes_on}
use browserpm.Helpers.Assertions.{
  exists_loop, not_exists_loop, assert_session_exists, assert_session_not_exists,
}

-- Each session has the name under which it is stored.
abbrev pub IsNamed : List (String × Session) → Type 0
IsNamed sessions = All (λ e. e.1.name ≡ e.0) sessions

delete-IsNamed : (k : String) (m : List (String × Session)) → IsNamed m → IsNamed (delete k m)
unfolding delete
delete-IsNamed k [] h = tt
delete-IsNamed k ((j, s) ∷ m) h = ground (arith, h, delete-IsNamed k m h.1)

-- CreateSession and CloseSession keep the names.
pub create_session-IsNamed :
    (d : Driver) (name : String) (opts : List SessionOption) (m : Manager) (t : Trace)
    → IsNamed m.sessions
    → IsNamed (create_session d name opts m t).1.sessions
unfolding create_session
create_session-IsNamed d name opts m t h = elim (Bool-cases m.is_closed) [
  | inl shut ↦ rw (shut, create_session) h
  | inr live ↦ elim (Option-cases (validate_pool (apply_all opts (m.config).pool))) [
    | inr (e, invalid) ↦ rw (live, invalid, create_session) h
    | inl valid ↦ elim (Option-cases (lookup name m.sessions)) [
      | inr (old, there) ↦ rw (live, valid, there, create_session) h
      | inl free ↦ rw (live, valid, free, create_session) (refl, h)
    ]
  ]
]

pub close_session-IsNamed :
    (d : Driver) (others : Others) (name : String) (m : Manager) (t : Trace)
    → IsNamed m.sessions
    → IsNamed (close_session d others name m t).1.sessions
unfolding close_session
close_session-IsNamed d others name m t h = elim (Option-cases (lookup name m.sessions)) [
  | inl free ↦ rw (free, close_session) h
  | inr (s, there) ↦ rw (there, close_session) (delete-IsNamed name m.sessions h)
]

loops_lem :
    (m : List (String × Session)) (name : String)
    → IsNamed m
    → ((lookup name m ≡ none)
        × (exists_loop (map (λ e. status e.1) m) name false ≡ goes_on true)
        × (not_exists_loop (map (λ e. status e.1) m) name false ≡ goes_on false))
      ⊎ (((s : Session) × (lookup name m ≡ some s))
          × (exists_loop (map (λ e. status e.1) m) name false ≡ goes_on false)
          × (not_exists_loop (map (λ e. status e.1) m) name false ≡ goes_on true))
unfolding lookup exists_loop not_exists_loop status
loops_lem [] name h = inl (refl, refl, refl)
loops_lem ((j, s) ∷ m) name h =
    let named : s.name ≡ j = h.0 in
    elim (Bool-cases (j == name)) [
      | inl e ↦ inr ((s, rw e refl), rw (named, e) refl, rw (named, e) refl)
      | inr n ↦ elim (loops_lem m name h.1) [
        | inl (free, x, y) ↦ inl (rw (n) free, rw (named, n) x, rw (named, n) y)
        | inr ((s', there), x, y) ↦ inr ((s', rw (n) there), rw (named, n) x, rw (named, n) y)
      ]
    ]

-- If each session of a manager has the name under which it is stored, which CreateSession and
-- CloseSession keep, then of AssertSessionExists and AssertSessionNotExists one passes and the other
-- fails: the first passes exactly if GetSession finds the session.
pub exists-not_exists :
    (m : Manager) (name : String)
    → IsNamed m.sessions
    → ((get_session name m ≡ err (new_error session_not_found ("session not found: " ++ name)))
        × (assert_session_exists m name false ≡ goes_on true)
        × (assert_session_not_exists m name false ≡ goes_on false))
      ⊎ (((s : Session) × (get_session name m ≡ ok s))
          × (assert_session_exists m name false ≡ goes_on false)
          × (assert_session_not_exists m name false ≡ goes_on true))
unfolding get_session list_sessions
exists-not_exists m name h = elim (loops_lem m.sessions name h) [
  | inl (free, x, y) ↦ inl (rw (free, get_session) refl, x, y)
  | inr ((s, there), x, y) ↦ inr ((s, rw (there, get_session) refl), x, y)
]
