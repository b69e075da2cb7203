-- ===== src/Manager/Laws.antt =====
-- manager.go: creating, finding and closing sessions by name, and the manager's Do.
use Prim.Native.String.{◌++◌}
use browserpm.Common.{
  ℕ, ◌+◌, sym, none, ◌≡◌, ◌≢◌, ◌↔◌, refl, Bool-cases, Option-cases, inl, inr, false, List, ◌∷◌,
  String, arith, ◌==◌, if◌then◌else◌,
}
use browserpm.Common.Assoc.{
  lookup, store, delete, delete-absent, lookup-store_self, lookup-store_other, lookup-delete_self,
  lookup-delete_other,
}
use browserpm.Errors.{ok, err, Error, Outcome-cases, new_error, session_not_found}
use browserpm.Config.{SessionOption, apply_all, validate_pool}
use browserpm.Config.Validity.{IsValidPool, validate_pool_iff}
use browserpm.Driver.{
  Driver, Trace, opened, released, contexts_opened, contexts_closed, context_opened,
}
use browserpm.Session.State.{Session, Others}
use browserpm.Manager.Operations.{
  Manager, new_session, create_session, get_session, close_session, use_context, manager_do,
}

module _ (d : Driver) (name : String) (opts : List SessionOption) (m : Manager) (t : Trace) where
  create_session-accepted :
      (s : Session)
      → (create_session d name opts m t).0 ≡ ok s
      → (m.is_closed ≡ false)
        × (validate_pool (apply_all opts (m.config).pool) ≡ none)
        × (lookup name m.sessions ≡ none)
        × (s ≡ new_session name (apply_all opts (m.config).pool) (d.now t))
        × ((create_session d name opts m t).1 ≡ record m { sessions = store name s m.sessions })
  unfolding create_session
  create_session-accepted s h = ground arith

  -- CreateSession succeeds exactly when the manager is open, the pool's configuration after the options
  -- is valid, and no session has the name; the session is then active, with no context and no pool.
  pub create_session_iff :
      (s : Session)
      → ((create_session d name opts m t).0 ≡ ok s) ↔ (
          (m.is_closed ≡ false)
          × IsValidPool (apply_all opts (m.config).pool)
          × (lookup name m.sessions ≡ none)
          × (s ≡ new_session name (apply_all opts (m.config).pool) (d.now t)))
  unfolding create_session
  create_session_iff s = (
    λ h. let (o, v, l, e, k) = create_session-accepted s h in (o, (validate_pool_iff _).0 v, l, e),
    λ h. let (o, v, l, e) = h in ground (arith, o, (validate_pool_iff _).1 v, l, e),
  )

  -- A session that was created is found under its name, and every other name finds what it found
  -- before.
  pub get_session-create_session :
      (s : Session)
      → (create_session d name opts m t).0 ≡ ok s
      → let m' = (create_session d name opts m t).1 in
        (get_session name m' ≡ ok s)
        × ((other : String) → name ≢ other → get_session other m' ≡ get_session other m)
  unfolding get_session
  get_session-create_session s h =
      let (o, v, l, e, k) = create_session-accepted s h in
      rw k (
        rw (get_session, lookup-store_self name s m.sessions) refl,
        λ other n. rw (get_session, lookup-store_other name other s m.sessions n) refl,
      )

  -- A call of CreateSession that fails leaves the manager as it was.
  pub create_session-err :
      (e : Error)
      → (create_session d name opts m t).0 ≡ err e
      → (create_session d name opts m t).1 ≡ m
  unfolding create_session
  create_session-err e h = ground arith

module _ (d : Driver) (others : Others) (name : String) (m : Manager) (t : Trace) where
  close_session-delete : (close_session d others name m t).1.sessions ≡ delete name m.sessions
  unfolding close_session
  close_session-delete = elim (Option-cases (lookup name m.sessions)) [
    | inl e ↦ rw (e, close_session) (sym (delete-absent name m.sessions e))
    | inr (s, e) ↦ rw (e, close_session) refl
  ]

  -- After CloseSession the name is not found any more, and every other name finds what it found before.
  pub get_session-close_session :
      let m' = (close_session d others name m t).1 in
      (get_session name m' ≡ err (new_error session_not_found ("session not found: " ++ name)))
      × ((other : String) → name ≢ other → get_session other m' ≡ get_session other m)
  unfolding get_session
  get_session-close_session = (
    rw (get_session, close_session-delete, lookup-delete_self name m.sessions) refl,
    λ other n.
        rw (get_session, close_session-delete, lookup-delete_other name other m.sessions n) refl,
  )

module _ (d : Driver) (c : ℕ) where
  use_context-closes :
      (b : ℕ) (t : Trace)
      → let t' = (use_context d b t).1 in
        (contexts_opened c t' ≡ contexts_opened c t)
        × (contexts_closed c t' ≡ contexts_closed c t + (if c == b then 1 else 0))
        × (opened c t' + released c t ≡ opened c t + released c t')
  unfolding use_context
  use_context-closes b t = ground arith

  -- The manager's Do closes each context and each page as often as it opens it, on all paths.
  pub manager_do-balanced :
      (m : Manager) (t : Trace)
      → let t' = (manager_do d m t).1 in
        (contexts_opened c t' + contexts_closed c t ≡ contexts_opened c t + contexts_closed c t')
        × (opened c t' + released c t ≡ opened c t + released c t')
  unfolding manager_do
  manager_do-balanced m t = elim (Bool-cases m.is_closed) [
    | inl e ↦ rw (e, manager_do) (omega arith, omega arith)
    | inr e ↦ elim (Outcome-cases (d.new_context t)) [
      | inl (x, h) ↦ rw (e, manager_do, h) (omega arith, omega arith)
      | inr (b, h) ↦
          rw (e, manager_do, h) (ground (arith, use_context-closes b (context_opened b ∷ t)))
    ]
  ]
