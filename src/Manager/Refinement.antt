-- ===== src/Manager/Refinement.antt =====
-- manager.go: the manager implements the registry.
use text.Mathlib.Text.{◌==◌}
use text.Mathlib.TextEquality.{eq_iff}
use browserpm.Common.{
  ◌≡◌, refl, ap, fun_ext, inl, inr, Bool, true, false, Bool-cases, Option, none, some, Option-cases,
  List, [], ◌∷◌, String, arith, if◌then◌else◌,
}
use mathlib.Core.Path.{ap₂}
use browserpm.Common.Assoc.{lookup, store, delete, delete-absent}
use browserpm.Errors.{returned}
use browserpm.Config.{PoolConfig, SessionOption, apply_all, validate_pool}
use browserpm.Driver.{Driver, Trace, IsClock}
use browserpm.Session.State.{Session, Others}
use browserpm.Session.Closing.{close_returns}
use browserpm.Manager.Operations.{
  Manager, create_session, get_session, close_session, close, new_session,
}
use browserpm.Manager.Shutdown.{manager_close_lem}
use browserpm.Manager.Registry.{
  Registry, Request, creates, gets, closes, shuts, respond, respond_all, config_of, serve,
  serve_all, view,
}

-- Close has run, and then the manager is closed and has no sessions, or it is open.
abbrev pub IsCoherent : Manager → Type 0
IsCoherent m =
    if m.shut_down then (m.is_closed ≡ true) × (m.sessions ≡ []) else (m.is_closed ≡ false)

lookup-delete :
    (name : String) (m : List (String × Session)) (n : String)
    → config_of (lookup n (delete name m)) ≡ (if name == n then none else config_of (lookup n m))
unfolding lookup delete
lookup-delete name [] n = ground arith
lookup-delete name ((k, s) ∷ m) n =
    ground (arith, eq_iff k name, eq_iff name n, eq_iff k n, lookup-delete name m n)

IsCoherent-shut :
    (m : Manager) → IsCoherent m → m.shut_down ≡ true → (m.is_closed ≡ true) × (m.sessions ≡ [])
IsCoherent-shut m c e = ground (arith, c, e)

IsCoherent-delete :
    (name : String) (m : Manager)
    → IsCoherent m
    → IsCoherent (record m { sessions = delete name m.sessions })
unfolding delete
IsCoherent-delete name m c = ground (arith, c, ap (delete name) {x = m.sessions} {y = []})

-- Registries that find the same are the same.
Registry-ext :
    (r : Registry) (f g : String → Option PoolConfig)
    → ((n : String) → f n ≡ g n)
    → ◌≡◌ {A = Registry} (record r { find = f }) (record r { find = g })
Registry-ext r f g h = ap (λ (k : String → Option PoolConfig). record r { find = k }) (fun_ext h)

module _ (d : Driver) (others : Others) where
  -- One request: the same answer, the registry of the new manager, which is coherent.
  abbrev Simulated : Request → Manager → Trace → Type 0
  Simulated q m t =
      let (a, m', t') = serve d others q m t in
      let (b, r) = respond q (view m) in (a ≡ b) × (view m' ≡ r) × IsCoherent m'

  serve-creates :
      (name : String) (opts : List SessionOption) (m : Manager) (t : Trace)
      → IsCoherent m
      → Simulated (creates name opts) m t
  unfolding serve respond create_session lookup
  serve-creates name opts m t c = elim (Bool-cases m.is_closed) [
    | inl e ↦ (ground (arith, e), ground (arith, e), ground (arith, e, c))
    | inr e ↦ elim (Option-cases (validate_pool (apply_all opts (m.config).pool))) [
      | inr (x, v) ↦ (ground (arith, e, v), ground (arith, e, v), ground (arith, e, v, c))
      | inl v ↦ elim (Option-cases (lookup name m.sessions)) [
        | inr (old, f) ↦
            (ground (arith, e, v, f), ground (arith, e, v, f), ground (arith, e, v, f, c))
        | inl f ↦
            let cfg = apply_all opts (m.config).pool in
            let s = new_session name cfg (d.now t) in
            let added =
              Registry-ext (view m) (λ n. config_of (lookup n (store name s m.sessions)))
                (λ n. if name == n then some cfg else config_of (lookup n m.sessions))
                (λ n. ground arith) in
            (ground (arith, e, v, f), ground (arith, e, v, f, added), ground (arith, e, v, f, c))
      ]
    ]
  ]

  serve-gets : (name : String) (m : Manager) (t : Trace) → IsCoherent m → Simulated (gets name) m t
  unfolding serve respond get_session
  serve-gets name m t c = elim (Option-cases (lookup name m.sessions)) [
    | inl f ↦ (ground (arith, f), refl, c)
    | inr (s, f) ↦ (ground (arith, f), refl, c)
  ]

-- Closing a session by name leaves the manager's other fields alone.
close_session-manager :
    (d : Driver) (others : Others) (name : String) (m : Manager) (t : Trace)
    → (close_session d others name m t).1 ≡ record m { sessions = delete name m.sessions }
unfolding close_session
close_session-manager d others name m t = elim (Option-cases (lookup name m.sessions)) [
  | inl e ↦ ground (
    arith,
    e,
    ap (λ (l : List (String × Session)). record m { sessions = l })
        (delete-absent name m.sessions e),
  )
  | inr (s, e) ↦ ground (arith, e)
]

-- A closed manager without sessions is the shut registry that finds nothing.
view-empty :
    (m : Manager)
    → m.is_closed ≡ true
    → m.sessions ≡ []
    → view m ≡ record (view m) { is_shut = true; find = λ n. none }
unfolding lookup
view-empty m shut empty =
    ap₂
      (λ (b : Bool) (l : List (String × Session)). record (view m) {
        is_shut = b;
        find = λ n. config_of (lookup n l);
      })
      shut empty

module _ (d : Driver) (others : Others) (clock : IsClock d.now) where
  serve-closes :
      (name : String) (m : Manager) (t : Trace)
      → IsCoherent m
      → Simulated d others (closes name) m t
  unfolding serve respond
  serve-closes name m t c =
      let same = close_session-manager d others name m t in
      (
        elim (Option-cases (lookup name m.sessions)) [
          | inl f ↦ unfold close_session in ground (arith, f)
          | inr (s, f) ↦ unfold close_session in ground (arith, f, close_returns d others clock s t)
        ],
        rw same (Registry-ext (view m) _ _ (lookup-delete name m.sessions)),
        rw same (IsCoherent-delete name m c),
      )

  serve-shuts : (m : Manager) (t : Trace) → IsCoherent m → Simulated d others shuts m t
  unfolding serve respond
  serve-shuts m t c = elim (Bool-cases m.shut_down) [
    | inl e ↦
        let (shut, none_left) = IsCoherent-shut m c e in
        let idle : close d others m t ≡ (returned none, m, t) = unfold close in ground (arith, e) in
        rw (idle, serve) (refl, view-empty m shut none_left, c)
    | inr e ↦
        rw (manager_close_lem d others clock m t e, serve)
          (refl, unfold lookup in refl, (refl, refl))
  ]

  serve-Simulated :
      (q : Request) (m : Manager) (t : Trace) → IsCoherent m → Simulated d others q m t
  serve-Simulated (creates name opts) m t c = serve-creates d others name opts m t c
  serve-Simulated (gets name) m t c = serve-gets d others name m t c
  serve-Simulated (closes name) m t c = serve-closes name m t c
  serve-Simulated shuts m t c = serve-shuts m t c

  -- A manager answers every sequence of calls of CreateSession, GetSession, CloseSession and Close as
  -- the registry does that keeps for each name a pool configuration: the order of the map, what is
  -- inside the sessions, and time make no difference, and each call returns. The clock passes at every
  -- sleep, and the manager is closed exactly if its Close has run, and then it has no sessions.
  pub serve_all-respond_all :
      (qs : List Request) (m : Manager) (t : Trace)
      → IsCoherent m
      → serve_all d others qs m t ≡ respond_all qs (view m)
  unfolding serve_all respond_all
  serve_all-respond_all [] m t c = refl
  serve_all-respond_all (q ∷ qs) m t c =
      let (a, m', t') = serve d others q m t in
      let (same, next, c') = serve-Simulated q m t c in
      let rest = serve_all-respond_all qs m' t' c' in ap₂ ◌∷◌ same (rw next at rest)
