-- ===== src/Manager/Registry.antt =====
-- manager.go: what a manager promises of its sessions, without the order of the map, the sessions'
-- inner state, and time: a partial function from names to pool configurations that can be shut.
use Prim.Native.String.{◌++◌}
use text.Mathlib.Text.{◌==◌}
use browserpm.Common.{Bool, true, Option, none, some, List, [], ◌∷◌, String, if◌then◌else◌}
use browserpm.Common.Assoc.{lookup}
use browserpm.Errors.{
  Error, ErrorCode, Outcome, ok, err, Wait, returned, hangs, new_error, wrap_error, invalid_state,
  session_exists, session_not_found,
}
use browserpm.Config.{PoolConfig, SessionOption, apply_all, validate_pool}
use browserpm.Driver.{Driver, Trace}
use browserpm.Session.State.{Session, Others}
use browserpm.Manager.Operations.{Manager, create_session, get_session, close_session, close}

pub record Registry : Type 0 where
  pub defaults : PoolConfig
  pub is_shut : Bool
  pub find : String → Option PoolConfig

-- A call of the manager, and what the caller sees of its answer: of Close, whether it returns.
pub data Request : Type 0 where
  creates : String → List SessionOption → Request
  gets closes : String → Request
  shuts : Request

pub data Answer : Type 0 where
  session : Outcome PoolConfig → Answer
  ended : Wait (Option Error) → Answer
  stopped waiting : Answer

-- The specification: the answer and the registry afterwards.
unfoldable pub respond : Request → Registry → Answer × Registry
respond (creates name opts) r =
    let cfg = apply_all opts r.defaults in
    if r.is_shut
    then (session (err (new_error ErrorCode.closed "manager is closed")), r)
    else (elim (validate_pool cfg) [
      | some e ↦ (session (err (wrap_error e invalid_state "invalid session pool config")), r)
      | none ↦ elim (r.find name) [
        | some old ↦
            (session (err (new_error session_exists ("session already exists: " ++ name))), r)
        | none ↦
            (session (ok cfg), record r { find = λ n. if name == n then some cfg else r.find n })
      ]
    ])
respond (gets name) r = (
  elim (r.find name) [
    | none ↦ session (err (new_error session_not_found ("session not found: " ++ name)))
    | some cfg ↦ session (ok cfg)
  ],
  r,
)
respond (closes name) r = (
  elim (r.find name) [
    | none ↦ ended (returned (some (new_error session_not_found ("session not found: " ++ name))))
    | some cfg ↦ ended (returned none)
  ],
  record r { find = λ n. if name == n then none else r.find n },
)
respond shuts r = (stopped, record r { is_shut = true; find = λ n. none })

unfoldable pub respond_all : List Request → Registry → List Answer
respond_all [] r = []
respond_all (q ∷ qs) r = let (a, r') = respond q r in a ∷ respond_all qs r'

-- What the registry keeps of a session.
abbrev pub config_of : Option Session → Option PoolConfig
config_of none = none
config_of (some s) = some s.pool_config

abbrev pub outcome_of : Outcome Session → Outcome PoolConfig
outcome_of (ok s) = ok s.pool_config
outcome_of (err e) = err e

abbrev pub ending : Wait (Option Error) → Answer
ending (returned e) = stopped
ending hangs = waiting

-- The manager's operations, with their answers.
module _ (d : Driver) (others : Others) where
  unfoldable pub serve : Request → Manager → Trace → Answer × Manager × Trace
  serve (creates name opts) m t =
      let (r, m', t') = create_session d name opts m t in (session (outcome_of r), m', t')
  serve (gets name) m t = (session (outcome_of (get_session name m)), m, t)
  serve (closes name) m t = let (w, m', t') = close_session d others name m t in (ended w, m', t')
  serve shuts m t = let (w, m', t') = close d others m t in (ending w, m', t')

  unfoldable pub serve_all : List Request → Manager → Trace → List Answer
  serve_all [] m t = []
  serve_all (q ∷ qs) m t = let (a, m', t') = serve q m t in a ∷ serve_all qs m' t'

-- The registry that a manager implements.
abbrev pub view : Manager → Registry
view m = record {
  defaults = (m.config).pool;
  is_shut = m.is_closed;
  find = λ n. config_of (lookup n m.sessions);
}
