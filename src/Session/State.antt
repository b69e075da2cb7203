-- ===== src/Session/State.antt =====
-- session.go: the session's state, and what Do and DoShare share.
use browserpm.Common.{
  ℕ, zero, suc, Bool, true, false, Option, none, some, String, ◌∷◌, if◌then◌else◌,
}
use browserpm.Errors.{Error, ErrorCode, new_error}
use browserpm.Config.{PoolConfig}
use browserpm.Driver.{Driver, Trace, context_probed}
use browserpm.Pool.Page.{Pool}

pub data SessionState : Type 0 where
  active degraded closed : SessionState

-- Session, less its manager, providers and logger. `is_cancelled` is the state of its context.Context.
pub record Session : Type 0 where
  pub name : String
  pub pool_config : PoolConfig
  pub browser_context : Option ℕ
  pub pool : Option Pool
  pub state : SessionState
  pub created : ℕ
  pub is_cancelled : Bool
  pub rebuilding : Bool

-- (SessionState).String.
pub state_name : SessionState → String
state_name active = "active"
state_name degraded = "degraded"
state_name closed = "closed"

-- What other goroutines do to a pool and to a session while an operation waits.
pub record Others : Type 0 where
  pub on_pool : Pool → Trace → Pool
  pub on_session : Session → Trace → Session

-- What the caller's context.Context says: whether it is cancelled already, and its deadline.
pub record Caller : Type 0 where
  pub is_cancelled : Bool
  pub deadline : Option ℕ

-- How one round of the retry loop ends: with the result of the call, with an error to retry after,
-- with a wait that does not end, or with the use of a nil pool.
pub data Round : Type 0 where
  finished : Option Error → Round
  again : Error → Round
  stuck panics : Round

-- maxRetries is 2, and the loop runs while attempt <= maxRetries.
abbrev pub max_retries : ℕ
max_retries = 2

-- isClosed.
abbrev pub is_closed : Session → Bool
is_closed s = elim s.state [ closed ↦ true | _ ↦ false ]

-- isContextDead: Cookies is the probe.
unfoldable pub is_context_dead : Driver → Session → Trace → Bool × Trace
is_context_dead d s t = elim s.browser_context [
  | none ↦ (true, t)
  | some c ↦ (elim (d.cookies c t) [ none ↦ false | some e ↦ true ], context_probed c ∷ t)
]

-- What a call of Do or DoShare comes to.
pub data Reply : Type 0 where
  replied : Option Error → Reply
  waits crashed : Reply

-- What follows a round: the end of the call, or the rest of the loop after an error.
unfoldable pub next_round :
    (Error → Reply × Session × Trace) → Round → Session → Trace → Reply × Session × Trace
next_round rest (finished x) s t = (replied x, s, t)
next_round rest (again e) s t = rest e
next_round rest stuck s t = (waits, s, t)
next_round rest panics s t = (crashed, s, t)

-- The retry loop of Do and of DoShare over the rounds that are left, with lastErr.
unfoldable pub retry :
    (Session → Trace → Round × Session × Trace)
    → ℕ
    → Option Error
    → Session
    → Trace
    → Reply × Session × Trace
retry round zero last s t = (replied last, s, t)
retry round (suc n) last s t =
    let (r, s', t') = round s t in next_round (λ e. retry round n (some e) s' t') r s' t'

-- Do and DoShare alike: a closed session refuses, any other goes through at most three rounds.
unfoldable pub with_retries :
    (Session → Trace → Round × Session × Trace) → Session → Trace → Reply × Session × Trace
with_retries round s t =
    if is_closed s
    then (replied (some (new_error ErrorCode.closed "session is closed")), s, t)
    else retry round (suc max_retries) none s t
