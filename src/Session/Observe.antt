-- ===== src/Session/Observe.antt =====
-- session.go: Status, IsHealthy, HealthCheck and Stats.
use browserpm.Common.{ℕ, Bool, true, false, Option, none, some, String, if◌then◌else◌}
use browserpm.Driver.{Driver, Trace}
use browserpm.Pool.Observe.{PoolStats, size, total_active_ops}
use browserpm.Pool.Observe
use browserpm.Session.State.{Session, SessionState, active, is_closed}

pub record SessionInfo : Type 0 where
  pub name : String
  pub state : SessionState
  pub page_count : ℕ
  pub active_ops : ℕ
  pub created_at : ℕ

-- Status.
unfoldable pub status : Session → SessionInfo
status s = record {
  name = s.name;
  state = s.state;
  page_count = elim s.pool [ none ↦ 0 | some p ↦ size p ];
  active_ops = elim s.pool [ none ↦ 0 | some p ↦ total_active_ops p ];
  created_at = s.created;
}

abbrev is_active : SessionState → Bool
is_active active = true
is_active _ = false

module _ (d : Driver) where
  -- IsHealthy.
  unfoldable pub is_healthy : Session → Trace → Bool × Trace
  is_healthy s t = if is_closed s then (false, t) else (elim s.pool [
    | none ↦ (is_active s.state, t)
    | some p ↦ Observe.is_healthy d s.pool_config p t
  ])

  -- HealthCheck.
  unfoldable pub health_check : Session → Trace → ℕ × Trace
  health_check s t = elim s.pool [
    | none ↦ (0, t)
    | some p ↦ Observe.health_check d s.pool_config p t
  ]

-- Stats.
unfoldable pub stats : Session → Option PoolStats
stats s = elim s.pool [ none ↦ none | some p ↦ some (Observe.stats p) ]
