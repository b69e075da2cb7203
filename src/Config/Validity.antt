-- ===== src/Config/Validity.antt =====
-- config.go: which configurations Validate accepts, and what NewConfig returns.
use browserpm.Common.{◌≡◌, ◌↔◌, none, List, arith}
use browserpm.Common.Int.{pos, ◌≤ℤ◌, ◌<ℤ◌}
use browserpm.Errors.{ok}
use browserpm.Config.{
  PoolConfig, Config, ConfigOption, default_config, validate_pool, validate, apply_all, new_config,
}

-- What a pool's configuration has to meet.
pub record IsValidPool (p : PoolConfig) : Type 0 where
  pub min_nonneg : pos 0 ≤ℤ p.min_pages
  pub max_positive : pos 1 ≤ℤ p.max_pages
  pub min-le-max : p.min_pages ≤ℤ p.max_pages
  pub ttl_nonneg : pos 0 ≤ℤ p.ttl
  pub grace_nonneg : pos 0 ≤ℤ p.grace_period
  pub grace-lt-ttl : pos 0 <ℤ p.ttl → p.grace_period <ℤ p.ttl
  pub operation_positive : pos 0 <ℤ p.operation_timeout
  pub init_positive : pos 0 <ℤ p.init_timeout
  pub interval_nonneg : pos 0 ≤ℤ p.health_check_interval

validate_pool-none : (p : PoolConfig) → IsValidPool p → validate_pool p ≡ none
unfolding validate_pool
validate_pool-none p v = ground arith

validate_pool-IsValidPool : (p : PoolConfig) → validate_pool p ≡ none → IsValidPool p
unfolding validate_pool
validate_pool-IsValidPool p h = ground arith

-- Validate accepts a pool configuration exactly when all of its nine conditions hold.
pub validate_pool_iff : (p : PoolConfig) → (validate_pool p ≡ none) ↔ IsValidPool p
validate_pool_iff p = (validate_pool-IsValidPool p, validate_pool-none p)

-- So does that of the whole configuration, with the browser's timeout as a tenth condition.
pub validate_iff :
    (c : Config) → (validate c ≡ none) ↔ (IsValidPool c.pool × (pos 0 <ℤ c.browser.timeout))
unfolding validate
validate_iff c = (
  λ h.
      let accepted : validate_pool c.pool ≡ none = ground arith in
      (validate_pool-IsValidPool c.pool accepted, ground arith),
  λ h. ground (arith, validate_pool-none c.pool h.0),
)

-- NewConfig returns the defaults with the options applied in order, exactly when that configuration
-- is valid.
pub new_config_iff :
    (opts : List ConfigOption) (c : Config)
    → (new_config opts ≡ ok c)
      ↔ ((apply_all opts default_config ≡ c) × IsValidPool c.pool × (pos 0 <ℤ c.browser.timeout))
unfolding new_config
new_config_iff opts c = (
  λ h.
      let same : apply_all opts default_config ≡ c = ground arith in
      let accepted : validate (apply_all opts default_config) ≡ none = ground arith in
      let v = (validate_iff c).0 (rw same at accepted) in (same, v.0, v.1),
  λ h. let accepted : validate c ≡ none = (validate_iff c).1 (h.1, h.2) in ground (arith, accepted),
)
