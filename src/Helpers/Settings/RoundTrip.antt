-- ===== src/Helpers/Settings/RoundTrip.antt =====
-- setup.go: the configuration that the options of a test lead to.
use browserpm.Common.{◌≡◌, refl, ◌↔◌, sym, subst, arith}
use browserpm.Common.Int.{pos, ◌<ℤ◌}
use browserpm.Config.{PoolConfig, Config, default_config, apply_all, new_config}
use browserpm.Config.Options.{
  with_headless, with_auto_install, with_min_pages, with_max_pages, with_pool_ttl,
  with_operation_timeout, with_init_timeout, with_health_check_interval, with_grace_period,
}
use browserpm.Config.Validity.{IsValidPool, new_config_iff}
use browserpm.Errors.{ok}
use browserpm.Helpers.Settings.{
  TestConfig, to_options, with_context_options, manager_options, read_back,
}

-- The pool configuration with the values of a test configuration.
abbrev pub pool_of : TestConfig → PoolConfig
pool_of c = record {
  min_pages = c.min_pages;
  max_pages = c.max_pages;
  ttl = c.pool_ttl;
  grace_period = c.grace_period;
  operation_timeout = c.operation_timeout;
  init_timeout = c.init_timeout;
  health_check_interval = c.health_check_interval;
  schedule_strategy = "round-robin";
}

abbrev applied : TestConfig → Config
applied c = apply_all (manager_options (with_context_options c)) default_config

applied-read_back :
    (c : TestConfig)
    → (read_back (applied c) ≡ c)
      × ((applied c).pool ≡ pool_of c)
      × (pos 0 <ℤ (applied c).browser.timeout)
unfolding manager_options to_options apply_all default_config with_headless with_auto_install
    with_min_pages with_max_pages with_pool_ttl with_operation_timeout with_init_timeout
    with_health_check_interval with_grace_period
applied-read_back c = (refl, refl, omega arith)

-- Given the options of a test configuration after its own, a test manager comes to a configuration from
-- which the test configuration can be read off again, exactly if its values are valid for a pool; its
-- own defaults have no effect then.
pub manager_options_iff :
    (c : TestConfig)
    → ((cfg : Config) × (new_config (manager_options (with_context_options c)) ≡ ok cfg)
        × (read_back cfg ≡ c))
      ↔ IsValidPool (pool_of c)
manager_options_iff c =
    let (same, pool, timeout) = applied-read_back c in
    (
      λ h.
          let v = (new_config_iff (manager_options (with_context_options c)) h.0).0 h.1 in
          subst IsValidPool pool (subst (λ x. IsValidPool x.pool) (sym v.0) v.1),
      λ v. (
        applied c,
        (new_config_iff (manager_options (with_context_options c)) (applied c)).1
            (refl, subst IsValidPool (sym pool) v, timeout),
        same,
      ),
    )
