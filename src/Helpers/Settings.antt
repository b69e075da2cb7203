-- ===== src/Helpers/Settings.antt =====
-- setup.go: the configuration of a test, and the options that it stands for.
pub mod RoundTrip
use browserpm.Common.{Bool, true, List, [], ◌∷◌, ◌++◌}
use browserpm.Common.Int.{ℤ, pos}
use browserpm.Config.{Config, ConfigOption, apply_all}
use browserpm.Config.Options

pub record TestConfig : Type 0 where
  pub min_pages : ℤ
  pub max_pages : ℤ
  pub pool_ttl : ℤ
  pub operation_timeout : ℤ
  pub init_timeout : ℤ
  pub health_check_interval : ℤ
  pub grace_period : ℤ
  pub headless : Bool

-- The constants of the file, in nanoseconds.
abbrev pub default_test_timeout : ℤ
default_test_timeout = pos 60000000000

abbrev pub default_operation_timeout : ℤ
default_operation_timeout = pos 10000000000

abbrev pub default_init_timeout : ℤ
default_init_timeout = pos 10000000000

abbrev pub default_health_check_interval : ℤ
default_health_check_interval = pos 5000000000

abbrev pub default_pool_ttl : ℤ
default_pool_ttl = pos 60000000000

abbrev pub default_grace_period : ℤ
default_grace_period = pos 5000000000

abbrev pub ContextOption : Type 0
ContextOption = TestConfig → TestConfig

abbrev pub with_min_pages : ℤ → ContextOption
with_min_pages n c = record c { min_pages = n }

abbrev pub with_max_pages : ℤ → ContextOption
with_max_pages n c = record c { max_pages = n }

abbrev pub with_pool_ttl : ℤ → ContextOption
with_pool_ttl d c = record c { pool_ttl = d }

abbrev pub with_operation_timeout : ℤ → ContextOption
with_operation_timeout d c = record c { operation_timeout = d }

-- NewTestConfig.
unfoldable pub new_test_config : List ContextOption → TestConfig
new_test_config opts = apply_all opts (record {
  min_pages = pos 1;
  max_pages = pos 5;
  pool_ttl = default_pool_ttl;
  operation_timeout = default_operation_timeout;
  init_timeout = default_init_timeout;
  health_check_interval = default_health_check_interval;
  grace_period = default_grace_period;
  headless = true;
})

-- ToOptions.
unfoldable pub to_options : TestConfig → List ConfigOption
to_options c =
    Options.with_headless c.headless
    ∷ Options.with_auto_install true
    ∷ Options.with_min_pages c.min_pages
    ∷ Options.with_max_pages c.max_pages
    ∷ Options.with_pool_ttl c.pool_ttl
    ∷ Options.with_operation_timeout c.operation_timeout
    ∷ Options.with_init_timeout c.init_timeout
    ∷ Options.with_health_check_interval c.health_check_interval
    ∷ Options.with_grace_period c.grace_period
    ∷ []

-- WithContextOptions.
abbrev pub with_context_options : TestConfig → List ConfigOption
with_context_options config = to_options config

-- The options that NewTestManager passes to New: its own, then those of the caller.
unfoldable pub manager_options : List ConfigOption → List ConfigOption
manager_options opts =
    (Options.with_headless true
      ∷ Options.with_auto_install true
      ∷ Options.with_min_pages (pos 1)
      ∷ Options.with_max_pages (pos 5)
      ∷ Options.with_pool_ttl default_pool_ttl
      ∷ Options.with_operation_timeout default_operation_timeout
      ∷ Options.with_init_timeout default_init_timeout
      ∷ Options.with_health_check_interval default_health_check_interval
      ∷ Options.with_grace_period default_grace_period
      ∷ [])
    ++ opts

-- What a test configuration says of a configuration.
abbrev pub read_back : Config → TestConfig
read_back c = record {
  min_pages = c.pool.min_pages;
  max_pages = c.pool.max_pages;
  pool_ttl = c.pool.ttl;
  operation_timeout = c.pool.operation_timeout;
  init_timeout = c.pool.init_timeout;
  health_check_interval = c.pool.health_check_interval;
  grace_period = c.pool.grace_period;
  headless = c.browser.headless;
}
