-- ===== src/Config/Options.antt =====
-- config.go: the options of a manager (a change of the Config) and of a session (a change of its
-- copy of the pool's configuration).
use browserpm.Common.{ℕ, Bool, some, List, String}
use browserpm.Common.Int.{ℤ}
use browserpm.Config.{ConfigOption, SessionOption}

-- Browser and installation options.
unfoldable pub with_headless : Bool → ConfigOption
with_headless b c = record c { browser = record c.browser { headless = b } }

pub with_browser_args : List String → ConfigOption
with_browser_args args c = record c { browser = record c.browser { args = args } }

pub with_browser_timeout : ℤ → ConfigOption
with_browser_timeout d c = record c { browser = record c.browser { timeout = d } }

unfoldable pub with_auto_install : Bool → ConfigOption
with_auto_install b c = record c { install = record c.install { auto = b } }

pub with_deps : Bool → ConfigOption
with_deps b c = record c { install = record c.install { with_deps = b } }

-- Pool options.
unfoldable pub with_min_pages : ℤ → ConfigOption
with_min_pages n c = record c { pool = record c.pool { min_pages = n } }

unfoldable pub with_max_pages : ℤ → ConfigOption
with_max_pages n c = record c { pool = record c.pool { max_pages = n } }

unfoldable pub with_pool_ttl : ℤ → ConfigOption
with_pool_ttl d c = record c { pool = record c.pool { ttl = d } }

unfoldable pub with_grace_period : ℤ → ConfigOption
with_grace_period d c = record c { pool = record c.pool { grace_period = d } }

unfoldable pub with_operation_timeout : ℤ → ConfigOption
with_operation_timeout d c = record c { pool = record c.pool { operation_timeout = d } }

unfoldable pub with_init_timeout : ℤ → ConfigOption
with_init_timeout d c = record c { pool = record c.pool { init_timeout = d } }

unfoldable pub with_health_check_interval : ℤ → ConfigOption
with_health_check_interval d c = record c { pool = record c.pool { health_check_interval = d } }

pub with_schedule_strategy : String → ConfigOption
with_schedule_strategy s c = record c { pool = record c.pool { schedule_strategy = s } }

pub with_logger : ℕ → ConfigOption
with_logger l c = record c { logger = some l }

-- Session options.
pub with_session_min_pages : ℤ → SessionOption
with_session_min_pages n p = record p { min_pages = n }

pub with_session_max_pages : ℤ → SessionOption
with_session_max_pages n p = record p { max_pages = n }

pub with_session_ttl : ℤ → SessionOption
with_session_ttl d p = record p { ttl = d }

pub with_session_grace_period : ℤ → SessionOption
with_session_grace_period d p = record p { grace_period = d }

pub with_session_operation_timeout : ℤ → SessionOption
with_session_operation_timeout d p = record p { operation_timeout = d }

pub with_session_init_timeout : ℤ → SessionOption
with_session_init_timeout d p = record p { init_timeout = d }

pub with_session_health_check_interval : ℤ → SessionOption
with_session_health_check_interval d p = record p { health_check_interval = d }

pub with_session_schedule_strategy : String → SessionOption
with_session_schedule_strategy s p = record p { schedule_strategy = s }
