-- ===== src/Config.antt =====
-- config.go: the configuration, its defaults, options and validation. Durations are nanoseconds in
-- an int64, here integers; fmt.Errorf's text is kept without the values that it formats.
pub mod Options
pub mod Validity
use browserpm.Common.{
  ℕ, Bool, true, false, ◌&&◌, Option, none, some, List, [], ◌∷◌, String, if◌then◌else◌,
}
use browserpm.Common.Int.{ℤ, pos, ltb_ℤ, leb_ℤ}
use browserpm.Errors.{Error, foreign, Outcome, ok, err}

pub record BrowserConfig : Type 0 where
  pub headless : Bool
  pub args : List String
  pub timeout : ℤ

pub record InstallConfig : Type 0 where
  pub auto : Bool
  pub with_deps : Bool

pub record PoolConfig : Type 0 where
  pub min_pages : ℤ
  pub max_pages : ℤ
  pub ttl : ℤ
  pub grace_period : ℤ
  pub operation_timeout : ℤ
  pub init_timeout : ℤ
  pub health_check_interval : ℤ
  pub schedule_strategy : String

-- The logger is a handle; `none` is nil.
pub record Config : Type 0 where
  pub browser : BrowserConfig
  pub install : InstallConfig
  pub pool : PoolConfig
  pub logger : Option ℕ

unfoldable pub default_config : Config
default_config = record {
  browser = record {
    headless = true;
    args =
        "--no-sandbox" ∷ "--disable-dev-shm-usage" ∷ "--disable-gpu"
        ∷ "--disable-software-rasterizer" ∷ "--disable-extensions"
        ∷ "--disable-background-networking" ∷ "--disable-background-timer-throttling"
        ∷ "--disable-backgrounding-occluded-windows" ∷ "--disable-renderer-backgrounding"
        ∷ "--disable-features=IsolateOrigins,site-per-process" ∷ "--disable-site-isolation-trials"
        ∷ "--disable-web-security" ∷ "--disable-features=VizDisplayCompositor" ∷ "--no-first-run"
        ∷ "--no-zygote" ∷ "--disable-setuid-sandbox" ∷ "--disable-breakpad"
        ∷ "--disable-component-update" ∷ "--disable-default-apps" ∷ "--disable-translate"
        ∷ "--metrics-recording-only" ∷ "--mute-audio" ∷ "--blink-settings=imagesEnabled=false" ∷ [];
    timeout = pos 60000000000;
  };
  install = record { auto = true; with_deps = true };
  pool = record {
    min_pages = pos 1;
    max_pages = pos 10;
    ttl = pos 1800000000000;
    grace_period = pos 10000000000;
    operation_timeout = pos 30000000000;
    init_timeout = pos 30000000000;
    health_check_interval = pos 30000000000;
    schedule_strategy = "round-robin";
  };
  logger = none;
}

abbrev pub ConfigOption : Type 0
ConfigOption = Config → Config

abbrev pub SessionOption : Type 0
SessionOption = PoolConfig → PoolConfig

-- (*PoolConfig).Validate: the tests in the order of the source, the first that fails decides.
unfoldable pub validate_pool : PoolConfig → Option Error
validate_pool p =
    if ltb_ℤ p.min_pages (pos 0)
    then fail "browserpm: Pool.MinPages must be non-negative"
    else if ltb_ℤ p.max_pages (pos 1)
    then fail "browserpm: Pool.MaxPages must be at least 1"
    else if ltb_ℤ p.max_pages p.min_pages
    then fail "browserpm: Pool.MinPages must not exceed Pool.MaxPages"
    else if ltb_ℤ p.ttl (pos 0)
    then fail "browserpm: Pool.TTL must be non-negative"
    else if ltb_ℤ p.grace_period (pos 0)
    then fail "browserpm: Pool.GracePeriod must be non-negative"
    else if ltb_ℤ (pos 0) p.ttl && leb_ℤ p.ttl p.grace_period
    then fail "browserpm: Pool.GracePeriod must be less than Pool.TTL"
    else if leb_ℤ p.operation_timeout (pos 0)
    then fail "browserpm: Pool.OperationTimeout must be positive"
    else if leb_ℤ p.init_timeout (pos 0)
    then fail "browserpm: Pool.InitTimeout must be positive"
    else if ltb_ℤ p.health_check_interval (pos 0)
    then fail "browserpm: Pool.HealthCheckInterval must be non-negative"
    else none
  where
    fail : String → Option Error
    fail s = some (foreign s)

-- (*Config).Validate.
unfoldable pub validate : Config → Option Error
validate c = elim (validate_pool c.pool) [
  | some e ↦ some e
  | none ↦
      if leb_ℤ c.browser.timeout (pos 0)
      then some (foreign "browserpm: Browser.Timeout must be positive")
      else none
]

-- The loop that applies options, to a Config or to a pool's.
unfoldable pub apply_all {ℓ} : {A : Type ℓ} → List (A → A) → A → A
apply_all [] c = c
apply_all (opt ∷ opts) c = apply_all opts (opt c)

-- NewConfig.
unfoldable pub new_config : List ConfigOption → Outcome Config
new_config opts =
    let cfg = apply_all opts default_config in
    elim (validate cfg) [ some e ↦ err e | none ↦ ok cfg ]
