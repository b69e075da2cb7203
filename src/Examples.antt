-- ===== src/Examples.antt =====
-- Concrete data for the tests: a browser in good order with a clock that counts the calls, a
-- configuration, pools and sessions.
pub mod Values
pub mod Pages
pub mod Sessions
pub mod Managers
pub mod Scenarios
use browserpm.Common.{
  ℕ, ◌+◌, ◌≤◌, ◌<◌, ◌==◌, false, true, refl, inl, Option, none, some, List, [], ◌∷◌, arith, length,
  if◌then◌else◌,
}
use browserpm.Common.Int.{pos}
use browserpm.Errors.{ok}
use browserpm.Config.{PoolConfig, default_config}
use browserpm.Driver.{Driver, Host, Trace, IsClock, Serves}
use browserpm.Pool.Page.{Pool, PoolPage, PageState, idle, closing}
use browserpm.Pool.Invariant.{IsWellFormed}
use browserpm.Session.State.{Session, SessionState, Others, Caller}
use browserpm.Session.Consistency.{IsConsistent}
use browserpm.Manager.Operations.{Manager}
use browserpm.Global.{Global}

-- The clock starts at 100 and goes on by one at each call.
abbrev pub clock : Trace → ℕ
clock t = 100 + length t

pub clock-IsClock : IsClock clock
clock-IsClock = record {
  forward = λ e t. omega arith;
  sleep_passes = λ t. omega arith;
  tick_passes = λ t. omega arith;
}

abbrev pub good_driver : Driver
good_driver = record {
  new_context = λ t. ok 1;
  set_up = λ x c t. none;
  cookies = λ c t. none;
  new_page = λ c t. ok (length t);
  init_page = λ x p t. none;
  is_closed = λ p t. false;
  check_page = λ x p t. true;
  operation = λ p t. none;
  now = clock;
  random_id = λ t. "8f3a";
  done = λ t. none;
  close_browser = λ t. none;
  stop_playwright = λ t. none;
}

pub good_driver-Serves : Serves good_driver
good_driver-Serves = record { opens = λ c t. (length t, refl); inits = λ x p t. refl }

abbrev pub small_config : PoolConfig
small_config = record {
  min_pages = pos 1;
  max_pages = pos 2;
  ttl = pos 10;
  grace_period = pos 4;
  operation_timeout = pos 3;
  init_timeout = pos 3;
  health_check_interval = pos 5;
  schedule_strategy = "round-robin";
}

abbrev pub page_with : PageState → ℕ → PoolPage
page_with st created = record {
  page = 7;
  id = "p";
  state = st;
  created_at = created;
  last_used = created;
  active_ops = 0;
  use_count = 0;
}

-- Page 0 has been closing since long ago, page 1 is idle and young.
abbrev pub two_pages : Pool
two_pages = record {
  pages = 0 ∷ 1 ∷ [];
  store = λ p. if p == 0 then page_with closing 0 else page_with idle 99;
  next = 2;
  counter = 0;
  context = 1;
  is_cancelled = false;
  checker_runs = true;
  reaper_runs = true;
  replacing = [];
}

-- The same pool with no page yet.
abbrev pub no_pages : Pool
no_pages = record two_pages { pages = [] }

-- The same pool with both pages closing.
abbrev pub closing_pages : Pool
closing_pages = record two_pages { store = λ p. page_with closing 0 }

pub two_pages-IsWellFormed : IsWellFormed two_pages
two_pages-IsWellFormed = record {
  distinct = (refl, (refl, tt));
  allocated = (omega arith, (omega arith, tt));
  live = (refl, (refl, tt));
}

-- The other goroutines do nothing.
abbrev pub nobody : Others
nobody = record { on_pool = λ p t. p; on_session = λ s t. s }

abbrev pub patient : Caller
patient = record { is_cancelled = false; deadline = none }

abbrev pub session_with : SessionState → Option ℕ → Option Pool → Session
session_with st context pool = record {
  name = "shop";
  pool_config = small_config;
  browser_context = context;
  pool = pool;
  state = st;
  created = 90;
  is_cancelled = false;
  rebuilding = false;
}

abbrev pub open_session : Session
open_session = session_with SessionState.active (some 1) (some two_pages)

abbrev pub fresh_session : Session
fresh_session = session_with SessionState.active none none

abbrev pub closed_session : Session
closed_session = session_with SessionState.closed none none

pub open_session-IsConsistent : IsConsistent open_session
open_session-IsConsistent = record { paired = inl refl; sound = two_pages-IsWellFormed }

abbrev pub two_sessions : Manager
two_sessions = record {
  config = record default_config { pool = small_config };
  sessions = ("shop", open_session) ∷ ("bank", fresh_session) ∷ [];
  is_closed = false;
  shut_down = false;
  has_cdp = true;
  has_browser = true;
  has_playwright = true;
}

-- A host on which every step succeeds.
abbrev pub good_host : Host
good_host = record {
  new_driver = λ t. none;
  download_driver = λ t. none;
  run_command = λ args t. none;
  run_playwright = λ t. none;
  launch = λ cfg t. none;
  new_cdp = λ t. none;
}

abbrev pub running_global : Global
running_global = record {
  manager = some two_sessions;
  opts = [];
  init_error = none;
  has_run = true;
}

-- The package's variables before the first call.
abbrev pub untouched_global : Global
untouched_global = record { manager = none; opts = []; init_error = none; has_run = false }
