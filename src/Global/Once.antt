-- ===== src/Global/Once.antt =====
-- global.go: what Global returns again, and what it returns after Shutdown.
use browserpm.Common.{◌≡◌, true, none, some, List, String, arith}
use browserpm.Config.{ConfigOption, SessionOption}
use browserpm.Driver.{Host, Driver, Trace, IsClock}
use browserpm.Session.State.{Others}
use browserpm.Manager.Operations.{Manager}
use browserpm.Manager.Shutdown.{manager_close_returns}
use browserpm.Errors.{panics}
use browserpm.Global.{Global, set_global_options, global, with_global, g_create_session, shutdown}

-- Global builds the manager once: a later call makes no call outside and returns the same, whatever
-- options are set in between.
pub global_once :
    (h : Host) (g : Global) (opts : List ConfigOption) (t later : Trace)
    → let (r, g', t') = global h g t in
      let g'' = set_global_options opts g' in global h g'' later ≡ (r, g'', later)
unfolding global set_global_options
global_once h g opts t later = ground arith

-- After Shutdown of a manager that Global has built, Global returns neither a manager nor an error, and
-- GCreateSession panics.
pub global-shutdown :
    (h : Host) (d : Driver) (others : Others)
    → IsClock d.now
    → (m : Manager) (g : Global) (t later : Trace) (name : String) (opts : List SessionOption)
    → g.manager ≡ some m
    → g.init_error ≡ none
    → g.has_run ≡ true
    → let g' = (shutdown d others g t).1 in
      (global h g' later ≡ ((none, none), g', later))
      × (g_create_session h d name opts g' later ≡ (panics, g', later))
unfolding shutdown global g_create_session with_global
global-shutdown h d others clock m g t later name opts a b c =
    ground (arith, manager_close_returns d others clock m t, a, b, c)
