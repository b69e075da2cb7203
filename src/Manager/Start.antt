-- ===== src/Manager/Start.antt =====
-- manager.go: New and init. A step that needs Playwright or the browser is a call of the host.
use browserpm.Common.{
  ℕ, ◌+◌, ◌≡◌, inl, inr, Bool, true, false, Option, none, some, List, [], ◌∷◌, arith, if◌then◌else◌,
}
use browserpm.Errors.{Error, Outcome, ok, err, Outcome-cases, wrap_error, internal}
use browserpm.Config.{Config, ConfigOption, new_config}
use browserpm.Driver.{
  Host, Trace, playwright_started, playwright_refused, browser_launched, browser_refused,
  cdp_requested, playwright_stopped, starts, stops,
}
use browserpm.Installer.{install, install_steps, new_installer}
use browserpm.Manager.Operations.{Manager}

abbrev is_none : Option Error → Bool
is_none none = true
is_none (some e) = false

-- The BrowserManager of New before init.
abbrev pub bare_manager : Config → Manager
bare_manager cfg = record {
  config = cfg;
  sessions = [];
  is_closed = false;
  shut_down = false;
  has_cdp = false;
  has_browser = false;
  has_playwright = false;
}

-- The end of init, with the browser launched. Without a CDP session it goes on.
unfoldable pub attach_cdp : Host → Manager → Trace → Option Error × Manager × Trace
attach_cdp h m t = (none, record m { has_cdp = is_none (h.new_cdp t) }, cdp_requested ∷ t)

-- The part of init that launches the browser, once Playwright runs.
unfoldable pub launch_browser : Host → Manager → Trace → Option Error × Manager × Trace
launch_browser h m t = elim (h.launch (m.config).browser t) [
  | some e ↦ (
    some (wrap_error e internal "failed to launch browser"),
    m,
    playwright_stopped ∷ browser_refused ∷ t,
  )
  | none ↦ attach_cdp h (record m { has_browser = true }) (browser_launched ∷ t)
]

-- The part of init that starts Playwright.
unfoldable pub start_playwright : Host → Manager → Trace → Option Error × Manager × Trace
start_playwright h m t = elim (h.run_playwright t) [
  | some e ↦ (some (wrap_error e internal "failed to start playwright"), m, playwright_refused ∷ t)
  | none ↦ launch_browser h (record m { has_playwright = true }) (playwright_started ∷ t)
]

-- init.
unfoldable pub init : Host → Manager → Trace → Option Error × Manager × Trace
init h m t =
    let (e, i, t') = install h (new_installer m.config) t in
    if (m.config).install.auto
    then (elim e [
      | some x ↦ (some (wrap_error x internal "auto-install failed"), m, t')
      | none ↦ start_playwright h m t'
    ])
    else start_playwright h m t

-- New.
unfoldable pub new_manager : Host → List ConfigOption → Trace → Outcome Manager × Trace
new_manager h opts t = elim (new_config opts) [
  | err e ↦ (err e, t)
  | ok cfg ↦
      let (r, m, t') = init h (bare_manager cfg) t in
      elim r [ some e ↦ (err e, t') | none ↦ (ok m, t') ]
]

abbrev pub one_if_ok : Outcome Manager → ℕ
one_if_ok (ok m) = 1
one_if_ok (err e) = 0

module _ (h : Host) where
  start_playwright-starts :
      (m : Manager) (t : Trace)
      → let (r, m', t') = start_playwright h m t in
        starts t' + stops t ≡ starts t + stops t' + (if is_none r then 1 else 0)
  unfolding start_playwright launch_browser attach_cdp
  start_playwright-starts m t = ground arith

  install-starts :
      (cfg : Config) (t : Trace)
      → let (e, i, t') = install h (new_installer cfg) t in
        (starts t' ≡ starts t) × (stops t' ≡ stops t)
  unfolding install install_steps new_installer
  install-starts cfg t = ground arith

  init-starts :
      (m : Manager) (t : Trace)
      → let (r, m', t') = init h m t in
        starts t' + stops t ≡ starts t + stops t' + (if is_none r then 1 else 0)
  unfolding init
  init-starts m t =
      let (e, i, t') = install h (new_installer m.config) t in
      ground (
        arith,
        install-starts m.config t,
        start_playwright-starts m t,
        start_playwright-starts m t',
      )

  -- A New that fails leaves no Playwright process behind: it has stopped it as often as it has started
  -- it. A New that succeeds has started it once more.
  pub new_manager-starts :
      (opts : List ConfigOption) (t : Trace)
      → let (r, t') = new_manager h opts t in
        starts t' + stops t ≡ starts t + stops t' + one_if_ok r
  unfolding new_manager
  new_manager-starts opts t = elim (Outcome-cases (new_config opts)) [
    | inl (x, e) ↦ rw (e, new_manager) (omega arith)
    | inr (cfg, e) ↦ rw (e, new_manager) (ground (arith, init-starts (bare_manager cfg) t))
  ]
