-- ===== src/Installer.antt =====
-- installer.go: the installation of the driver and the browser, once. `has_run` says that the Once has
-- fired. The text that fmt.Errorf puts in front is kept.
use browserpm.Common.{
  Bool, true, false, Option, none, some, ◌≡◌, ◌↔◌, arith, refl, List, [], ◌∷◌, String,
  if◌then◌else◌,
}
use browserpm.Errors.{Error, foreign_wrap}
use browserpm.Config.{Config}
use browserpm.Driver.{Host, Trace, driver_made, driver_downloaded, command_run}

pub record Installer : Type 0 where
  pub config : Config
  pub has_run : Bool
  pub installed : Bool
  pub install_error : Option Error

-- NewInstaller.
unfoldable pub new_installer : Config → Installer
new_installer cfg = record {
  config = cfg;
  has_run = false;
  installed = false;
  install_error = none;
}

unfoldable pub install_args : Config → List String
install_args cfg =
    if cfg.install.with_deps
    then "install" ∷ "chromium" ∷ "--with-deps" ∷ []
    else "install" ∷ "chromium" ∷ []

-- The function of the Once: the error of the first step that fails.
unfoldable pub install_steps : Host → Config → Trace → Option Error × Trace
install_steps h cfg t =
    let t1 : Trace = driver_made ∷ t in
    let t2 : Trace = driver_downloaded ∷ t1 in
    let args = install_args cfg in
    elim (h.new_driver t) [
      | some e ↦ (some (foreign_wrap "failed to create driver" e), t1)
      | none ↦ elim (h.download_driver t1) [
        | some e ↦ (some (foreign_wrap "failed to download driver" e), t2)
        | none ↦ elim (h.run_command args t2) [
          | some e ↦ (some (foreign_wrap "failed to install browser" e), command_run args ∷ t2)
          | none ↦ (none, command_run args ∷ t2)
        ]
      ]
    ]

-- IsInstalled.
abbrev pub is_installed : Installer → Bool
is_installed i = i.installed

abbrev is_none : Option Error → Bool
is_none none = true
is_none (some e) = false

-- Install.
unfoldable pub install : Host → Installer → Trace → Option Error × Installer × Trace
install h i t =
    let (e, t') = install_steps h i.config t in
    if i.has_run
    then (i.install_error, i, t)
    else (e, record i { has_run = true; installed = is_none e; install_error = e }, t')

-- EnsureInstalled.
abbrev pub ensure_installed : Host → Config → Trace → Option Error × Trace
ensure_installed h cfg t = let (e, i, t') = install h (new_installer cfg) t in (e, t')

-- However often Install is called, the installation runs once: a second call makes no call outside,
-- changes nothing, and returns what the first returned.
pub install_once :
    (h : Host) (cfg : Config) (t later : Trace)
    → let (e, i, t') = install h (new_installer cfg) t in install h i later ≡ (e, i, later)
unfolding install new_installer
install_once h cfg t later = refl

-- EnsureInstalled succeeds exactly where an Install by a new installer leaves it installed.
pub ensure_installed_iff :
    (h : Host) (cfg : Config) (t : Trace)
    → ((ensure_installed h cfg t).0 ≡ none)
      ↔ (is_installed (install h (new_installer cfg) t).1 ≡ true)
unfolding install new_installer
ensure_installed_iff h cfg t = ground arith
