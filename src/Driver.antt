-- ===== src/Driver.antt =====
-- The outside of the program: Playwright, the providers and operations that the caller supplies, the
-- clock and the random source. None of that code is in the repository, so it is a parameter: a
-- record of answers, each of which may depend on every call made before it (the trace, newest
-- first). Pages and browser contexts are known by a handle.
use browserpm.Common.{
  ℕ, suc, ◌≤◌, ◌<◌, ◌≡◌, ◌==◌, Bool, Option, none, List, [], ◌∷◌, String, if◌then◌else◌,
}
use browserpm.Common.Int.{ℤ}
use browserpm.Errors.{Error, Outcome, ok}
use browserpm.Config.{BrowserConfig}

-- One entry for each call that leaves the program.
pub data Event : Type 0 where
  context_opened : ℕ → Event  -- Browser.NewContext, with the context that it returned
  context_refused : Event  -- Browser.NewContext, which failed
  context_set_up : ℕ → Event  -- ContextProvider.Setup
  context_probed : ℕ → Event  -- BrowserContext.Cookies
  context_closed : ℕ → Event  -- BrowserContext.Close
  page_opened : ℕ → ℕ → Event  -- BrowserContext.NewPage, with the context and the page
  page_refused : ℕ → Event  -- BrowserContext.NewPage, which failed
  page_initialised : ℕ → Event  -- PageProvider.Init
  page_probed : ℕ → Event  -- Page.IsClosed
  page_checked : ℕ → Event  -- PageProvider.Check
  page_closed : ℕ → Event  -- Page.Close
  close_spawned : ℕ → Event  -- a goroutine started whose one call is Page.Close
  operation_run : ℕ → Event  -- the caller's OperationFunc
  id_drawn : Event  -- rand.Read
  clock_read : Event  -- time.Now
  slept : Event  -- time.Sleep
  ticked : Event  -- a select over the ticker and ctx.Done
  driver_made : Event  -- playwright.NewDriver
  driver_downloaded : Event  -- DownloadDriver
  command_run : List String → Event  -- Command and Run, with the arguments
  playwright_started : Event  -- playwright.Run
  playwright_refused : Event  -- playwright.Run, which failed
  browser_launched : Event  -- Chromium.Launch
  browser_refused : Event  -- Chromium.Launch, which failed
  cdp_requested : Event  -- NewBrowserCDPSession
  cdp_detached : Event
  browser_closed : Event
  playwright_stopped : Event
  cdp_sent : Event  -- CDPSession.Send
  process_opened : ℤ → Event  -- process.NewProcess
  memory_read : ℤ → Event  -- Process.MemoryInfo
  maps_read : ℤ → Event  -- Process.MemoryMapsWithContext

abbrev pub Trace : Type 0
Trace = List Event

-- What a callee sees of the context.Context it is given: whether it is cancelled already, and the
-- timeout that the program sets.
pub record CallContext : Type 0 where
  pub is_cancelled : Bool
  pub timeout : ℤ

pub record Driver : Type 0 where
  pub new_context : Trace → Outcome ℕ
  pub set_up : CallContext → ℕ → Trace → Option Error
  pub cookies : ℕ → Trace → Option Error
  pub new_page : ℕ → Trace → Outcome ℕ
  pub init_page : CallContext → ℕ → Trace → Option Error
  pub is_closed : ℕ → Trace → Bool
  pub check_page : CallContext → ℕ → Trace → Bool
  pub operation : ℕ → Trace → Option Error
  pub now : Trace → ℕ
  pub random_id : Trace → String
  -- In a select: `some e` when ctx.Done fires first, with ctx.Err() = e.
  pub done : Trace → Option Error
  pub close_browser : Trace → Option Error
  pub stop_playwright : Trace → Option Error

-- What New and the installer call: the Playwright package before there is a browser.
pub record Host : Type 0 where
  pub new_driver : Trace → Option Error
  pub download_driver : Trace → Option Error
  pub run_command : List String → Trace → Option Error
  pub run_playwright : Trace → Option Error
  pub launch : BrowserConfig → Trace → Option Error
  pub new_cdp : Trace → Option Error

-- The monotonic clock never goes back, and time passes during a sleep or a wait for the ticker.
pub record IsClock (now : Trace → ℕ) : Type 0 where
  pub forward : (e : Event) (t : Trace) → now t ≤ now (e ∷ t)
  pub sleep_passes : (t : Trace) → now t < now (slept ∷ t)
  pub tick_passes : (t : Trace) → now t < now (ticked ∷ t)

-- A browser in good order: every page opens, and every initialisation succeeds.
pub record Serves (d : Driver) : Type 0 where
  pub opens : (c : ℕ) (t : Trace) → (p : ℕ) × (d.new_page c t ≡ ok p)
  pub inits : (x : CallContext) (p : ℕ) (t : Trace) → d.init_page x p t ≡ none

-- How often a page was opened, and how often it was closed or a goroutine was sent to close it.
abbrev pub opened : ℕ → Trace → ℕ
opened p [] = 0
opened p (page_opened c q ∷ t) = let rest = opened p t in if p == q then suc rest else rest
opened p (_ ∷ t) = opened p t

abbrev pub released : ℕ → Trace → ℕ
released p [] = 0
released p (page_closed q ∷ t) = let rest = released p t in if p == q then suc rest else rest
released p (close_spawned q ∷ t) = let rest = released p t in if p == q then suc rest else rest
released p (_ ∷ t) = released p t

-- How often the caller's operation was run.
abbrev pub runs : Trace → ℕ
runs [] = 0
runs (operation_run p ∷ t) = suc (runs t)
runs (_ ∷ t) = runs t

-- The same of browser contexts.
abbrev pub contexts_opened : ℕ → Trace → ℕ
contexts_opened c [] = 0
contexts_opened c (context_opened b ∷ t) =
    let rest = contexts_opened c t in if c == b then suc rest else rest
contexts_opened c (_ ∷ t) = contexts_opened c t

abbrev pub contexts_closed : ℕ → Trace → ℕ
contexts_closed c [] = 0
contexts_closed c (context_closed b ∷ t) =
    let rest = contexts_closed c t in if c == b then suc rest else rest
contexts_closed c (_ ∷ t) = contexts_closed c t

-- How often any browser context was opened, and how often one was closed.
abbrev pub openings : Trace → ℕ
openings [] = 0
openings (context_opened b ∷ t) = suc (openings t)
openings (_ ∷ t) = openings t

abbrev pub closings : Trace → ℕ
closings [] = 0
closings (context_closed b ∷ t) = suc (closings t)
closings (_ ∷ t) = closings t

-- How often Playwright was started, and how often it was stopped.
abbrev pub starts : Trace → ℕ
starts [] = 0
starts (playwright_started ∷ t) = suc (starts t)
starts (_ ∷ t) = starts t

abbrev pub stops : Trace → ℕ
stops [] = 0
stops (playwright_stopped ∷ t) = suc (stops t)
stops (_ ∷ t) = stops t
