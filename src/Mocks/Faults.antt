-- ===== src/Mocks/Faults.antt =====
-- browser.go and page.go of test_scenarios/mock: the errors that stand for faults. What rand.Intn or the
-- clock chooses is the parameter `idx`; an index out of range panics.
pub mod Recognised
use Prim.Native.String.{◌++◌}
use text.Mathlib.Text.{◌==◌}
use browserpm.Common.{ℕ, Option, none, some, List, [], ◌∷◌, String, get_elem?, if◌then◌else◌}
use browserpm.Errors.{Error, foreign, Called, done, panics}

abbrev chosen : List String → ℕ → Called Error
chosen errs idx = elim (get_elem? errs idx) [ none ↦ panics | some text ↦ done (foreign text) ]

abbrev pub connection_errors : List String
connection_errors =
    "target closed: could not read protocol padding: EOF" ∷ "Execution context was destroyed"
    ∷ "Connection closed: remote hung up" ∷ "websocket closed: 1006" ∷ "Session closed unexpectedly"
    ∷ "could not read protocol padding: invalid frame header" ∷ "frame was detached"
    ∷ "page has been closed" ∷ "socket hang up" ∷ []

unfoldable pub generate_connection_error : ℕ → Called Error
generate_connection_error idx = chosen connection_errors idx

unfoldable pub generate_timeout_error : Error
generate_timeout_error = foreign "context deadline exceeded"

abbrev pub network_errors : List String
network_errors =
    "net::ERR_CONNECTION_RESET" ∷ "net::ERR_CONNECTION_REFUSED" ∷ "net::ERR_CONNECTION_TIMED_OUT"
    ∷ "net::ERR_INTERNET_DISCONNECTED" ∷ "net::ERR_NAME_NOT_RESOLVED" ∷ []

unfoldable pub generate_network_error : ℕ → Called Error
generate_network_error idx = chosen network_errors idx

-- CrashPattern, with the text of the error that its Inject makes.
pub record CrashPattern : Type 0 where
  pub name : String
  pub description : String
  pub injected : String

abbrev pattern_of : String → String → String → CrashPattern
pattern_of name description injected = record {
  name = name;
  description = description;
  injected = injected;
}

-- The patterns of NewCrashInjector, and Patterns.
abbrev pub crash_patterns : List CrashPattern
crash_patterns =
    pattern_of "target_closed" "Simulates 'target closed' error"
      "target closed: could not read protocol padding: EOF"
    ∷ pattern_of "execution_context_destroyed" "Simulates execution context destroyed error"
        "Execution context was destroyed"
    ∷ pattern_of "connection_closed" "Simulates connection closed error"
        "Connection closed: remote hung up"
    ∷ pattern_of "websocket_closed" "Simulates WebSocket closed error" "websocket closed: 1006"
    ∷ pattern_of "session_closed" "Simulates session closed error" "Session closed unexpectedly"
    ∷ pattern_of "protocol_error" "Simulates CDP protocol error"
        "could not read protocol padding: EOF"
    ∷ pattern_of "frame_detached" "Simulates frame detached error" "frame was detached"
    ∷ pattern_of "page_closed" "Simulates page already closed error" "page has been closed"
    ∷ []

-- Inject, over the patterns of an injector.
unfoldable pub inject : List CrashPattern → String → Error
inject [] name = foreign ("unknown crash pattern: " ++ name)
inject (p ∷ ps) name =
    let rest = inject ps name in if p.name == name then foreign p.injected else rest
