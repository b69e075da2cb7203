-- ===== src/Errors/Connection.antt =====
-- session.go: IsConnectionError, the test for a lost connection by the error's text.
use browserpm.Common.{
  ℕ, Bool, true, false, ◌≡◌, ◌++◌, List, [], ◌∷◌, Option, none, some, arith, String, if◌then◌else◌,
}
use mathlib.Core.List.{append_assoc}
use browserpm.Common.Text.{codes, contains, contains-append}
use browserpm.Errors.{ErrorCode, Error, bpm_wrap, wrap_error, error_text, code_name}

abbrev pub connection_error_patterns : List String
connection_error_patterns =
    "target closed" ∷ "Target closed" ∷ "Session closed" ∷ "Connection closed"
    ∷ "Execution context was destroyed" ∷ "execution context was destroyed"
    ∷ "could not read protocol" ∷ "protocol padding" ∷ "frame was detached" ∷ "page has been closed"
    ∷ "websocket closed" ∷ "socket hang up" ∷ []

-- The loop over the patterns.
unfoldable pub contains_any : List ℕ → List String → Bool
contains_any s [] = false
contains_any s (p ∷ ps) =
    let rest = contains_any s ps in if contains s (codes p) then true else rest

unfoldable pub is_connection_error : Option Error → Bool
is_connection_error none = false
is_connection_error (some e) = contains_any (error_text e) connection_error_patterns

contains_any-append :
    (a s : List ℕ) (ps : List String) → contains_any s ps ≡ true → contains_any (a ++ s) ps ≡ true
unfolding contains_any
contains_any-append a s [] h = h
contains_any-append a s (p ∷ ps) h =
    ground (arith, contains_any-append a s ps, contains-append a s (codes p))

-- The text of a wrapped error ends with that of its cause.
error_text-wrap :
    (c : ErrorCode) (m : String) (e : Error)
    → (a : List ℕ) × (error_text (bpm_wrap c m e) ≡ a ++ error_text e)
unfolding error_text
error_text-wrap c m e = (
  codes "browserpm [" ++ (codes (code_name c) ++ (codes "]: " ++ (codes m ++ codes ": "))),
  simp append_assoc,
)

-- Wrapping keeps a lost connection recognisable, whatever the code and the message: a caller that
-- tests a wrapped error starts the same recovery.
pub is_connection_error-wrap :
    (c : ErrorCode) (m : String) (e : Error)
    → is_connection_error (some e) ≡ true
    → is_connection_error (some (wrap_error e c m)) ≡ true
unfolding is_connection_error
is_connection_error-wrap c m e h =
    let (a, eq) = error_text-wrap c m e in
    rw eq (contains_any-append a (error_text e) connection_error_patterns h)
