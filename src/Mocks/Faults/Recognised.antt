-- ===== src/Mocks/Faults/Recognised.antt =====
-- browser.go and page.go of test_scenarios/mock: which injected errors the library takes for a lost connection.
use browserpm.Common.{
  ℕ, zero, suc, ◌<◌, ◌≡◌, refl, Bool, true, false, some, List, [], ◌∷◌, String, length, get_elem?,
  arith, All,
}
use browserpm.Common.Text.{contains, starts_with}
use browserpm.Errors.{Error, foreign, done, error_text}
use browserpm.Errors.Connection.{is_connection_error, contains_any}
use browserpm.Mocks.Faults.{
  crash_patterns, inject, connection_errors, generate_connection_error, generate_timeout_error,
  network_errors, generate_network_error,
}

abbrev IsTaken : Bool → List String → Type 0
IsTaken b errs = All (λ text. is_connection_error (some (foreign text)) ≡ b) errs

connection_errors-IsTaken : IsTaken true connection_errors
unfolding is_connection_error contains_any error_text contains starts_with
connection_errors-IsTaken =
    (refl, (refl, (refl, (refl, (refl, (refl, (refl, (refl, (refl, tt)))))))))

network_errors-IsTaken : IsTaken false network_errors
unfolding is_connection_error contains_any error_text contains starts_with
network_errors-IsTaken = (refl, (refl, (refl, (refl, (refl, tt)))))

-- So does it take each crash pattern that an injector finds by its name.
pub inject-taken :
    All (λ p. is_connection_error (some (inject crash_patterns p.name)) ≡ true) crash_patterns
unfolding is_connection_error contains_any error_text contains starts_with inject
inject-taken = (refl, (refl, (refl, (refl, (refl, (refl, (refl, (refl, tt))))))))

All-get_elem? :
    (b : Bool) (errs : List String) (i : ℕ)
    → i < length errs
    → IsTaken b errs
    → (text : String) × (get_elem? errs i ≡ some text)
      × (is_connection_error (some (foreign text)) ≡ b)
All-get_elem? b [] i l h = elim l [ ]
All-get_elem? b (x ∷ errs) zero l h = (x, refl, h.0)
All-get_elem? b (x ∷ errs) (suc i) l h = All-get_elem? b errs i (omega (arith, l)) h.1

-- Whatever the random choice, the library takes each of the connection errors that the mocks generate for a
-- lost connection, and none of their network errors, nor their timeout.
pub generated_lem :
    (i j : ℕ)
    → i < length connection_errors
    → j < length network_errors
    → ((e : Error) × (generate_connection_error i ≡ done e) × (is_connection_error (some e) ≡ true))
      × ((e : Error) × (generate_network_error j ≡ done e) × (is_connection_error (some e) ≡ false))
      × (is_connection_error (some generate_timeout_error) ≡ false)
unfolding generate_connection_error generate_network_error generate_timeout_error
    is_connection_error contains_any error_text contains starts_with
generated_lem i j l m =
    let (a, ea, ta) = All-get_elem? true connection_errors i l connection_errors-IsTaken in
    let (b, eb, tb) = All-get_elem? false network_errors j m network_errors-IsTaken in
    (
      (foreign a, rw (generate_connection_error, ea) refl, ta),
      (foreign b, rw (generate_network_error, eb) refl, tb),
      refl,
    )
