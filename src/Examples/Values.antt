-- ===== src/Examples/Values.antt =====
-- Tests of errors.go, config.go and scheduler.go.
use browserpm.Common.{ℕ, ◌≡◌, refl, ◌↔◌, true, false, some, List, [], ◌∷◌, arith, map}
use browserpm.Common.Int.{pos, ◌<ℤ◌}
use browserpm.Common.Text.{contains}
use browserpm.Errors.{Error, error_text, foreign, ok, wrap_error, timeout, context_dead, is_error}
use browserpm.Errors.Chain.{HasCode, is_error_iff}
use browserpm.Errors.Connection.{is_connection_error, contains_any}
use browserpm.Config.{ConfigOption, default_config, apply_all, new_config}
use browserpm.Config.Options.{with_headless}
use browserpm.Config.Validity.{IsValidPool, new_config_iff}
use browserpm.Common.{none, ◌++◌, keep_if}
use browserpm.Logger.{
  info_level, error_level, Field, string_field, any_field, fault, ZapField, ZapLibrary,
  new_zap_logger,
}
use browserpm.Logger.Interface.{zap_adapter}
use browserpm.Logger.Levels.{
  LogCall, infos, warns, attaches, sets, log_all, messages, passes, said, headline,
  log_all-messages,
}
use browserpm.Scheduler.Fairness.{selects, selects_round}

abbrev pub lost : Error
lost = foreign "Target closed"

is_error_iff_example :
    (is_error (wrap_error (wrap_error lost timeout "t") context_dead "c") timeout ≡ true)
    ↔ HasCode timeout (wrap_error (wrap_error lost timeout "t") context_dead "c")
is_error_iff_example =
    is_error_iff (wrap_error (wrap_error lost timeout "t") context_dead "c") timeout

pub lost-found : is_connection_error (some lost) ≡ true
unfolding is_connection_error contains_any contains error_text
lost-found = refl

abbrev windowed : List ConfigOption
windowed = with_headless false ∷ []

new_config_iff_example : (new_config windowed ≡ ok (with_headless false default_config)) ↔ (
    (apply_all windowed default_config ≡ with_headless false default_config)
    × IsValidPool (with_headless false default_config).pool
    × (pos 0 <ℤ (with_headless false default_config).browser.timeout))
new_config_iff_example = new_config_iff windowed (with_headless false default_config)

abbrev three : List ℕ
three = 10 ∷ 20 ∷ 30 ∷ []

selects_round_example : selects 3 4 three ≡ map some (20 ∷ 30 ∷ 10 ∷ [])
selects_round_example = selects_round 4 three (omega arith) (omega arith)

-- A logger is the list of the fields that it adds.
abbrev list_library : ZapLibrary (List ZapField)
list_library = record {
  production = ([], none);
  development = ([], none);
  attach = λ fs l. l ++ fs;
  flush = λ l. none;
}

abbrev three_calls : List LogCall
three_calls =
    infos "start" []
    ∷ attaches (string_field "session" "shop" ∷ [])
    ∷ sets error_level
    ∷ warns "slow" []
    ∷ infos "end" []
    ∷ []

log_all-messages_example :
    map headline (log_all (zap_adapter list_library) three_calls (new_zap_logger list_library))
    ≡ map said (keep_if passes (messages info_level three_calls))
log_all-messages_example = log_all-messages list_library three_calls (new_zap_logger list_library)

abbrev two_fields : List Field
two_fields = string_field "page" "p" ∷ any_field "cause" (fault lost) ∷ []
