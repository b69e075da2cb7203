-- ===== src/Logger/Levels.antt =====
-- logger.go: which messages reach the logging library, and with which fields.
use browserpm.Common.{
  ◌≡◌, refl, Bool, true, false, Option, List, [], ◌∷◌, ◌++◌, String, map, arith, if◌then◌else◌, leb,
  ◌≤◌, keep_if,
}
use browserpm.Errors.{Error}
use mathlib.Core.Path.{ap₂}
use browserpm.Logger.Interface.{Logger, zap_adapter, nop_logger, nop}
use browserpm.Logger.{
  convert_field, Level, debug_level, info_level, error_level, level_num, Field, FieldValue, fault,
  text, integer, integer64, nil_value, other, ZapField, zap_string, zap_int, zap_int64, zap_error,
  zap_any, convert_fields, Severity, debug_severity, info_severity, warn_severity, error_severity,
  Entry, ZapLibrary, ZapAdapter, debug, info, warn, error, with_fields, set_level,
}

-- A call of a logger; one that makes a new logger goes on with that one.
pub data LogCall : Type 0 where
  debugs infos warns : String → List Field → LogCall
  errors : String → Option Error → List Field → LogCall
  attaches : List Field → LogCall
  sets : Level → LogCall

module _ {L E : Type 0} (i : Logger L E) where
  -- What a sequence of calls hands to the library.
  unfoldable pub log_all : List LogCall → L → List E
  log_all [] l = []
  log_all (debugs m fs ∷ cs) l = i.debug m fs l ++ log_all cs l
  log_all (infos m fs ∷ cs) l = i.info m fs l ++ log_all cs l
  log_all (warns m fs ∷ cs) l = i.warn m fs l ++ log_all cs l
  log_all (errors m e fs ∷ cs) l = i.error m e fs l ++ log_all cs l
  log_all (attaches fs ∷ cs) l = log_all cs (i.with_fields fs l)
  log_all (sets n ∷ cs) l = log_all cs (i.set_level n l)

-- A message with the level in force when it is logged, for the messages of a sequence in order.
abbrev pub messages : Level → List LogCall → List (Level × Severity × String)
messages n [] = []
messages n (debugs m fs ∷ cs) = (n, debug_severity, m) ∷ messages n cs
messages n (infos m fs ∷ cs) = (n, info_severity, m) ∷ messages n cs
messages n (warns m fs ∷ cs) = (n, warn_severity, m) ∷ messages n cs
messages n (errors m e fs ∷ cs) = (n, error_severity, m) ∷ messages n cs
messages n (attaches fs ∷ cs) = messages n cs
messages n (sets n' ∷ cs) = messages n' cs

-- The highest level at which messages of a severity are still logged: warnings and errors always are.
abbrev pub highest : Severity → Level
highest debug_severity = debug_level
highest info_severity = info_level
highest warn_severity = error_level
highest error_severity = error_level

abbrev pub passes : Level × Severity × String → Bool
passes (n, s, m) = leb (level_num n) (level_num (highest s))

abbrev pub said : Level × Severity × String → Severity × String
said (n, s, m) = (s, m)

abbrev pub headline : {Zap : Type 0} → Entry Zap → Severity × String
headline e = (e.severity, e.message)

level_num-le : (n : Level) → level_num n ≤ 2
level_num-le debug_level = omega arith
level_num-le info_level = omega arith
level_num-le error_level = omega arith

module _ {Zap : Type 0} (x : ZapLibrary Zap) where
  -- A sequence of calls of a logger, With and SetLevel among them, sends to the library exactly those of its
  -- messages, in order, that the level in force lets pass: debug messages at DebugLevel only, information
  -- at DebugLevel and InfoLevel, warnings and errors at every level.
  pub log_all-messages :
      (cs : List LogCall) (l : ZapAdapter Zap)
      → map headline (log_all (zap_adapter x) cs l)
        ≡ map said (keep_if passes (messages l.level cs))
  unfolding log_all debug info warn error with_fields set_level
  log_all-messages [] l = refl
  log_all-messages (debugs m fs ∷ cs) l = ground (arith, log_all-messages cs l)
  log_all-messages (infos m fs ∷ cs) l = ground (arith, log_all-messages cs l)
  log_all-messages (warns m fs ∷ cs) l = ground (arith, log_all-messages cs l, level_num-le l.level)
  log_all-messages (errors m e fs ∷ cs) l =
      ground (arith, log_all-messages cs l, level_num-le l.level)
  log_all-messages (attaches fs ∷ cs) l = log_all-messages cs (with_fields x fs l)
  log_all-messages (sets n ∷ cs) l = log_all-messages cs (set_level n l)

-- A NopLogger hands on nothing, whatever is called.
pub log_all-nop : {E : Type 0} (cs : List LogCall) → log_all {E = E} nop_logger cs nop ≡ []
unfolding log_all
log_all-nop [] = refl
log_all-nop (debugs m fs ∷ cs) = log_all-nop cs
log_all-nop (infos m fs ∷ cs) = log_all-nop cs
log_all-nop (warns m fs ∷ cs) = log_all-nop cs
log_all-nop (errors m e fs ∷ cs) = log_all-nop cs
log_all-nop (attaches fs ∷ cs) = log_all-nop cs
log_all-nop (sets n ∷ cs) = log_all-nop cs

-- The key of a field, and the key under which the library is told to log it.
abbrev pub zap_key : ZapField → String
zap_key (zap_string key v) = key
zap_key (zap_int key v) = key
zap_key (zap_int64 key v) = key
zap_key (zap_error e) = "error"
zap_key (zap_any key v) = key

abbrev pub is_fault : FieldValue → Bool
is_fault (fault e) = true
is_fault _ = false

abbrev pub logged_key : Field → String
logged_key f = if is_fault f.value then "error" else f.key

convert_field-key :
    (key : String) (v : FieldValue)
    → zap_key (convert_field key v) ≡ logged_key (record { key = key; value = v })
convert_field-key key (text v) = refl
convert_field-key key (integer v) = refl
convert_field-key key (integer64 v) = refl
convert_field-key key (fault e) = refl
convert_field-key key nil_value = refl
convert_field-key key (other n) = refl

-- The fields of a message are logged in order, each under its key, but every error under the key "error".
pub convert_fields-keys : (fs : List Field) → map zap_key (convert_fields fs) ≡ map logged_key fs
unfolding convert_fields
convert_fields-keys [] = refl
convert_fields-keys (f ∷ fs) = ap₂ ◌∷◌ (convert_field-key f.key f.value) (convert_fields-keys fs)
