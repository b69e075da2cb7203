-- ===== src/Logger.antt =====
-- logger.go: the adapter to the logging library zap, and the logger that does nothing. A zap.Logger is
-- of a type `Zap` that is a parameter; what an operation sends to it is the list of its calls.
pub mod Interface
pub mod Levels
use browserpm.Common.{Bool, Option, none, some, List, [], ◌∷◌, ◌++◌, String, if◌then◌else◌, ℕ, leb}
use browserpm.Common.Int.{ℤ}
use browserpm.Errors.{Error, Called, done, panics}

pub data Level : Type 0 where
  debug_level info_level error_level : Level

-- The constants of the iota block.
abbrev pub level_num : Level → ℕ
level_num debug_level = 0
level_num info_level = 1
level_num error_level = 2

-- A field's value: of the types that convertFields tells apart, nil, or of another type, known by a
-- number.
pub data FieldValue : Type 0 where
  text : String → FieldValue
  integer integer64 : ℤ → FieldValue
  fault : Error → FieldValue
  nil_value : FieldValue
  other : ℕ → FieldValue

pub record Field : Type 0 where
  pub key : String
  pub value : FieldValue

-- String, Int, Int64, Duration, Err and Any.
abbrev pub string_field : String → String → Field
string_field key value = record { key = key; value = text value }

abbrev pub int_field : String → ℤ → Field
int_field key value = record { key = key; value = integer value }

abbrev pub int64_field : String → ℤ → Field
int64_field key value = record { key = key; value = integer64 value }

abbrev pub duration_field : String → FieldValue → Field
duration_field key value = record { key = key; value = value }

abbrev pub err_field : Option Error → Field
err_field e = record { key = "error"; value = elim e [ some x ↦ fault x | none ↦ nil_value ] }

abbrev pub any_field : String → FieldValue → Field
any_field key value = record { key = key; value = value }

-- A zap.Field is the call of zap that makes it.
pub data ZapField : Type 0 where
  zap_string : String → String → ZapField
  zap_int zap_int64 : String → ℤ → ZapField
  zap_error : Error → ZapField
  zap_any : String → FieldValue → ZapField

abbrev pub convert_field : String → FieldValue → ZapField
convert_field key (text v) = zap_string key v
convert_field key (integer v) = zap_int key v
convert_field key (integer64 v) = zap_int64 key v
convert_field key (fault e) = zap_error e
convert_field key nil_value = zap_any key nil_value
convert_field key (other v) = zap_any key (other v)

-- convertFields.
unfoldable pub convert_fields : List Field → List ZapField
convert_fields [] = []
convert_fields (f ∷ fs) = convert_field f.key f.value ∷ convert_fields fs

pub data Severity : Type 0 where
  debug_severity info_severity warn_severity error_severity : Severity

-- A call of Debug, Info, Warn or Error of a zap.Logger.
pub record Entry (Zap : Type 0) : Type 0 where
  pub logger : Zap
  pub severity : Severity
  pub message : String
  pub fields : List ZapField

-- The library: NewProduction, the development configuration's Build, With and Sync.
pub record ZapLibrary (Zap : Type 0) : Type 0 where
  pub production : Zap × Option Error
  pub development : Zap × Option Error
  pub attach : List ZapField → Zap → Zap
  pub flush : Zap → Option Error

pub record ZapAdapter (Zap : Type 0) : Type 0 where
  pub logger : Zap
  pub level : Level

module _ {Zap : Type 0} where
  -- NewZapLoggerFromZap.
  abbrev pub new_zap_logger_from_zap : Zap → ZapAdapter Zap
  new_zap_logger_from_zap z = record { logger = z; level = info_level }

  -- NewZapLogger drops the error.
  abbrev pub new_zap_logger : ZapLibrary Zap → ZapAdapter Zap
  new_zap_logger x = record { logger = x.production.0; level = info_level }

  -- NewZapLoggerWithConfig.
  unfoldable pub new_zap_logger_with_config : ZapLibrary Zap → Bool → Called (ZapAdapter Zap)
  new_zap_logger_with_config x debug =
      let (z, e) = if debug then x.development else x.production in
      elim e [ some f ↦ panics | none ↦ done (record { logger = z; level = info_level }) ]

  -- Debug, Info, Warn and Error.
  unfoldable pub debug : String → List Field → ZapAdapter Zap → List (Entry Zap)
  debug msg fields l =
      if leb (level_num l.level) (level_num debug_level)
      then record {
        logger = l.logger;
        severity = debug_severity;
        message = msg;
        fields = convert_fields fields;
      }
        ∷ []
      else []

  unfoldable pub info : String → List Field → ZapAdapter Zap → List (Entry Zap)
  info msg fields l =
      if leb (level_num l.level) (level_num info_level)
      then record {
        logger = l.logger;
        severity = info_severity;
        message = msg;
        fields = convert_fields fields;
      }
        ∷ []
      else []

  unfoldable pub warn : String → List Field → ZapAdapter Zap → List (Entry Zap)
  warn msg fields l =
      record {
        logger = l.logger;
        severity = warn_severity;
        message = msg;
        fields = convert_fields fields;
      }
      ∷ []

  unfoldable pub error : String → Option Error → List Field → ZapAdapter Zap → List (Entry Zap)
  error msg e fields l =
      let all_fields : List ZapField = elim e [
        | some x ↦ convert_fields fields ++ (zap_error x ∷ [])
        | none ↦ convert_fields fields
      ] in
      record { logger = l.logger; severity = error_severity; message = msg; fields = all_fields }
      ∷ []

  -- With, SetLevel and Sync.
  unfoldable pub with_fields : ZapLibrary Zap → List Field → ZapAdapter Zap → ZapAdapter Zap
  with_fields x fields l = record {
    logger = x.attach (convert_fields fields) l.logger;
    level = l.level;
  }

  unfoldable pub set_level : Level → ZapAdapter Zap → ZapAdapter Zap
  set_level level l = record l { level = level }

  abbrev pub sync : ZapLibrary Zap → ZapAdapter Zap → Option Error
  sync x l = x.flush l.logger
