-- ===== src/Logger/Interface.antt =====
-- logger.go: the interface Logger, and its two implementations. A logger that does not change is given
-- back as it was; what an operation hands to the logging library is a list of entries.
use browserpm.Common.{Option, none, List, [], String}
use browserpm.Errors.{Error}
use browserpm.Logger.{
  Level, Field, Entry, ZapLibrary, ZapAdapter, debug, info, warn, error, with_fields, set_level,
  sync,
}

pub record Logger (L E : Type 0) : Type 0 where
  pub debug : String → List Field → L → List E
  pub info : String → List Field → L → List E
  pub warn : String → List Field → L → List E
  pub error : String → Option Error → List Field → L → List E
  pub with_fields : List Field → L → L
  pub set_level : Level → L → L
  pub sync : L → Option Error

abbrev pub zap_adapter : {Zap : Type 0} → ZapLibrary Zap → Logger (ZapAdapter Zap) (Entry Zap)
zap_adapter x = record {
  debug = debug;
  info = info;
  warn = warn;
  error = error;
  with_fields = with_fields x;
  set_level = set_level;
  sync = sync x;
}

pub data NopLogger : Type 0 where
  nop : NopLogger

abbrev pub new_nop_logger : NopLogger
new_nop_logger = nop

abbrev pub nop_logger : {E : Type 0} → Logger NopLogger E
nop_logger = record {
  debug = λ msg fields l. [];
  info = λ msg fields l. [];
  warn = λ msg fields l. [];
  error = λ msg e fields l. [];
  with_fields = λ fields l. l;
  set_level = λ level l. l;
  sync = λ l. none;
}
