-- ===== src/Helpers/Bench.antt =====
-- The part of a testing.T that the helpers touch: whether the test has failed. Errorf marks it and goes on,
-- Fatalf marks it and ends the test's goroutine. What they print is left out.
use browserpm.Common.{Bool, true}

pub data Flow : Type 0 where
  goes_on : Bool → Flow
  exits : Flow

-- t.Errorf and t.Error, t.Fatalf and t.Fatal, and a helper that finds nothing wrong.
abbrev pub error_f : Bool → Flow
error_f failed = goes_on true

abbrev pub fatal_f : Bool → Flow
fatal_f failed = exits

abbrev pub pass : Bool → Flow
pass failed = goes_on failed

-- One helper after another.
abbrev pub and_then : Flow → (Bool → Flow) → Flow
and_then (goes_on failed) next = next failed
and_then exits next = exits
