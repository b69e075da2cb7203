-- ===== src/Common/Text.antt =====
-- Text: the native String for whole texts, a list of code points where the program searches in it.
use Prim.Native.Char.{code}
use Prim.Native.String.{String}
use mathlib.Core.Path.{◌≡◌}
use mathlib.Core.Bool.{Bool, true, false}
use mathlib.Core.List.{List, [], ◌∷◌, ◌++◌}
use native.Mathlib.Omega.{arith}
use browserpm.Common.Tests.{◌==◌, if◌then◌else◌}
use Prim.Native.Nat.{ℕ}

-- The code points of a text. `String` has its own `[]` and `∷`.
abbrev pub codes : String → List ℕ
codes String.[] = []
codes (String.◌∷◌ c s) = code c ∷ codes s

-- Does the second text begin with the first?
unfoldable pub starts_with : List ℕ → List ℕ → Bool
starts_with [] s = true
starts_with (p ∷ ps) [] = false
starts_with (p ∷ ps) (c ∷ s) = let rest = starts_with ps s in if p == c then rest else false

-- strings.Contains(s, pattern).
unfoldable pub contains : List ℕ → List ℕ → Bool
unfolding starts_with
contains [] p = starts_with p []
contains (c ∷ s) p = let rest = contains s p in if starts_with p (c ∷ s) then true else rest

pub contains-append : (a s p : List ℕ) → contains s p ≡ true → contains (a ++ s) p ≡ true
unfolding contains
contains-append [] s p h = h
contains-append (c ∷ a) s p h = ground (arith, contains-append a s p h)
