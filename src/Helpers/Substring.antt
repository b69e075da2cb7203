-- ===== src/Helpers/Substring.antt =====
-- assertions.go: contains and containsHelper, on texts as lists of bytes or of code points.
pub mod Search
use browserpm.Common.{
  ℕ, zero, suc, ◌-◌, Bool, true, false, ◌&&◌, ◌||◌, List, [], ◌∷◌, length, take, drop, ◌==◌, ltb,
  leb, if◌then◌else◌,
}

-- s == t.
unfoldable pub same : List ℕ → List ℕ → Bool
same [] [] = true
same [] (y ∷ ys) = false
same (x ∷ xs) [] = false
same (x ∷ xs) (y ∷ ys) = let rest = same xs ys in if x == y then rest else false

-- s[i:i+n].
abbrev pub slice : ℕ → ℕ → List ℕ → List ℕ
slice i n s = take n (drop i s)

-- The loop of containsHelper, from the index `i` on for so many rounds.
unfoldable pub helper_loop : ℕ → ℕ → List ℕ → List ℕ → Bool
helper_loop zero i s substr = false
helper_loop (suc rounds) i s substr =
    let rest = helper_loop rounds (suc i) s substr in
    if same (slice i (length substr) s) substr then true else rest

-- containsHelper. Its index goes up to len(s)-len(substr), and there is no round if this is negative.
abbrev pub contains_helper : List ℕ → List ℕ → Bool
contains_helper s substr = helper_loop (suc (length s) - length substr) 0 s substr

unfoldable pub contains : List ℕ → List ℕ → Bool
contains s substr =
    leb (length substr) (length s)
    && (same s substr || (ltb 0 (length s) && contains_helper s substr))
