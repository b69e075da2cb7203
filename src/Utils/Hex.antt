-- ===== src/Utils/Hex.antt =====
-- utils.go: random identifiers. The bytes that rand.Read gives are a parameter; encoding/hex is written
-- out.
use Prim.Native.Char.{Char, code, nul}
use browserpm.Common.{
  ℕ, zero, suc, ◌+◌, ◌*◌, ◌-◌, ◌/◌, ◌%◌, ◌<◌, ◌≡◌, refl, Bool, true, ◌&&◌, List, [], ◌∷◌, String,
  All, arith, ltb, ◌==◌, ==_iff, Bool-cases, ap, inl, inr, if◌then◌else◌,
}
use browserpm.Common.Text.{codes}

-- hextable of encoding/hex, and the character in a place.
abbrev char_at : String → ℕ → Char
char_at String.[] n = nul
char_at (String.◌∷◌ c s) zero = c
char_at (String.◌∷◌ c s) (suc n) = char_at s n

abbrev hex_digit : ℕ → Char
hex_digit n = char_at "0123456789abcdef" n

-- hex.EncodeToString.
unfoldable pub encode_to_string : List ℕ → String
encode_to_string [] = ""
encode_to_string (b ∷ bs) =
    String.◌∷◌ (hex_digit (b / 16)) (String.◌∷◌ (hex_digit (b % 16)) (encode_to_string bs))

-- generateID, from the sixteen bytes that rand.Read gives.
unfoldable pub generate_id : List ℕ → String
generate_id bytes = encode_to_string bytes

-- The value of a digit's code, and the bytes of a text of digits.
abbrev pub digit_value : ℕ → ℕ
digit_value c = if ltb c 58 then c - 48 else c - 87

abbrev pub decode : List ℕ → List ℕ
decode [] = []
decode (a ∷ []) = []
decode (a ∷ b ∷ cs) = (digit_value a * 16 + digit_value b) ∷ decode cs

-- Do all numbers below `k` pass the test?
abbrev all_below : ℕ → (ℕ → Bool) → Bool
all_below zero f = true
all_below (suc k) f = f k && all_below k f

all_below_lem : (k n : ℕ) (f : ℕ → Bool) → all_below k f ≡ true → n < k → f n ≡ true
all_below_lem zero n f e h = elim h [ ]
all_below_lem (suc k) n f e h = elim (Bool-cases (n == k)) [
  | inl q ↦ ground (arith, q, e, ap f ((==_iff n k).0 q))
  | inr q ↦ ground (arith, q, e, all_below_lem k n f)
]

digit_value-hex_digit : (n : ℕ) → n < 16 → digit_value (code (hex_digit n)) ≡ n
digit_value-hex_digit n h =
    (==_iff (digit_value (code (hex_digit n))) n).0
      (all_below_lem 16 n (λ m. digit_value (code (hex_digit m)) == m) refl h)

-- The bytes of an identifier can be read from it: different bytes give different identifiers.
pub decode-generate_id :
    (bytes : List ℕ) → All (λ b. b < 256) bytes → decode (codes (generate_id bytes)) ≡ bytes
unfolding generate_id encode_to_string
decode-generate_id [] a = refl
decode-generate_id (b ∷ bs) a = ground (
  arith,
  digit_value-hex_digit (b / 16) (omega (arith, a)),
  digit_value-hex_digit (b % 16) (omega arith),
  decode-generate_id bs a.1,
)
