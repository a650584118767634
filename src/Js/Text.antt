-- ===== src/Js/Text.antt =====
-- JavaScript strings as lists of UTF-16 code units, with the methods that the source calls:
-- `trim`, `startsWith`, `slice`, `replace` with a global literal pattern, `===`, and the decimal
-- printing of a number.
pub mod Laws
use Prim.Native.Char.{code}
use mtdd.Prelude.{
  ℕ, zero, suc, ◌+◌, ◌/◌, ◌%◌, String, Bool, true, false, ◌&&◌, ◌||◌, List, [], ◌∷◌, ◌++◌, leb,
  ◌==◌, if◌then◌else◌,
}

abbrev pub Text : Type 0
Text = List ℕ

-- A literal of the source, as code units (the literals are ASCII).
abbrev pub codes : String → Text
codes String.[] = []
codes (String.◌∷◌ c s) = code c ∷ codes s

-- White space and line terminators of ECMAScript, which both `trim` and `\s` use.
abbrev pub is_space : ℕ → Bool
is_space c =
    (leb 9 c && leb c 13)
    || c == 32
    || c == 0xa0
    || c == 0x1680
    || (leb 0x2000 c && leb c 0x200a)
    || c == 0x2028
    || c == 0x2029
    || c == 0x202f
    || c == 0x205f
    || c == 0x3000
    || c == 0xfeff

-- `===` on strings
unfoldable pub text_eq : Text → Text → Bool
text_eq [] [] = true
text_eq [] (_ ∷ _) = false
text_eq (_ ∷ _) [] = false
text_eq (a ∷ s) (b ∷ t) = a == b && text_eq s t

unfoldable pub trim_start : Text → Text
trim_start [] = []
trim_start (c ∷ s) = let rest = trim_start s in if is_space c then rest else c ∷ s

-- A character is kept if anything that is kept follows it.
unfoldable pub trim_end : Text → Text
trim_end [] = []
trim_end (c ∷ s) = elim (trim_end s) [ [] ↦ if is_space c then [] else c ∷ [] | d ∷ r ↦ c ∷ d ∷ r ]

unfoldable pub trim : Text → Text
unfolding trim_start trim_end
trim s = trim_end (trim_start s)

unfoldable pub starts_with : Text → Text → Bool
starts_with s [] = true
starts_with [] (_ ∷ _) = false
starts_with (a ∷ s) (b ∷ p) = a == b && starts_with s p

-- `s.replace(/ab/g, "c")` for a pattern of two characters and a replacement of one.
unfoldable pub replace_pair : ℕ → ℕ → ℕ → Text → Text
replace_pair a b c [] = []
replace_pair a b c (x ∷ []) = x ∷ []
replace_pair a b c (x ∷ y ∷ s) = elim (x == a && y == b) [
  | true ↦ c ∷ replace_pair a b c s
  | false ↦ x ∷ replace_pair a b c (y ∷ s)
]

-- `s.replace(/a/g, t)` for a pattern of one character.
unfoldable pub replace_char : ℕ → Text → Text → Text
replace_char a t [] = []
replace_char a t (x ∷ s) = (if x == a then t else x ∷ []) ++ replace_char a t s

-- `s.replace(/\0+$/, "")`
unfoldable pub strip_nuls : Text → Text
strip_nuls [] = []
strip_nuls (c ∷ s) = elim (strip_nuls s) [ [] ↦ if c == 0 then [] else c ∷ [] | d ∷ r ↦ c ∷ d ∷ r ]

-- `String(n)` for a natural number: its decimal digits, the last one first produced.
unfoldable pub decimal_digits : ℕ → ℕ → Text → Text
decimal_digits zero n out = out
decimal_digits (suc fuel) n out =
    let more = decimal_digits fuel (n / 10) ((b'0' + n % 10) ∷ out) in if n == 0 then out else more

unfoldable pub decimal : ℕ → Text
unfolding decimal_digits
decimal n = if n == 0 then b'0' ∷ [] else decimal_digits n n []

-- `s.toLowerCase()`, for the letters that have a lower case in ASCII: of the others only the Kelvin
-- sign has one.
unfoldable pub to_lower_case : Text → Text
to_lower_case [] = []
to_lower_case (c ∷ s) =
    (if leb b'A' c && leb c b'Z' then c + 32 else if c == 0x212a then b'k' else c) ∷ to_lower_case s

-- `s.replace(/\s+/g, " ")`, behind a white space or not
unfoldable pub squeeze : Bool → Text → Text
squeeze behind [] = []
squeeze behind (c ∷ s) =
    let rest = squeeze (is_space c) s in
    if is_space c then (if behind then rest else b' ' ∷ rest) else c ∷ rest
