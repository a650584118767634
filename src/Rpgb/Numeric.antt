-- ===== src/Rpgb/Numeric.antt =====
-- `decodeNumericBinary` of pg-binary-decode.ts.
pub mod Digits
use mtdd.Prelude.{
  ℕ, zero, suc, ◌+◌, ◌-◌, ◌*◌, Bool, false, ◌&&◌, not, [], ◌∷◌, ◌++◌, ltb, ◌==◌, if◌then◌else◌,
  length, take, drop,
}
use mtdd.Prelude.Int.{ℤ, pos, negsuc, ◌-ℤ◌, pos_part}
use mtdd.Js.Text.{Text, codes, text_eq}
use mtdd.Js.Buffer.{Bytes, JsError, error, read_i16_be, show_ℤ}
use mtdd.Js.Effect.{Result, ok, err}
use mtdd.Js.Fallible.{◌>>=◌}
use mtdd.Rpgb.Value.{Value, null, string}

abbrev pub zeros : ℕ → Text
zeros zero = []
zeros (suc n) = b'0' ∷ zeros n

-- `'0000'.repeat(n)`
abbrev pub groups_of_zeros : ℕ → Text
groups_of_zeros n = zeros (4 * n)

-- `padStart(n, '0')`
abbrev pub pad_start : ℕ → Text → Text
pad_start n s = zeros (n - length s) ++ s

-- one digit of base 10000 at its exponent; digits behind the point are skipped
unfoldable pub add_digit : Text → ℤ → ℤ → Text
add_digit coeff (negsuc e) digit = coeff
add_digit [] (pos e) digit = show_ℤ digit ++ groups_of_zeros e
add_digit (c ∷ coeff) (pos e) digit =
    (c ∷ coeff) ++ (pad_start 4 (show_ℤ digit) ++ groups_of_zeros (e - 1))

-- The loop over the digits: those left, the index of the first and the coefficient so far.
unfoldable pub digits_loop : ℕ → ℕ → Bytes → ℤ → Text → Result JsError Text
unfolding add_digit
digits_loop zero i buf weight coeff = ok coeff
digits_loop (suc left) i buf weight coeff =
    let rest = λ (next : Text). digits_loop left (suc i) buf weight next in
    read_i16_be buf (pos (8 + i * 2)) >>= λ digit. rest (add_digit coeff (weight -ℤ pos i) digit)

abbrev or_zero_text : Text → Text
or_zero_text [] = b'0' ∷ []
or_zero_text (c ∷ s) = c ∷ s

-- the decimal point `n + 1` digits from the end, behind zeros that make room for it
abbrev put_point : ℕ → Text → Text
put_point n s =
    let padded = pad_start (n + 2) s in
    take (length padded - suc n) padded ++ (b'.' ∷ drop (length padded - suc n) padded)

unfoldable pub scale_text : ℤ → Text → Text
scale_text (pos (suc n)) s = put_point n s
scale_text _ s = s

unfoldable pub sign_text : ℤ → Text → Text
unfolding text_eq
sign_text (pos n) s = if n == 0x4000 && not (text_eq s (b'0' ∷ [])) then b'-' ∷ s else s
sign_text (negsuc n) s = s

-- the test `sign === 0xc000`
abbrev is_nan : ℤ → Bool
is_nan (pos n) = n == 0xc000
is_nan (negsuc n) = false

unfoldable pub decode_numeric_binary : Bytes → Result JsError Value
unfolding digits_loop scale_text sign_text
decode_numeric_binary buf =
    if ltb (length buf) 8 then err (error (codes "numeric binary too short")) else do
      ndigits ← read_i16_be buf (pos 0)
      weight ← read_i16_be buf (pos 2)
      sign ← read_i16_be buf (pos 4)
      dscale ← read_i16_be buf (pos 6)
      if is_nan sign then ok null else do
        coeff ← digits_loop (pos_part ndigits) 0 buf weight []
        ok (string (sign_text sign (scale_text dscale (or_zero_text coeff))))
