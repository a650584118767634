-- ===== src/Rpgb/Numeric/Digits.antt =====
-- What `decodeNumericBinary` of pg-binary-decode.ts keeps of the digits of a number.
use mtdd.Prelude.{ℕ, zero, suc, ◌+◌, ◌*◌, ◌<◌, ◌≡◌, refl, ap, ltb, false, [], ◌∷◌, length, arith}
use mtdd.Prelude.Int.{ℤ, pos, negsuc, ◌-ℤ◌, pos_part}
use mtdd.Js.Text.{Text}
use mtdd.Js.Buffer.{Bytes, read_i16_be}
use mtdd.Js.Effect.{ok}
use mtdd.Rpgb.Numeric.{decode_numeric_binary, digits_loop, add_digit}

-- The header of a binary numeric: the number of the digits, the exponent of the first, the sign and
-- the scale.
pub record IsNumeric (buf : Bytes) (ndigits weight sign dscale : ℤ) : Type 0 where
  pub long : ltb (length buf) 8 ≡ false
  pub digits : read_i16_be buf (pos 0) ≡ ok ndigits
  pub exponent : read_i16_be buf (pos 2) ≡ ok weight
  pub sign_field : read_i16_be buf (pos 4) ≡ ok sign
  pub scale : read_i16_be buf (pos 6) ≡ ok dscale

-- Both buffers have a digit of the index `i`, and the same one unless it stands behind the point.
pub record SameBefore (weight : ℤ) (buf buf' : Bytes) (i : ℕ) : Type 0 where
  pub digit : ℤ
  pub digit' : ℤ
  pub reads : read_i16_be buf (pos (8 + i * 2)) ≡ ok digit
  pub reads' : read_i16_be buf' (pos (8 + i * 2)) ≡ ok digit'
  pub same : (e : ℕ) → weight -ℤ pos i ≡ pos e → digit ≡ digit'

added_lem :
    (coeff : Text) (exponent digit digit' : ℤ)
    → ((e : ℕ) → exponent ≡ pos e → digit ≡ digit')
    → add_digit coeff exponent digit ≡ add_digit coeff exponent digit'
unfolding add_digit
added_lem coeff (pos e) digit digit' h = ap (add_digit coeff (pos e)) (h e refl)
added_lem [] (negsuc e) digit digit' h = refl
added_lem (c ∷ coeff) (negsuc e) digit digit' h = refl

module _ (weight : ℤ) (buf buf' : Bytes) where
  loop_lem :
      (left i : ℕ) (coeff : Text)
      → ((j : ℕ) → j < left + i → SameBefore weight buf buf' j)
      → digits_loop left i buf weight coeff ≡ digits_loop left i buf' weight coeff
  unfolding digits_loop
  loop_lem zero i coeff h = refl
  loop_lem (suc left) i coeff h =
      let here = h i (omega arith) in
      rw
        (
          here.reads,
          here.reads',
          added_lem coeff (weight -ℤ pos i) here.digit here.digit' here.same,
        )
        (loop_lem left (suc i) (add_digit coeff (weight -ℤ pos i) here.digit')
          (λ j lt. h j (omega arith)))

-- Binary numerics with the same header, whose digits before the point are the same, decode to the
-- same text, whatever their digits behind the point are: no digit behind the point counts.
pub decode_numeric_binary-fraction :
    (buf buf' : Bytes) (ndigits weight sign dscale : ℤ)
    → IsNumeric buf ndigits weight sign dscale
    → IsNumeric buf' ndigits weight sign dscale
    → ((i : ℕ) → i < pos_part ndigits → SameBefore weight buf buf' i)
    → decode_numeric_binary buf ≡ decode_numeric_binary buf'
unfolding decode_numeric_binary
decode_numeric_binary-fraction buf buf' ndigits weight sign dscale h h' same =
    let digits = loop_lem weight buf buf' (pos_part ndigits) 0 [] (λ j lt. same j (omega arith)) in
    rw (
      h.long, h'.long, h.digits, h'.digits, h.exponent, h'.exponent, h.sign_field, h'.sign_field,
      h.scale, h'.scale, digits,
    )
