-- ===== src/Rpgb/Examples.antt =====
-- The batch format at concrete inputs.
use mtdd.Prelude.{ℕ, zero, suc, ◌<◌, ◌≡◌, refl, List, [], ◌∷◌, arith, replicate}
use mtdd.Prelude.Int.{pos, ◌-ℤ◌}
use mtdd.Js.Text.{codes, text_eq, decimal}
use mtdd.Js.Buffer.{Bytes, error, read_i16_be, write_i32_be}
use mtdd.Js.Effect.{ok, err}
use mtdd.Rpgb.Value.{PgSchemaField, number, null, string}
use mtdd.Rpgb.Numeric.{decode_numeric_binary}
use mtdd.Rpgb.Numeric.Digits.{IsNumeric, SameBefore, decode_numeric_binary-fraction}
use mtdd.Rpgb.Cell.{Runtime, encode_pg_cell_bytes}
use mtdd.Rpgb.Batch.{Record, encode_raw_pg_batch, decode_raw_pg_batch}
use mtdd.Rpgb.Batch.Layout.{decode-encode_raw_pg_batch, recode_columns}

abbrev runtime : Runtime
runtime = record {
  iso_string = λ q r. [];
  float_text = λ b. [];
  date_text = λ q r. [];
  to_bigint = λ t. err (error []);
  out_of_range = error [];
  write_float4 = λ v. [];
  write_float8 = λ v. [];
  write_float_as_int = λ n v. err (error []);
}

abbrev id_field : PgSchemaField
id_field = record { name = codes "id"; oid = 23; format = 1 }

abbrev two_rows : List Record
two_rows = ((codes "id", number (pos 300)) ∷ []) ∷ ((codes "id", null) ∷ []) ∷ []

abbrev payload : Bytes
payload =
    0x52 ∷ 0x47 ∷ 0x50 ∷ 0x42 ∷ 1 ∷ 0 ∷ 0 ∷ 0 ∷ 2 ∷ 0 ∷ 0 ∷ 0 ∷ 1 ∷ 0 ∷ 0 ∷ 0 ∷ 0 ∷ 4 ∷ 0 ∷ 0 ∷ 0
    ∷ 0 ∷ 0 ∷ 1 ∷ 44 ∷ 1 ∷ []

decode-encode_raw_pg_batch_example :
    decode_raw_pg_batch (λ n. []) payload (id_field ∷ [])
    ≡ recode_columns runtime (id_field ∷ []) two_rows (replicate 2 [])
unfolding encode_raw_pg_batch encode_pg_cell_bytes text_eq write_i32_be
decode-encode_raw_pg_batch_example =
    decode-encode_raw_pg_batch runtime (λ n. []) (id_field ∷ []) two_rows payload refl (omega arith)
      (omega arith) (omega arith)

-- 1.5 and 1.0: one digit of base 10000 before the point, and one behind it
abbrev one_and_a_half : Bytes
one_and_a_half = 0 ∷ 2 ∷ 0 ∷ 0 ∷ 0 ∷ 0 ∷ 0 ∷ 1 ∷ 0 ∷ 1 ∷ 0x13 ∷ 0x88 ∷ []

abbrev one : Bytes
one = 0 ∷ 2 ∷ 0 ∷ 0 ∷ 0 ∷ 0 ∷ 0 ∷ 1 ∷ 0 ∷ 1 ∷ 0 ∷ 0 ∷ []

one_and_a_half-IsNumeric : IsNumeric one_and_a_half (pos 2) (pos 0) (pos 0) (pos 1)
unfolding read_i16_be
one_and_a_half-IsNumeric = record {
  long = refl;
  digits = refl;
  exponent = refl;
  sign_field = refl;
  scale = refl;
}

one-IsNumeric : IsNumeric one (pos 2) (pos 0) (pos 0) (pos 1)
unfolding read_i16_be
one-IsNumeric = record {
  long = refl;
  digits = refl;
  exponent = refl;
  sign_field = refl;
  scale = refl;
}

same_ones : (i : ℕ) → i < 2 → SameBefore (pos 0) one_and_a_half one i
unfolding read_i16_be ◌-ℤ◌
same_ones zero lt = record {
  digit = pos 1;
  digit' = pos 1;
  reads = refl;
  reads' = refl;
  same = λ e h. refl;
}
same_ones (suc zero) lt = record {
  digit = pos 5000;
  digit' = pos 0;
  reads = refl;
  reads' = refl;
  same = λ e h. cc;
}
same_ones (suc (suc i)) lt = absurd (omega arith)

decode_numeric_binary-fraction_example :
    decode_numeric_binary one_and_a_half ≡ decode_numeric_binary one
decode_numeric_binary-fraction_example =
    decode_numeric_binary-fraction one_and_a_half one (pos 2) (pos 0) (pos 0) (pos 1)
      one_and_a_half-IsNumeric one-IsNumeric same_ones

-- 1.5 is read as 0.1, and 12345 as 100002345.
one_half : decode_numeric_binary one_and_a_half ≡ ok (string (codes "0.1"))
unfolding decode_numeric_binary read_i16_be ◌-ℤ◌ decimal
one_half = refl

large :
    decode_numeric_binary (0 ∷ 2 ∷ 0 ∷ 1 ∷ 0 ∷ 0 ∷ 0 ∷ 0 ∷ 0 ∷ 1 ∷ 0x09 ∷ 0x29 ∷ [])
    ≡ ok (string (codes "100002345"))
unfolding decode_numeric_binary read_i16_be ◌-ℤ◌ decimal
large = refl
