-- ===== src/Rpgb/Value.antt =====
-- The values and the schema fields of pg-binary-decode.ts and pg-binary-encode.ts.
use mtdd.Prelude.{ℕ, Bool}
use mtdd.Prelude.Int.{ℤ}
use mtdd.Js.Text.{Text}
use mtdd.Js.Buffer.{Bytes}

-- A JavaScript value of a cell. A float is kept as the four or eight bytes of its IEEE encoding,
-- little-endian. A date is `new Date(q + r / 1000)` for two integers.
pub data Value : Type 0 where
  null : Value
  boolean : Bool → Value
  number : ℤ → Value
  bigint : ℤ → Value
  string : Text → Value
  buffer : Bytes → Value
  float4 : Bytes → Value
  float8 : Bytes → Value
  date : ℤ → ℤ → Value

-- `data_type_oid ?? dataTypeID ?? 0` and `format ?? 0`
pub record PgSchemaField : Type 0 where
  pub name : Text
  pub oid : ℕ
  pub format : ℕ
