-- ===== src/Rpgb/Cell.antt =====
-- `decodePgCell` and `encodePgCellBytes`: one cell of a result.
use mtdd.Prelude.{
  ℕ, zero, suc, ◌+◌, ◌-◌, ◌/◌, ◌%◌, ◌^◌, Bool, true, false, ◌&&◌, ◌||◌, not, [], ◌∷◌, ◌++◌, Option,
  none, some, ltb, ◌==◌, if◌then◌else◌, length, take, drop,
}
use mtdd.Prelude.Int.{ℤ, pos, negsuc, ◌+ℤ◌, ◌*ℤ◌}
use mtdd.Js.Text.{Text, codes}
use mtdd.Js.Buffer.{
  Bytes, JsError, read_i16_be, read_i32_be, read_i64_be, write_i16_be, write_i32_be, write_i64_be,
  show_ℤ,
}
use mtdd.Js.Utf8
use mtdd.Js.Effect.{Result, ok, err}
use mtdd.Js.Fallible.{◌>>=◌}
use mtdd.Rpgb.Value.{
  Value, null, boolean, number, bigint, string, buffer, float4, float8, date, PgSchemaField,
}
use mtdd.Rpgb.Oid
use mtdd.Rpgb.Numeric.{decode_numeric_binary}

-- `text === 't' || text === 'T' || text === '1'`
abbrev pub is_true_text : Text → Bool
is_true_text (c ∷ []) = c == b't' || c == b'T' || c == b'1'
is_true_text _ = false

abbrev hex_digit : ℕ → ℕ
hex_digit n = if ltb n 10 then b'0' + n else b'a' + (n - 10)

-- `bytes.toString('hex')`
unfoldable pub hex : Bytes → Text
hex [] = []
hex (b ∷ bs) = hex_digit (b / 16) ∷ hex_digit (b % 16) ∷ hex bs

unfoldable pub uuid_bytes_to_string : Bytes → Text
unfolding hex
uuid_bytes_to_string bytes =
    let h = hex bytes in
    take 8 h
    ++ (b'-' ∷ take 4 (drop 8 h)
        ++ (b'-' ∷ take 4 (drop 12 h) ++ (b'-' ∷ take 4 (drop 16 h) ++ (b'-' ∷ drop 20 h))))

unfoldable pub pg_date_to_js_date : ℤ → Value
pg_date_to_js_date days = date ((days +ℤ pos 10957) *ℤ pos 86400000) (pos 0)

abbrev negative : ℕ → ℤ
negative zero = pos 0
negative (suc n) = negsuc n

-- division and remainder of a `bigint`, which round towards zero
abbrev quotient : ℤ → ℕ → ℤ
quotient (pos n) d = pos (n / d)
quotient (negsuc n) d = negative (suc n / d)

abbrev remainder : ℤ → ℕ → ℤ
remainder (pos n) d = pos (n % d)
remainder (negsuc n) d = negative (suc n % d)

unfoldable pub pg_timestamp_to_js_date : ℤ → Value
pg_timestamp_to_js_date micros =
    let unix = micros +ℤ pos 946684800000000 in date (quotient unix 1000) (remainder unix 1000)

-- the first bytes of a buffer, or the error of a read
abbrev float_bytes : ℕ → (Bytes → Value) → Bytes → Result JsError Value
float_bytes n value bytes =
    if ltb (length bytes) n
    then err (record {
      name = codes "RangeError";
      message = codes "Attempt to access memory outside buffer bounds";
    })
    else ok (value (take n bytes))

-- `bytes.length > 0 && bytes[0] !== 0`
abbrev bool_of : Bytes → Bool
bool_of [] = false
bool_of (b ∷ bytes) = not (b == 0)

-- format 1
unfoldable pub decode_binary : ℕ → Bytes → Result JsError Value
unfolding pg_date_to_js_date pg_timestamp_to_js_date uuid_bytes_to_string
decode_binary oid bytes =
    if oid == Oid.bool
    then ok (boolean (bool_of bytes))
    else if oid == Oid.int2
    then (read_i16_be bytes (pos 0) >>= λ z. ok (number z))
    else if oid == Oid.int4
    then (read_i32_be bytes (pos 0) >>= λ z. ok (number z))
    else if oid == Oid.int8
    then (read_i64_be bytes >>= λ z. ok (string (show_ℤ z)))
    else if oid == Oid.float4
    then float_bytes 4 float4 bytes
    else if oid == Oid.float8
    then float_bytes 8 float8 bytes
    else if oid == Oid.bytea
    then ok (buffer bytes)
    else if oid == Oid.date
    then (read_i32_be bytes (pos 0) >>= λ z. ok (pg_date_to_js_date z))
    else if oid == Oid.timestamp || oid == Oid.timestamptz
    then (read_i64_be bytes >>= λ z. ok (pg_timestamp_to_js_date z))
    else if oid == Oid.uuid
    then ok (string (uuid_bytes_to_string bytes))
    else if oid == Oid.numeric
    then decode_numeric_binary bytes
    else ok (string (Utf8.decode bytes))

-- format 0
unfoldable pub decode_text : ℕ → Bytes → Value
decode_text oid bytes =
    if oid == Oid.bool
    then boolean (is_true_text (Utf8.decode bytes))
    else string (Utf8.decode bytes)

unfoldable pub decode_pg_cell : PgSchemaField → Option Bytes → Result JsError Value
unfolding decode_binary decode_text
decode_pg_cell field none = ok null
decode_pg_cell field (some bytes) =
    if field.format == 0 then ok (decode_text field.oid bytes) else decode_binary field.oid bytes

-- What the encoder takes from the runtime: the text of a date and of a float, `BigInt(text)`, and the
-- writers of floats.
pub record Runtime : Type 0 where
  pub iso_string : ℤ → ℤ → Text
  pub float_text : Bytes → Text
  pub date_text : ℤ → ℤ → Text
  pub to_bigint : Text → Result JsError ℤ
  -- the error of a write out of range
  pub out_of_range : JsError
  -- `writeFloatLE` and `writeDoubleLE` of a number
  pub write_float4 : Value → Bytes
  pub write_float8 : Value → Bytes
  -- the writer of an integer of that many bytes, given a float
  pub write_float_as_int : ℕ → Value → Result JsError Bytes

-- `String(value)`; a `Buffer` gives its UTF-8 text
abbrev text_of : Runtime → Value → Text
text_of p null = codes "null"
text_of p (boolean true) = codes "true"
text_of p (boolean false) = codes "false"
text_of p (number z) = show_ℤ z
text_of p (bigint z) = show_ℤ z
text_of p (string s) = s
text_of p (buffer b) = Utf8.decode b
text_of p (float4 b) = p.float_text b
text_of p (float8 b) = p.float_text b
text_of p (date q r) = p.date_text q r

abbrev pub fits : ℕ → ℤ → Bool
fits half (pos n) = ltb n half
fits half (negsuc n) = ltb n half

abbrev checked : Runtime → ℕ → ℤ → Bytes → Result JsError Bytes
checked p half z bytes = if fits half z then ok bytes else err p.out_of_range

abbrev bool_byte : Bool → Bytes
bool_byte true = 1 ∷ []
bool_byte false = 0 ∷ []

-- `value === 't' || value === 'T' || value === '1' || value === 1`
abbrev is_true_value : Value → Bool
is_true_value (string s) = is_true_text s
is_true_value (number (pos n)) = n == 1
is_true_value _ = false

-- `writeInt16BE`, `writeInt32BE` and `writeBigInt64BE`
abbrev write_int2 : Runtime → Value → Result JsError Bytes
write_int2 p (number z) = checked p (2 ^ 15) z (write_i16_be z)
write_int2 p v = p.write_float_as_int 2 v

abbrev write_int4 : Runtime → Value → Result JsError Bytes
write_int4 p (number z) = checked p (2 ^ 31) z (write_i32_be z)
write_int4 p v = p.write_float_as_int 4 v

abbrev write_int8 : Runtime → Value → Result JsError Bytes
write_int8 p (bigint z) = checked p (2 ^ 63) z (write_i64_be z)
write_int8 p v = p.to_bigint (text_of p v) >>= λ z. checked p (2 ^ 63) z (write_i64_be z)

-- `typeof value === 'number'`
abbrev is_number : Value → Bool
is_number (number z) = true
is_number (float4 b) = true
is_number (float8 b) = true
is_number _ = false

-- format 1, behind the tests for a buffer and a boolean
unfoldable pub encode_binary : Runtime → ℕ → Value → Result JsError Bytes
encode_binary p oid v =
    if oid == Oid.bool
    then ok (bool_byte (is_true_value v))
    else if oid == Oid.int2 && is_number v
    then write_int2 p v
    else if oid == Oid.int4 && is_number v
    then write_int4 p v
    else if oid == Oid.int8
    then write_int8 p v
    else if oid == Oid.float4 && is_number v
    then ok (p.write_float4 v)
    else if oid == Oid.float8 && is_number v
    then ok (p.write_float8 v)
    else ok (Utf8.encode (text_of p v))

abbrev letter_of : Bool → Bytes
letter_of true = b't' ∷ []
letter_of false = b'f' ∷ []

-- any other format
unfoldable pub encode_text : Runtime → ℕ → Value → Bytes
encode_text p oid (boolean b) = letter_of b
encode_text p oid (buffer b) = b
encode_text p oid (date q r) = Utf8.encode (p.iso_string q r)
encode_text p oid (string s) = if oid == Oid.bool then letter_of (is_true_text s) else Utf8.encode s
encode_text p oid v = Utf8.encode (text_of p v)

abbrev encode_formatted : Runtime → ℕ → Value → Result JsError Bytes
encode_formatted p oid (buffer b) = ok b
encode_formatted p oid (boolean b) = ok (bool_byte b)
encode_formatted p oid v = encode_binary p oid v

unfoldable pub encode_pg_cell_bytes : Runtime → PgSchemaField → Value → Result JsError Bytes
unfolding encode_binary encode_text
encode_pg_cell_bytes p field v =
    if field.format == 1 then encode_formatted p field.oid v else ok (encode_text p field.oid v)
