-- ===== src/Proxy/Wire.antt =====
-- proxy/pg-wire.ts: the backend messages of the PostgreSQL protocol. A value of a row is the text
-- that `String(v)` gives, or `none` for `null` and `undefined`; a number of columns is below 2^15
-- and a message shorter than 2^31 bytes, beyond which Node's writers throw.
use mtdd.Prelude.{ℕ, ◌+◌, List, [], ◌∷◌, ◌++◌, map, Option, none, some, ◌==◌, if◌then◌else◌, length}
use mtdd.Prelude.Int.{ℤ, pos, negsuc}
use mtdd.Js.Effect.{Result, ok, err}
use mtdd.Js.Text.{Text, codes, text_eq, decimal}
use mtdd.Js.Buffer.{
  Bytes, JsError, error, write_i16_be, write_i32_be, index_of_nul, subarray_from, subarray,
}
use mtdd.Js.Utf8

abbrev pub ssl_request : ℤ
ssl_request = pos 80877103

abbrev pub protocol_3 : ℤ
protocol_3 = pos 196608

abbrev pub utf8 : Text → Bytes
utf8 = Utf8.encode

abbrev zero_byte : Bytes
zero_byte = 0 ∷ []

abbrev cstring_at : Bytes → ℕ → Option ℕ → Result JsError (Text × ℕ)
cstring_at buf offset none = err (error (codes "unterminated cstring"))
cstring_at buf offset (some i) =
    ok (Utf8.decode (subarray buf (pos offset) (pos (offset + i))), offset + i + 1)

-- The text up to the next zero byte, and the offset behind that.
unfoldable pub read_c_string : Bytes → ℕ → Result JsError (Text × ℕ)
read_c_string buf offset = cstring_at buf offset (index_of_nul (subarray_from buf (pos offset)))

unfoldable pub encode_message : ℕ → Bytes → Bytes
unfolding write_i32_be
encode_message type payload = type ∷ write_i32_be (pos (4 + length payload)) ++ payload

unfoldable pub ready_for_query : ℕ → Bytes
unfolding encode_message
ready_for_query status = encode_message b'Z' (status ∷ [])

unfoldable pub authentication_ok : Bytes
unfolding encode_message
authentication_ok = encode_message b'R' (write_i32_be (pos 0))

unfoldable pub authentication_cleartext : Bytes
unfolding encode_message
authentication_cleartext = encode_message b'R' (write_i32_be (pos 3))

unfoldable pub parameter_status : Text → Text → Bytes
unfolding encode_message
parameter_status name value = encode_message b'S' (utf8 (name ++ (0 ∷ value) ++ zero_byte))

unfoldable pub backend_key_data : ℤ → ℤ → Bytes
unfolding encode_message
backend_key_data pid secret = encode_message b'K' (write_i32_be pid ++ write_i32_be secret)

unfoldable pub command_complete : Text → Bytes
unfolding encode_message
command_complete tag = encode_message b'C' (utf8 (tag ++ zero_byte))

unfoldable pub parse_complete : Bytes
unfolding encode_message
parse_complete = encode_message b'1' []

unfoldable pub bind_complete : Bytes
unfolding encode_message
bind_complete = encode_message b'2' []

unfoldable pub no_data : Bytes
unfolding encode_message
no_data = encode_message b'n' []

unfoldable pub error_response : Text → Text → Bytes
unfolding encode_message
error_response message code = encode_message b'E' (
    utf8 (codes "SERROR" ++ zero_byte)
    ++ (utf8 (b'C' ∷ code ++ zero_byte) ++ (utf8 (b'M' ∷ message ++ zero_byte) ++ zero_byte)))

-- the code that `errorResponse` takes when none is given
abbrev pub default_code : Text
default_code = codes "P0001"

pub record Field : Type 0 where
  pub name : Text
  pub data_type_id : ℕ

pub data Row : Type 0 where
  array : List (Option Text) → Row
  object : List (Text × Option Text) → Row

-- A result of `pg`; `rowCount` may be null.
pub record PgResult : Type 0 where
  pub command : Option Text
  pub row_count : Option ℕ
  pub fields : List Field
  pub rows : List Row

-- `f.dataTypeID || 25`
abbrev or_text_oid : ℕ → ℕ
or_text_oid n = if n == 0 then 25 else n

unfoldable pub field_bytes : Field → Bytes
field_bytes f =
    utf8 (f.name ++ zero_byte)
    ++ (write_i32_be (pos 0)
        ++ (write_i16_be (pos 0)
            ++ (write_i32_be (pos (or_text_oid f.data_type_id))
                ++ (write_i16_be (negsuc 0) ++ (write_i32_be (negsuc 0) ++ write_i16_be (pos 0))))))

unfoldable pub fields_bytes : List Field → Bytes
unfolding field_bytes
fields_bytes [] = []
fields_bytes (f ∷ fs) = field_bytes f ++ fields_bytes fs

unfoldable pub row_description : List Field → Bytes
unfolding encode_message fields_bytes write_i16_be
row_description fields =
    encode_message b'T' (write_i16_be (pos (length fields)) ++ fields_bytes fields)

unfoldable pub value_bytes : Option Text → Bytes
unfolding write_i32_be
value_bytes none = write_i32_be (negsuc 0)
value_bytes (some v) = write_i32_be (pos (length (utf8 v))) ++ utf8 v

unfoldable pub values_bytes : List (Option Text) → Bytes
unfolding value_bytes
values_bytes [] = []
values_bytes (v ∷ vs) = value_bytes v ++ values_bytes vs

unfoldable pub data_row : List (Option Text) → Bytes
unfolding encode_message values_bytes write_i16_be
data_row values = encode_message b'D' (write_i16_be (pos (length values)) ++ values_bytes values)

-- `row[name]` of an object
unfoldable pub property : Text → List (Text × Option Text) → Option Text
unfolding text_eq
property name [] = none
property name ((k, v) ∷ row) = if text_eq k name then v else property name row

unfoldable pub row_values : List Field → Row → List (Option Text)
unfolding property
row_values fields (array vs) = vs
row_values fields (object row) = map (λ (f : Field). property f.name row) fields

unfoldable pub rows_bytes : List Field → List Row → Bytes
unfolding data_row row_values
rows_bytes fields [] = []
rows_bytes fields (row ∷ rows) = data_row (row_values fields row) ++ rows_bytes fields rows

-- `result.command || "SELECT"`
abbrev command_or_select : Option Text → Text
command_or_select (some (c ∷ s)) = c ∷ s
command_or_select _ = codes "SELECT"

abbrev or_zero : Option ℕ → ℕ
or_zero none = 0
or_zero (some n) = n

unfoldable pub result_tag : Text → ℕ → Text
unfolding text_eq
result_tag cmd n =
    if text_eq cmd (codes "INSERT")
    then codes "INSERT 0 " ++ decimal n
    else cmd ++ (b' ' ∷ decimal n)

abbrev encode_rows : Text → ℕ → List Field → List Row → Bytes
encode_rows cmd n [] rows =
    command_complete (if text_eq cmd (codes "SET") then codes "SET" else result_tag cmd n)
encode_rows cmd n (f ∷ fs) rows =
    row_description (f ∷ fs) ++ (rows_bytes (f ∷ fs) rows ++ command_complete (result_tag cmd n))

unfoldable pub encode_result : PgResult → Bytes
encode_result r = encode_rows (command_or_select r.command) (or_zero r.row_count) r.fields r.rows
