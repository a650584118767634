-- ===== src/Rpgb/Batch.antt =====
-- `encodeRawPgBatch` and `decodeRawPgBatch`: the column-major layout. The offset into the buffer is
-- kept as the bytes behind it. Counts and lengths are below 2^32, beyond which Node's writers throw.
pub mod Layout
use mtdd.Prelude.{
  ℕ, zero, suc, ◌+◌, ◌-◌, ◌*◌, ◌/◌, ◌%◌, ◌^◌, ◌<◌, ◌≡◌, refl, Bool, true, false, ◌&&◌, ◌||◌, not,
  List, [], ◌∷◌, ◌++◌, Option, none, some, arith, ltb, ◌==◌, if◌then◌else◌, length, take, drop, map,
  replicate,
}
use mtdd.Js.Text.{Text, codes, decimal, text_eq}
use mtdd.Js.Buffer.{Bytes, JsError, error, le32, from_le32}
use mtdd.Js.Effect.{Result, ok, err}
use mtdd.Js.Fallible.{◌>>=◌}
use mtdd.Rpgb.Value.{Value, null, PgSchemaField}
use mtdd.Rpgb.Cell.{Runtime, decode_pg_cell, encode_pg_cell_bytes}

abbrev pub magic : ℕ
magic = 0x42504752

abbrev pub version : ℕ
version = 1

-- An object of a row, by its properties.
abbrev pub Record : Type 0
Record = List (Text × Value)

-- `row[name] = value`
unfoldable pub put : Text → Value → Record → Record
put name v [] = (name, v) ∷ []
put name v ((k, w) ∷ row) = if text_eq k name then (k, v) ∷ row else (k, w) ∷ put name v row

-- `row[name]`; a missing property is `undefined`, which the encoder treats as `null`
unfoldable pub property : Text → Record → Value
property name [] = null
property name ((k, v) ∷ row) = if text_eq k name then v else property name row

-- a cell before it is laid out: null, or its bytes
unfoldable pub cell_of : Runtime → PgSchemaField → Value → Result JsError (Option Bytes)
cell_of p field null = ok none
cell_of p field v = encode_pg_cell_bytes p field v >>= λ bytes. ok (some bytes)

unfoldable pub column_cells :
    Runtime → PgSchemaField → List Record → Result JsError (List (Option Bytes))
unfolding cell_of property
column_cells p field [] = ok []
column_cells p field (row ∷ rows) = do
  cell ← cell_of p field (property field.name row)
  cells ← column_cells p field rows
  ok (cell ∷ cells)

unfoldable pub batch_cells :
    Runtime → List PgSchemaField → List Record → Result JsError (List (Option Bytes))
unfolding column_cells
batch_cells p [] rows = ok []
batch_cells p (field ∷ fields) rows = do
  cells ← column_cells p field rows
  more ← batch_cells p fields rows
  ok (cells ++ more)

unfoldable pub cell_bytes : Option Bytes → Bytes
cell_bytes none = 1 ∷ []
cell_bytes (some bytes) = 0 ∷ le32 (length bytes) ++ bytes

unfoldable pub cells_bytes : List (Option Bytes) → Bytes
unfolding cell_bytes
cells_bytes [] = []
cells_bytes (c ∷ cells) = cell_bytes c ++ cells_bytes cells

abbrev pub header : ℕ → ℕ → Bytes
header rows cols = le32 magic ++ (le32 version ++ (le32 rows ++ le32 cols))

unfoldable pub encode_raw_pg_batch :
    Runtime → List PgSchemaField → List Record → Result JsError Bytes
unfolding batch_cells cells_bytes
encode_raw_pg_batch p fields rows = do
  cells ← batch_cells p fields rows
  ok (header (length rows) (length fields) ++ cells_bytes cells)

-- the value behind its length
abbrev take_value : ℕ → Bytes → Result JsError (Option Bytes × Bytes)
take_value len bytes =
    if ltb (length bytes) len
    then err (error (codes "raw PG batch truncated at value"))
    else ok (some (take len bytes), drop len bytes)

abbrev read_sized : Bytes → Result JsError (Option Bytes × Bytes)
read_sized (a ∷ b ∷ c ∷ d ∷ bytes) = take_value (from_le32 a b c d) bytes
read_sized _ = err (error (codes "raw PG batch truncated at length"))

-- one cell, and the bytes behind it
unfoldable pub read_cell : Bytes → Result JsError (Option Bytes × Bytes)
read_cell [] = err (error (codes "raw PG batch truncated"))
read_cell (flag ∷ bytes) = if flag == 0 then read_sized bytes else ok (none, bytes)

-- the inner loop, over the rows
unfoldable pub read_column :
    PgSchemaField → List Record → Bytes → Result JsError (List Record × Bytes)
unfolding read_cell put
read_column field [] bytes = ok ([], bytes)
read_column field (row ∷ rows) bytes = do
  cell ← read_cell bytes
  v ← decode_pg_cell field cell.0
  rest ← read_column field rows cell.1
  ok (put field.name v row ∷ rest.0, rest.1)

-- the outer loop, over the columns; bytes behind the last cell are ignored
unfoldable pub read_columns :
    List PgSchemaField → List Record → Bytes → Result JsError (List Record)
unfolding read_column
read_columns [] rows bytes = ok rows
read_columns (field ∷ fields) rows bytes = do
  rest ← read_column field rows bytes
  read_columns fields rest.0 rest.1

abbrev count_message : ℕ → ℕ → Text
count_message batch schema =
    codes "column count mismatch: batch=" ++ (decimal batch ++ (codes " schema=" ++ decimal schema))

-- `hex_text` is `n.toString(16)`
abbrev read_body :
    (ℕ → Text) → List PgSchemaField → ℕ → ℕ → ℕ → ℕ → Bytes → Result JsError (List Record)
read_body hex_text fields m v rows cols bytes =
    if not (m == magic)
    then err (error (codes "invalid raw PG batch magic: " ++ hex_text m))
    else if not (v == version)
    then err (error (codes "unsupported raw PG batch version: " ++ decimal v))
    else if not (cols == length fields)
    then err (error (count_message cols (length fields)))
    else read_columns fields (replicate rows []) bytes

-- `decodeRawPgBatch`; a missing payload is an empty one
unfoldable pub decode_raw_pg_batch :
    (ℕ → Text) → Bytes → List PgSchemaField → Result JsError (List Record)
unfolding read_columns
decode_raw_pg_batch hex_text [] fields = ok []
decode_raw_pg_batch hex_text
      (m0 ∷ m1 ∷ m2 ∷ m3 ∷ v0 ∷ v1 ∷ v2 ∷ v3 ∷ r0 ∷ r1 ∷ r2 ∷ r3 ∷ c0 ∷ c1 ∷ c2 ∷ c3 ∷ bytes)
      fields =
    read_body hex_text fields (from_le32 m0 m1 m2 m3) (from_le32 v0 v1 v2 v3)
      (from_le32 r0 r1 r2 r3) (from_le32 c0 c1 c2 c3) bytes
decode_raw_pg_batch hex_text _ fields = err (error (codes "raw PG batch too short"))
