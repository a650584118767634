-- ===== src/Rpgb/Batch/Layout.antt =====
-- The batch layout is read back: cells come out of a batch as they went in, column by column.
use mtdd.Prelude.{
  ℕ, suc, ◌/◌, ◌%◌, ◌^◌, ◌<◌, ◌≡◌, refl, sym, ◌∙◌, ap, subst, List, [], ◌∷◌, ◌++◌, Option, none,
  some, arith, length, replicate, length-append, length-replicate, append_assoc, take-append_length,
  drop-append_length,
}
use mtdd.Js.Text.{Text}
use mtdd.Js.Buffer.{Bytes, JsError, from_le32}
use mtdd.Js.Effect.{Result, ok, err}
use mtdd.Js.Fallible.{◌>>=◌, bind_returned}
use mtdd.Rpgb.Value.{Value, PgSchemaField}
use mtdd.Rpgb.Cell.{Runtime, decode_pg_cell}
use mtdd.Rpgb.Batch.{
  Record, put, property, cell_of, column_cells, batch_cells, cell_bytes, cells_bytes, header,
  encode_raw_pg_batch, read_cell, read_column, read_columns, decode_raw_pg_batch, take_value,
}

abbrev IsSmall : List (Option Bytes) → Type 0
IsSmall [] = Unit
IsSmall (none ∷ cells) = IsSmall cells
IsSmall (some b ∷ cells) = (length b < 2 ^ 32) × IsSmall cells

le32_round_trip :
    (n : ℕ)
    → n < 2 ^ 32
    → from_le32 (n % 256) (n / 256 % 256) (n / 2 ^ 16 % 256) (n / 2 ^ 24 % 256) ≡ n
le32_round_trip n h = omega arith

take_value_append : (b rest : Bytes) → take_value (length b) (b ++ rest) ≡ ok (some b, rest)
take_value_append b rest =
    rw (take-append_length b rest, drop-append_length b rest) (ground (arith, length-append b rest))

read_cell-cell_bytes :
    (c : Option Bytes) (rest : Bytes)
    → IsSmall (c ∷ [])
    → read_cell (cell_bytes c ++ rest) ≡ ok (c, rest)
unfolding read_cell cell_bytes
read_cell-cell_bytes none rest h = refl
read_cell-cell_bytes (some b) rest h =
    rw (le32_round_trip (length b) h.0) (take_value_append b rest)

-- What becomes of a value that is encoded and decoded.
abbrev pub recode : Runtime → PgSchemaField → Value → Result JsError Value
recode p field v = cell_of p field v >>= λ c. decode_pg_cell field c

-- A column of the rows that were encoded, put into the rows that are read.
abbrev pub recode_column :
    Runtime → PgSchemaField → List Record → List Record → Result JsError (List Record)
recode_column p field (row ∷ rows) (d ∷ ds) = do
  v ← recode p field (property field.name row)
  rest ← recode_column p field rows ds
  ok (put field.name v d ∷ rest)
recode_column p field _ _ = ok []

abbrev pub recode_columns :
    Runtime → List PgSchemaField → List Record → List Record → Result JsError (List Record)
recode_columns p [] rows ds = ok ds
recode_columns p (field ∷ fields) rows ds = do
  next ← recode_column p field rows ds
  recode_columns p fields rows next

abbrev with_rest : Bytes → List Record → Result JsError (List Record × Bytes)
with_rest rest rows = ok (rows, rest)

abbrev attach : Text → Value → Record → List Record × Bytes → Result JsError (List Record × Bytes)
attach name v d y = ok (put name v d ∷ y.0, y.1)

join :
    (name : Text) (d : Record) (rest : Bytes) (r : Result JsError Value)
    (col : Result JsError (List Record))
    → (r >>= λ v. (col >>= with_rest rest) >>= attach name v d)
      ≡ ((r >>= λ v. col >>= λ x. ok (put name v d ∷ x)) >>= with_rest rest)
join name d rest (err e) col = refl
join name d rest (ok v) (err e) = refl
join name d rest (ok v) (ok x) = refl

ok_injective : {A : Type 0} {a b : A} → ◌≡◌ {A = Result JsError A} (ok a) (ok b) → a ≡ b
ok_injective h = cc

IsSmall-head :
    (c : Option Bytes) (cs : List (Option Bytes)) → IsSmall (c ∷ cs) → IsSmall (c ∷ []) × IsSmall cs
IsSmall-head none cs h = (tt, h)
IsSmall-head (some b) cs h = ((h.0, tt), h.1)

module _ (p : Runtime) (field : PgSchemaField) where
  read_column-cells :
      (rows ds : List Record) (rest : Bytes) (cells : List (Option Bytes))
      → length ds ≡ length rows
      → column_cells p field rows ≡ ok cells
      → IsSmall cells
      → read_column field ds (cells_bytes cells ++ rest)
        ≡ (recode_column p field rows ds >>= with_rest rest)
  unfolding read_column column_cells cells_bytes
  read_column-cells [] [] rest cells e h small = rw (← ok_injective h) refl
  read_column-cells [] (d ∷ ds) rest cells e h small = absurd (omega arith)
  read_column-cells (row ∷ rows) [] rest cells e h small = absurd (omega arith)
  read_column-cells (row ∷ rows) (d ∷ ds) rest cells e h small =
      let (c, hc, h1) = bind_returned _ (cell_of p field (property field.name row)) h in
      let (cs, hcs, h2) = bind_returned _ (column_cells p field rows) h1 in
      let small' = subst IsSmall (sym (ok_injective h2)) small in
      let (sc, scs) = IsSmall-head c cs small' in
      rw (← ok_injective h2, hc)
        (rw
          (
            append_assoc (cell_bytes c) (cells_bytes cs) rest,
            read_cell-cell_bytes c (cells_bytes cs ++ rest) sc,
          )
          (rw (read_column-cells rows ds rest cs (omega arith) hcs scs)
            (join field.name d rest (decode_pg_cell field c) (recode_column p field rows ds))))

length-recode_column :
    (p : Runtime) (field : PgSchemaField) (rows ds out : List Record)
    → length ds ≡ length rows
    → recode_column p field rows ds ≡ ok out
    → length out ≡ length rows
length-recode_column p field [] ds out e h = rw (← ok_injective h) refl
length-recode_column p field (row ∷ rows) [] out e h = absurd (omega arith)
length-recode_column p field (row ∷ rows) (d ∷ ds) out e h =
    let (v, hv, h1) = bind_returned _ (recode p field (property field.name row)) h in
    let (rest, hr, h2) = bind_returned _ (recode_column p field rows ds) h1 in
    rw (← ok_injective h2) (ap suc (length-recode_column p field rows ds rest (omega arith) hr))

IsSmall-append : (xs ys : List (Option Bytes)) → IsSmall (xs ++ ys) → IsSmall xs × IsSmall ys
IsSmall-append [] ys h = (tt, h)
IsSmall-append (none ∷ xs) ys h = IsSmall-append xs ys h
IsSmall-append (some b ∷ xs) ys h = let (a, c) = IsSmall-append xs ys h.1 in ((h.0, a), c)

cells_bytes-append :
    (xs ys : List (Option Bytes)) → cells_bytes (xs ++ ys) ≡ cells_bytes xs ++ cells_bytes ys
unfolding cells_bytes
cells_bytes-append [] ys = refl
cells_bytes-append (x ∷ xs) ys = rw (cells_bytes-append xs ys, append_assoc)

next_columns :
    (f g : List Record → Result JsError (List Record)) (rest : Bytes)
    (read : List Record × Bytes → Result JsError (List Record)) (r : Result JsError (List Record))
    → ((out : List Record) → read (out, rest) ≡ f out)
    → ((out : List Record) → r ≡ ok out → f out ≡ g out)
    → ((r >>= with_rest rest) >>= read) ≡ (r >>= g)
next_columns f g rest read (ok out) h k = h out ∙ k out refl
next_columns f g rest read (err e) h k = refl

module _ (p : Runtime) where
  read_columns-cells :
      (fields : List PgSchemaField) (rows ds : List Record) (cells : List (Option Bytes))
      → length ds ≡ length rows
      → batch_cells p fields rows ≡ ok cells
      → IsSmall cells
      → read_columns fields ds (cells_bytes cells) ≡ recode_columns p fields rows ds
  unfolding read_columns batch_cells
  read_columns-cells [] rows ds cells e h small = refl
  read_columns-cells (field ∷ fields) rows ds cells e h small =
      let (cs, hcs, h1) = bind_returned _ (column_cells p field rows) h in
      let (more, hm, h2) = bind_returned _ (batch_cells p fields rows) h1 in
      let small' = subst IsSmall (sym (ok_injective h2)) small in
      let (scs, sm) = IsSmall-append cs more small' in
      rw
        (
          ← ok_injective h2,
          cells_bytes-append cs more,
          read_column-cells p field rows ds (cells_bytes more) cs e hcs scs,
        )
        (next_columns (λ out. read_columns fields out (cells_bytes more))
          (recode_columns p fields rows) (cells_bytes more) _ (recode_column p field rows ds)
          (λ out. refl)
          (λ out ho.
            read_columns-cells fields rows out more (length-recode_column p field rows ds out e ho)
              hm sm))

IsSmall-of_length :
    (cells : List (Option Bytes)) → length (cells_bytes cells) < 2 ^ 32 → IsSmall cells
unfolding cells_bytes cell_bytes
IsSmall-of_length [] h = tt
IsSmall-of_length (none ∷ cells) h = IsSmall-of_length cells (omega arith)
IsSmall-of_length (some b ∷ cells) h = (
  omega (arith, length-append b (cells_bytes cells)),
  IsSmall-of_length cells (omega (arith, length-append b (cells_bytes cells))),
)

read_header :
    (hex_text : ℕ → Text) (fields : List PgSchemaField) (rows : ℕ) (bytes : Bytes)
    → rows < 2 ^ 32
    → length fields < 2 ^ 32
    → decode_raw_pg_batch hex_text (header rows (length fields) ++ bytes) fields
      ≡ read_columns fields (replicate rows []) bytes
unfolding decode_raw_pg_batch
read_header hex_text fields rows bytes hr hf =
    rw (le32_round_trip rows hr, le32_round_trip (length fields) hf) (ground arith)

-- A batch that was encoded, of less than 2^32 bytes, rows and columns, is read back: the decoder
-- returns, or throws, what comes of encoding and decoding each value, put under its column's name
-- into as many rows.
pub decode-encode_raw_pg_batch :
    (p : Runtime) (hex_text : ℕ → Text) (fields : List PgSchemaField) (rows : List Record)
    (bytes : Bytes)
    → encode_raw_pg_batch p fields rows ≡ ok bytes
    → length bytes < 2 ^ 32
    → length rows < 2 ^ 32
    → length fields < 2 ^ 32
    → decode_raw_pg_batch hex_text bytes fields
      ≡ recode_columns p fields rows (replicate (length rows) [])
unfolding encode_raw_pg_batch
decode-encode_raw_pg_batch p hex_text fields rows bytes h hb hr hf =
    let (cells, hc, h1) = bind_returned _ (batch_cells p fields rows) h in
    rw (← ok_injective h1) (
      read_header hex_text fields (length rows) (cells_bytes cells) hr hf
      ∙ read_columns-cells p fields rows (replicate (length rows) []) cells
          (length-replicate (length rows) []) hc
          (IsSmall-of_length cells (omega (arith, ap length (ok_injective h1)))))
