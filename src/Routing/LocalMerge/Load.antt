-- ===== src/Routing/LocalMerge/Load.antt =====
-- loadRowsIntoTempTable of postgres-select-merge.ts: a COPY, an INSERT from arrays, or INSERTs of up to
-- 500 rows, by the number of the rows.
use mtdd.Prelude.{ℕ, zero, suc, List, [], ◌∷◌, ◌++◌, map, leb, if◌then◌else◌, length, take, drop}
use mtdd.Js.Text.{Text, codes, decimal}
use mtdd.Js.Buffer.{JsError}
use mtdd.Js.Effect.{Result, Effect, pure, lift, ◌>>=◌, ◌>>◌}
use mtdd.Routing.LocalMerge.{
  Field, Value, Row, cell, quote_ident, pg_type_for_field, build_insert_placeholders,
  format_csv_cell, join,
}

-- A parameter of a query: a value, or the array of a column.
pub data Param : Type 0 where
  value : Value → Param
  array : List Value → Param

-- What is done with the client: it is taken from its pool and given back, a query with its
-- parameters, and a COPY with its payload.
pub data Call : Type 0 where
  connected released : Call
  queried : Text → List Param → Call
  copied : Text → Text → Call

-- The answer of PostgreSQL, of a type `R`, may depend on all that was done before, the last first.
abbrev pub Reply : Type 0 → Type 0
Reply R = List Call → Call → Result JsError R

abbrev pub Action : Type 0 → Type 0
Action A = Effect (List Call) JsError A

abbrev pub insert_batch_size : ℕ
insert_batch_size = 500

abbrev pub cells : List Field → Row → List Param
cells fields row = map (λ field. value (cell row field)) fields

-- the values of a batch, row by row
unfoldable pub batch_values : List Field → List Row → List Param
unfolding cell
batch_values fields [] = []
batch_values fields (row ∷ rows) = cells fields row ++ batch_values fields rows

abbrev column_list : List Field → Text
column_list fields = join (codes ", ") (map (λ f. quote_ident f.name) fields)

abbrev insert_into : Text → List Field → Text
insert_into table fields =
    codes "INSERT INTO " ++ (quote_ident table ++ (codes " (" ++ (column_list fields ++ codes ")")))

abbrev pub insert_batch : Text → List Field → List Row → Call
insert_batch table fields batch =
    queried
      (insert_into table fields
        ++ (codes " VALUES " ++ (build_insert_placeholders (length batch) (length fields) 1).0))
      (batch_values fields batch)

-- the batches, on fuel
unfoldable pub batches : ℕ → List Row → List (List Row)
batches zero rows = []
batches (suc fuel) [] = []
batches (suc fuel) (row ∷ rows) =
    take insert_batch_size (row ∷ rows) ∷ batches fuel (drop insert_batch_size (row ∷ rows))

unfoldable pub csv_line : List Field → Row → Text
unfolding join format_csv_cell cell
csv_line fields row = join (codes ",") (map (λ field. format_csv_cell (cell row field)) fields)

unfoldable pub build_csv_payload : List Row → List Field → Text
unfolding join csv_line
build_csv_payload rows fields = join (codes "\n") (map (csv_line fields) rows) ++ codes "\n"

unfoldable pub unnests : List Field → ℕ → List Text
unfolding pg_type_for_field decimal
unnests [] n = []
unnests (field ∷ fields) n =
    (codes "unnest($" ++ (decimal n ++ (codes "::" ++ (pg_type_for_field field ++ codes "[])"))))
    ∷ unnests fields (suc n)

abbrev pub insert_unnest : Text → List Field → List Row → Call
insert_unnest table fields rows =
    queried
      (insert_into table fields ++ (codes "\n     SELECT " ++ join (codes ", ") (unnests fields 1)))
      (map (λ field. array (map (λ row. cell row field) rows)) fields)

abbrev pub copy_rows : Text → List Field → List Row → Call
copy_rows table fields rows =
    copied
      (codes "COPY "
        ++ (quote_ident table
            ++ (codes " (" ++ (column_list fields ++ codes ") FROM STDIN WITH (FORMAT csv)"))))
      (build_csv_payload rows fields)

-- A threshold that is not whole counts as the next whole number.
pub record Thresholds : Type 0 where
  pub copy : Result JsError ℕ
  pub unnest : Result JsError ℕ
  pub index : Result JsError ℕ

module _ {R : Type 0} (reply : Reply R) where
  unfoldable pub send : Call → Action R
  send call log = (reply log call, call ∷ log)

  unfoldable pub send_batches : Text → List Field → List (List Row) → Action (Unit {0})
  unfolding ◌>>=◌ send batch_values build_insert_placeholders quote_ident join
  send_batches table fields [] = pure tt
  send_batches table fields (batch ∷ rest) =
      send (insert_batch table fields batch) >> send_batches table fields rest

  unfoldable pub insert_rows_batched : Text → List Field → List Row → Action (Unit {0})
  unfolding send_batches batches
  insert_rows_batched table fields rows = send_batches table fields (batches (length rows) rows)

  -- insertRowsViaUnnest and insertRowsViaCopy
  unfoldable pub insert_at_once :
      (Text → List Field → List Row → Call) → Text → List Field → List Row → Action (Unit {0})
  unfolding ◌>>=◌ send
  insert_at_once way table fields [] = pure tt
  insert_at_once way table fields (row ∷ rows) = send (way table fields (row ∷ rows)) >> pure tt

  unfoldable pub load_rows_into_temp_table : Thresholds → Text → List Field → List Row → Action Text
  unfolding ◌>>=◌ insert_rows_batched insert_at_once quote_ident join unnests build_csv_payload cell
  load_rows_into_temp_table thresholds table fields rows = do
    copy ← lift thresholds.copy
    unnest ← lift thresholds.unnest
    if leb copy (length rows)
        then insert_at_once copy_rows table fields rows >> pure (codes "copy")
        else if leb unnest (length rows)
        then insert_at_once insert_unnest table fields rows >> pure (codes "unnest")
        else insert_rows_batched table fields rows >> pure (codes "batch")
