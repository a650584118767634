-- ===== src/Routing/LocalMerge.antt =====
-- postgres-select-merge.ts: the rows of the shards are loaded into a temporary table of a local
-- PostgreSQL, on which the SELECT is run. Here: identifiers, types, cells and placeholders; Load has
-- the ways of loading, Run the transaction.
pub mod Load
pub mod Run
pub mod Quote
pub mod Csv
pub mod Batches
pub mod Committed
pub mod Transaction
mod Examples
use mtdd.Prelude.{
  ℕ, zero, suc, ◌+◌, Bool, true, false, ◌||◌, List, [], ◌∷◌, ◌++◌, Option, none, some, ◌==◌,
  if◌then◌else◌,
}
use mtdd.Js.Text.{Text, codes, text_eq, replace_char, decimal}
use mtdd.Js.Map.{get}
use mtdd.Routing.Merge.{QueryResult, or_else}

-- `none` is a `dataTypeID` that is missing.
pub record Field : Type 0 where
  pub name : Text
  pub data_type_id : Option ℕ

-- A cell of a row: a Date is its `toISOString()`, an object its `JSON.stringify`, and any other value
-- its `String(value)`.
pub data Value : Type 0 where
  undefined null : Value
  boolean : Bool → Value
  date object shown : Text → Value

-- a row has its own properties only
abbrev pub Row : Type 0
Row = List (Text × Value)

-- `row[name]`
abbrev pub or_undefined : Option Value → Value
or_undefined none = undefined
or_undefined (some value) = value

unfoldable pub cell : Row → Field → Value
unfolding get text_eq
cell row field = or_undefined (get text_eq field.name row)

unfoldable pub quote_ident : Text → Text
unfolding replace_char
quote_ident name = b'"' ∷ (replace_char b'"' (codes "\"\"") name ++ codes "\"")

abbrev same_oid : ℕ → ℕ → Bool
same_oid a b = a == b

abbrev oid_to_pg_type : List (ℕ × Text)
oid_to_pg_type =
    (16, codes "boolean")
    ∷ (17, codes "bytea")
    ∷ (20, codes "bigint")
    ∷ (21, codes "smallint")
    ∷ (23, codes "integer")
    ∷ (25, codes "text")
    ∷ (700, codes "real")
    ∷ (701, codes "double precision")
    ∷ (1042, codes "char")
    ∷ (1043, codes "varchar")
    ∷ (1082, codes "date")
    ∷ (1114, codes "timestamp")
    ∷ (1184, codes "timestamptz")
    ∷ (1700, codes "numeric")
    ∷ (2950, codes "uuid")
    ∷ (3802, codes "jsonb")
    ∷ []

unfoldable pub pg_type_for_field : Field → Text
unfolding get
pg_type_for_field field = elim field.data_type_id [
  | none ↦ codes "text"
  | some oid ↦ or_else (get same_oid oid oid_to_pg_type) (codes "text")
]

module _ {F R : Type 0} where
  unfoldable pub pick_fields_from_shard_results : List (QueryResult F R) → List F
  pick_fields_from_shard_results [] = []
  pick_fields_from_shard_results (r ∷ results) = elim (or_else r.fields []) [
    | [] ↦ pick_fields_from_shard_results results
    | f ∷ fields ↦ f ∷ fields
  ]

  unfoldable pub collect_merged_rows : List (QueryResult F R) → List R
  collect_merged_rows [] = []
  collect_merged_rows (r ∷ results) = or_else r.rows [] ++ collect_merged_rows results

-- `texts.join(separator)`
unfoldable pub join : Text → List Text → Text
join separator [] = []
join separator (t ∷ []) = t
join separator (t ∷ u ∷ texts) = t ++ (separator ++ join separator (u ∷ texts))

-- the placeholders of one row, and the number behind the last of them
unfoldable pub row_placeholders : ℕ → ℕ → List Text × ℕ
unfolding decimal
row_placeholders zero param = ([], param)
row_placeholders (suc columns) param =
    let rest = row_placeholders columns (suc param) in ((b'$' ∷ decimal param) ∷ rest.0, rest.1)

unfoldable pub placeholder_groups : ℕ → ℕ → ℕ → List Text × ℕ
unfolding row_placeholders join
placeholder_groups zero columns param = ([], param)
placeholder_groups (suc rows) columns param =
    let row = row_placeholders columns param in
    let rest = placeholder_groups rows columns row.1 in
    ((b'(' ∷ (join (codes ", ") row.0 ++ codes ")")) ∷ rest.0, rest.1)

-- `sqlGroups` and `nextParam`
unfoldable pub build_insert_placeholders : ℕ → ℕ → ℕ → Text × ℕ
unfolding placeholder_groups join
build_insert_placeholders rows columns start_param =
    let groups = placeholder_groups rows columns start_param in
    (join (codes ", ") groups.0, groups.1)

-- the characters that a cell is quoted for
abbrev pub is_special : ℕ → Bool
is_special c = c == b'"' || c == b',' || c == b'\n' || c == b'\r'

unfoldable pub has_special : Text → Bool
has_special [] = false
has_special (c ∷ text) = is_special c || has_special text

-- a cell in quotes
abbrev pub quoted : Text → Text
quoted text = b'"' ∷ (replace_char b'"' (codes "\"\"") text ++ codes "\"")

unfoldable pub format_csv_cell : Value → Text
unfolding has_special replace_char
format_csv_cell undefined = []
format_csv_cell null = []
format_csv_cell (boolean b) = if b then codes "t" else codes "f"
format_csv_cell (date iso) = iso
format_csv_cell (object json) = quoted json
format_csv_cell (shown text) = if has_special text then quoted text else text
