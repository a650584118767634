-- ===== src/Routing/LocalFanOut/Split.antt =====
-- splitSelectForLocalFanOut of select-local-fanout.ts: what the shards are sent and what is run on
-- their rows. The parser of SQL and its printer, of pgsql-ast-parser, are parameters.
pub mod Supported
pub mod Shardable
pub mod Accepted
pub mod Sent
use mtdd.Prelude.{
  Bool, true, false, not, ◌&&◌, ◌||◌, List, [], ◌∷◌, ◌++◌, Option, none, some, if◌then◌else◌,
}
use mtdd.Js.Text.{Text, codes, trim}
use mtdd.Js.Buffer.{JsError, error}
use mtdd.Js.Effect.{Result, ok, err}
use mtdd.Js.Fallible.{◌>>=◌}
use mtdd.Routing.LocalFanOut.{
  Exprs, nil, Orders, unordered, Limit, Select, Statement, select_stmt, with_stmt, other_stmt,
  sql_error, preview_sql, resolve_select_node, select_has_order_by, select_has_offset,
  get_primary_from_table,
}
use mtdd.Routing.LocalFanOut.Support.{
  Check, refused, assert_fan_out_aggregate_support, select_has_supported_aggregates,
  select_requires_fan_out_validation,
}
use mtdd.Routing.LocalFanOut.Columns.{build_row_level_columns}

-- The result with `needsLocalMerge`. `orderBy` is null where it is left out.
pub record LocalMerge : Type 0 where
  pub fan_out_text : Text
  pub full_text : Text
  pub temp_table_name : Text
  pub order_by : Orders
  pub limit : Option Limit
  pub has_aggregates : Bool

pub data Plan : Type 0 where
  direct : Plan
  local_merge : LocalMerge → Plan

-- stripGlobalSortFromSelect
abbrev pub strip_global_sort_from_select : Select → Select
strip_global_sort_from_select select = record select { order_by = unordered; limit = none }

abbrev pub apply_aggregate_fan_out_rewrite : Select → Select
apply_aggregate_fan_out_rewrite select = record select {
  columns = build_row_level_columns select;
  group_by = nil;
  having = none;
}

abbrev pub fan_out_select : Select → Select
fan_out_select select =
    if select_has_supported_aggregates select
    then strip_global_sort_from_select (apply_aggregate_fan_out_rewrite select)
    else strip_global_sort_from_select select

-- a change of the SELECT that resolveSelectNode finds
unfoldable pub change_select : (Select → Select) → Statement → Statement
change_select f (with_stmt rest statement) = with_stmt rest (change_select f statement)
change_select f (select_stmt select) = select_stmt (f select)
change_select f other_stmt = other_stmt

-- a SELECT of this table is split
abbrev pub split_table :
    (Statement → Text) → Text → Statement → Select → Option Text → Result JsError Plan
split_table to_sql text statement select none =
    err (refused (codes "local fan-out requires a single-table FROM clause (no joins)") text)
split_table to_sql text statement select (some name) =
    if select_has_offset select
    then err (
        refused
          (codes
            "OFFSET is not supported for local fan-out across shards (results are not reliable when aggregating)")
          text)
    else ok (
        local_merge (record {
          fan_out_text = to_sql (change_select fan_out_select statement);
          full_text = text;
          temp_table_name = name;
          order_by = select.order_by;
          limit = select.limit;
          has_aggregates = select_has_supported_aggregates select;
        }))

-- what follows the validation
abbrev pub split_checked : (Statement → Text) → Text → Statement → Select → Result JsError Plan
split_checked to_sql text statement select =
    if not (select_has_order_by select) && not (select_has_supported_aggregates select)
    then ok direct
    else split_table to_sql text statement select (get_primary_from_table select)

abbrev pub validated : Text → Select → Check
validated text select =
    if select_requires_fan_out_validation select
    then assert_fan_out_aggregate_support select text
    else ok tt

abbrev pub selected : Text → Option Select → Result JsError Select
selected text none = err (refused (codes "local fan-out requires a SELECT statement") text)
selected text (some select) = ok select

abbrev pub parsed : Text → Result JsError (List Statement) → Result JsError (Statement × Select)
parsed text (err e) =
    err (refused (codes "unable to parse SQL for local fan-out (" ++ (e.message ++ codes ")")) text)
parsed text (ok (statement ∷ [])) = do
  select ← selected text (resolve_select_node statement)
  ok (statement, select)
parsed text (ok _) =
    err (refused (codes "multi-statement SQL is not supported for local fan-out") text)

unfoldable pub parse_select_statement :
    (Text → Result JsError (List Statement)) → Text → Result JsError (Statement × Select)
unfolding resolve_select_node preview_sql
parse_select_statement parse text = parsed text (parse text)

abbrev pub is_blank : Text → Bool
is_blank text = elim (trim text) [ [] ↦ true | c ∷ rest ↦ false ]

unfoldable pub split_select_for_local_fan_out :
    (Text → Result JsError (List Statement)) → (Statement → Text) → Text → Result JsError Plan
unfolding trim parse_select_statement select_has_order_by select_has_supported_aggregates
    get_primary_from_table select_has_offset change_select build_row_level_columns
    select_requires_fan_out_validation assert_fan_out_aggregate_support preview_sql
split_select_for_local_fan_out parse to_sql text = if is_blank text then ok direct else do
  found ← parse_select_statement parse text
  checked ← validated text found.1
  split_checked to_sql text found.0 found.1
