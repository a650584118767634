-- ===== src/Routing/LocalFanOut/Support.antt =====
-- assertFanOutAggregateSupport and selectRequiresFanOutValidation of select-local-fanout.ts: the
-- SELECTs that a fan-out refuses.
use mtdd.Prelude.{
  Bool, true, false, not, ◌&&◌, ◌||◌, List, [], ◌∷◌, ◌++◌, Option, none, some, if◌then◌else◌,
}
use mtdd.Js.Text.{Text, codes}
use mtdd.Js.Buffer.{JsError}
use mtdd.Js.Effect.{Result, ok, err}
use mtdd.Routing.LocalFanOut.{
  Expr, ref, call, binary, unary, subquery, integer, other, Exprs, nil, cons, Part, absent, present,
  Orders, unordered, order, Group, ungrouped, within, Callee, Column, Select, same_expr, sql_error,
  preview_sql, select_has_order_by,
}
use mtdd.Routing.LocalFanOut.Aggregates.{
  aggregate_function_name, is_window_call, is_rejected_fan_out_aggregate,
  is_scatter_gather_aggregate, is_grouped, has_name, postgres_scatter_gather_aggregates,
  validate_scatter_gather_aggregate_call, unsupported,
}
use mtdd.Routing.LocalFanOut.Walk.{
  expr_contains_subquery, collect_all_calls_from_select, select_aggregates, is_empty,
}

abbrev pub Check : Type 0
Check = Result JsError (Unit {0})

abbrev pub both : Check → Check → Check
both (err e) second = err e
both (ok u) second = second

-- an error that names the SQL
abbrev pub refused : Text → Text → JsError
refused reason text =
    sql_error (codes "@advcomm/mtdd: " ++ (reason ++ (codes ". SQL: " ++ preview_sql text)))

abbrev pub or_null : Option Text → Text
or_null none = codes "null"
or_null (some name) = name

-- the first loop over the calls
unfoldable pub refuse_calls : Text → List Expr → Check
unfolding is_window_call is_rejected_fan_out_aggregate preview_sql aggregate_function_name
refuse_calls text [] = ok tt
refuse_calls text (e ∷ calls) =
    let rest = refuse_calls text calls in
    if is_window_call e
    then err (refused (codes "window functions are not supported for fan-out across shards") text)
    else if is_rejected_fan_out_aggregate e
    then err (refused (unsupported (or_null (aggregate_function_name e))) text)
    else rest

abbrev pub relabelled : Text → Check → Check
relabelled text (ok u) = ok u
relabelled text (err e) = err (refused e.message text)

abbrev pub check_call : Text → Expr → Check
check_call text e =
    if is_scatter_gather_aggregate e
    then both (relabelled text (validate_scatter_gather_aggregate_call e)) (
        if expr_contains_subquery e
        then err (
            refused
              (codes
                "aggregate expressions with subqueries are not supported for fan-out across shards")
              text)
        else ok tt)
    else ok tt

-- the second loop over the calls
unfoldable pub check_calls : Text → List Expr → Check
unfolding is_scatter_gather_aggregate validate_scatter_gather_aggregate_call expr_contains_subquery
    preview_sql
check_calls text [] = ok tt
check_calls text (e ∷ calls) = both (check_call text e) (check_calls text calls)

abbrev unknown_name : Text → Bool → Option Text → Check
unknown_name text grouped none = ok tt
unknown_name text grouped (some name) =
    if not (has_name name postgres_scatter_gather_aggregates) && not grouped
    then err (refused (unsupported name) text)
    else ok tt

abbrev pub unknown_call : Text → Bool → Expr → Check
unknown_call text inside e =
    if inside then ok tt else unknown_name text (is_grouped e) (aggregate_function_name e)

unfoldable mutual
  unfolding aggregate_function_name mtdd.Js.Map.has is_scatter_gather_aggregate preview_sql

  pub walk_unknown_aggregate_calls : Text → Expr → Bool → Check
  walk_unknown_aggregate_calls text (call callee args filter orders group) inside =
      let nested = inside || is_scatter_gather_aggregate (call callee args filter orders group) in
      both (unknown_call text inside (call callee args filter orders group)) (
        both (walk_unknown_exprs text args nested) (
          both (walk_unknown_part text filter nested)
            (both (walk_unknown_orders text orders nested) (walk_unknown_group text group nested))))
  walk_unknown_aggregate_calls text (binary op left right) inside =
      both (walk_unknown_aggregate_calls text left inside)
        (walk_unknown_aggregate_calls text right inside)
  walk_unknown_aggregate_calls text (unary op argument) inside =
      walk_unknown_part text argument inside
  walk_unknown_aggregate_calls text _ inside = ok tt

  pub walk_unknown_exprs : Text → Exprs → Bool → Check
  walk_unknown_exprs text nil inside = ok tt
  walk_unknown_exprs text (cons e es) inside =
      both (walk_unknown_aggregate_calls text e inside) (walk_unknown_exprs text es inside)

  pub walk_unknown_part : Text → Part → Bool → Check
  walk_unknown_part text absent inside = ok tt
  walk_unknown_part text (present e) inside = walk_unknown_aggregate_calls text e inside

  pub walk_unknown_orders : Text → Orders → Bool → Check
  walk_unknown_orders text unordered inside = ok tt
  walk_unknown_orders text (order by rest orders) inside =
      both (walk_unknown_aggregate_calls text by inside) (walk_unknown_orders text orders inside)

  pub walk_unknown_group : Text → Group → Bool → Check
  walk_unknown_group text ungrouped inside = ok tt
  walk_unknown_group text (within by rest) inside = walk_unknown_aggregate_calls text by inside

unfoldable pub group_by_contains_expr : Exprs → Expr → Bool
unfolding same_expr
group_by_contains_expr nil e = false
group_by_contains_expr (cons g group_by) e = same_expr g e || group_by_contains_expr group_by e

unfoldable pub walk_unknown_columns : Text → Exprs → List Column → Check
unfolding group_by_contains_expr walk_unknown_aggregate_calls
walk_unknown_columns text group_by [] = ok tt
walk_unknown_columns text group_by (c ∷ columns) =
    both
      (if group_by_contains_expr group_by c.expr
        then ok tt
        else walk_unknown_aggregate_calls text c.expr false)
      (walk_unknown_columns text group_by columns)

abbrev walk_unknown_having : Text → Option Expr → Check
walk_unknown_having text none = ok tt
walk_unknown_having text (some e) = walk_unknown_aggregate_calls text e false

-- With GROUP BY, a call that is not grouped by must be a known aggregate or stand in one.
abbrev pub check_grouped : Text → Select → Exprs → Check
check_grouped text select nil = ok tt
check_grouped text select (cons g group_by) =
    both (walk_unknown_columns text (cons g group_by) select.columns)
      (walk_unknown_having text select.having)

unfoldable pub assert_fan_out_aggregate_support : Select → Text → Check
unfolding refuse_calls check_calls collect_all_calls_from_select walk_unknown_columns
    walk_unknown_aggregate_calls
assert_fan_out_aggregate_support select text =
    both (refuse_calls text (collect_all_calls_from_select select)) (
      both (check_calls text (collect_all_calls_from_select select))
        (check_grouped text select select.group_by))

unfoldable pub select_has_supported_aggregates : Select → Bool
unfolding mtdd.Routing.LocalFanOut.Walk.walk_expr_for_aggregates
select_has_supported_aggregates select = not (is_empty (select_aggregates select))

abbrev is_call : Expr → Bool
is_call (call callee args filter orders group) = true
is_call _ = false

abbrev some_call : List Column → Bool
some_call [] = false
some_call (c ∷ columns) = is_call c.expr || some_call columns

unfoldable pub select_has_group_by_with_column_calls : Select → Bool
select_has_group_by_with_column_calls select = elim select.group_by [
  | nil ↦ false
  | cons g group_by ↦ some_call select.columns
]

abbrev pub some_aggregate : List Expr → Bool
some_aggregate [] = false
some_aggregate (e ∷ calls) =
    (is_window_call e || is_rejected_fan_out_aggregate e || is_scatter_gather_aggregate e)
    || some_aggregate calls

unfoldable pub select_requires_fan_out_validation : Select → Bool
unfolding select_has_order_by select_has_supported_aggregates select_has_group_by_with_column_calls
    collect_all_calls_from_select is_window_call is_rejected_fan_out_aggregate
    is_scatter_gather_aggregate
select_requires_fan_out_validation select =
    (select_has_order_by select || select_has_supported_aggregates select)
    || (select_has_group_by_with_column_calls select
        || some_aggregate (collect_all_calls_from_select select))
