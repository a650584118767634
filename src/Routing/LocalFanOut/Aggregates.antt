-- ===== src/Routing/LocalFanOut/Aggregates.antt =====
-- postgres-aggregate-functions.ts: the aggregates of PostgreSQL and the forms of them that a fan-out
-- supports.
use mtdd.Prelude.{
  Bool, true, false, not, ◌&&◌, ◌||◌, List, [], ◌∷◌, ◌++◌, Option, none, some, if◌then◌else◌, map,
}
use mtdd.Js.Text.{Text, codes, text_eq, to_lower_case}
use mtdd.Js.Map.{has}
use mtdd.Js.Buffer.{JsError, error}
use mtdd.Js.Effect.{Result, ok, err}
use mtdd.Routing.LocalFanOut.{Expr, call, order, within}

abbrev pub rejected_fanout_aggregates : List Text
rejected_fanout_aggregates =
    map codes ("any_value" ∷ "rank" ∷ "dense_rank" ∷ "percent_rank" ∷ "cume_dist" ∷ [])

abbrev pub order_sensitive_aggregates : List Text
order_sensitive_aggregates = map codes (
    "array_agg" ∷ "string_agg" ∷ "xmlagg" ∷ "json_agg" ∷ "jsonb_agg" ∷ "json_agg_strict"
    ∷ "jsonb_agg_strict" ∷ "json_arrayagg" ∷ "json_object_agg" ∷ "jsonb_object_agg"
    ∷ "json_object_agg_strict" ∷ "jsonb_object_agg_strict" ∷ "json_object_agg_unique"
    ∷ "jsonb_object_agg_unique" ∷ "json_object_agg_unique_strict" ∷ "jsonb_object_agg_unique_strict"
    ∷ [])

abbrev pub ordered_set_aggregates : List Text
ordered_set_aggregates = map codes ("mode" ∷ "percentile_cont" ∷ "percentile_disc" ∷ [])

abbrev pub associative_aggregates : List Text
associative_aggregates = map codes (
    "sum" ∷ "min" ∷ "max" ∷ "count" ∷ "avg" ∷ "stddev" ∷ "stddev_pop" ∷ "stddev_samp" ∷ "var"
    ∷ "var_pop" ∷ "var_samp" ∷ "variance" ∷ "bool_and" ∷ "bool_or" ∷ "every" ∷ "bit_and" ∷ "bit_or"
    ∷ "bit_xor" ∷ "corr" ∷ "covar_pop" ∷ "covar_samp" ∷ "regr_avgx" ∷ "regr_avgy" ∷ "regr_count"
    ∷ "regr_intercept" ∷ "regr_r2" ∷ "regr_slope" ∷ "regr_sxx" ∷ "regr_sxy" ∷ "regr_syy"
    ∷ "range_agg" ∷ "range_intersect_agg" ∷ "grouping" ∷ [])

abbrev pub postgres_scatter_gather_aggregates : List Text
postgres_scatter_gather_aggregates =
    associative_aggregates ++ (order_sensitive_aggregates ++ ordered_set_aggregates)

-- `set.has(name)` on one of the sets above
abbrev pub has_name : Text → List Text → Bool
has_name name names = has text_eq name names

abbrev pub lowered : Text → Option Text
lowered [] = none
lowered (c ∷ name) = some (to_lower_case (c ∷ name))

unfoldable pub aggregate_function_name : Expr → Option Text
unfolding to_lower_case
aggregate_function_name (call callee args filter orders group) = lowered callee.function
aggregate_function_name _ = none

abbrev pub is_there : Option Text → Bool
is_there none = false
is_there (some text) = true

unfoldable pub is_window_call : Expr → Bool
is_window_call (call callee args filter orders group) = is_there callee.over
is_window_call _ = false

abbrev rejected_name : Option Text → Bool
rejected_name none = false
rejected_name (some name) = has_name name rejected_fanout_aggregates

unfoldable pub is_rejected_fan_out_aggregate : Expr → Bool
unfolding aggregate_function_name has
is_rejected_fan_out_aggregate e = rejected_name (aggregate_function_name e)

-- `callNode.withinGroup != null`
abbrev pub is_grouped : Expr → Bool
is_grouped (call callee args filter orders (within by rest)) = true
is_grouped _ = false

abbrev is_ordered : Expr → Bool
is_ordered (call callee args filter (order by rest orders) group) = true
is_ordered _ = false

unfoldable pub has_aggregate_order_specification : Expr → Bool
has_aggregate_order_specification e = is_grouped e || is_ordered e

abbrev scatter_gather_name : Bool → Option Text → Bool
scatter_gather_name grouped none = false
scatter_gather_name grouped (some name) =
    if has_name name rejected_fanout_aggregates
    then false
    else if has_name name postgres_scatter_gather_aggregates
    then true
    else grouped

unfoldable pub is_scatter_gather_aggregate : Expr → Bool
unfolding is_window_call aggregate_function_name has
is_scatter_gather_aggregate e =
    if is_window_call e
    then false
    else scatter_gather_name (is_grouped e) (aggregate_function_name e)

abbrev pub unsupported : Text → Text
unsupported name =
    codes "aggregate function \"" ++ (name ++ codes "\" is not supported for fan-out across shards")

abbrev validate_name : Expr → Option Text → Result JsError (Unit {0})
validate_name e none = ok tt
validate_name e (some name) =
    if has_name name rejected_fanout_aggregates
    then err (error (unsupported name))
    else if has_name name order_sensitive_aggregates && not (has_aggregate_order_specification e)
    then err (
        error (
          codes "aggregate function \""
          ++ (name ++ codes "\" requires ORDER BY within the aggregate for fan-out across shards")))
    else if has_name name ordered_set_aggregates && not (is_grouped e)
    then err (
        error (
          codes "aggregate function \""
          ++ (name ++ codes "\" requires WITHIN GROUP (ORDER BY ...) for fan-out across shards")))
    else if is_grouped e
        && (not (has_name name ordered_set_aggregates)
            && not (has_name name postgres_scatter_gather_aggregates))
    then err (
        error (
          codes "aggregate function \""
          ++ (name ++ codes "\" with WITHIN GROUP is not supported for fan-out across shards")))
    else ok tt

unfoldable pub validate_scatter_gather_aggregate_call : Expr → Result JsError (Unit {0})
unfolding aggregate_function_name has has_aggregate_order_specification
validate_scatter_gather_aggregate_call e = validate_name e (aggregate_function_name e)
