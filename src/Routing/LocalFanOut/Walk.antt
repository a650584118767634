-- ===== src/Routing/LocalFanOut/Walk.antt =====
-- The walks of select-local-fanout.ts over an expression: which nodes they descend into, and in
-- what order they note what they find.
pub mod Occurs
use mtdd.Prelude.{Bool, true, false, ◌||◌, List, [], ◌∷◌, ◌++◌, Option, none, some, if◌then◌else◌}
use mtdd.Js.Text.{Text, codes, text_eq}
use mtdd.Js.Map.{add}
use mtdd.Routing.LocalFanOut.{
  Expr, ref, call, binary, unary, subquery, Exprs, nil, cons, Part, absent, present, Orders,
  unordered, order, Group, ungrouped, within, Column, Select,
}
use mtdd.Routing.LocalFanOut.Aggregates.{is_scatter_gather_aggregate}

unfoldable mutual
  pub expr_contains_subquery : Expr → Bool
  expr_contains_subquery (subquery rest) = true
  expr_contains_subquery (call callee args filter orders group) =
      part_contains_subquery filter
      || group_contains_subquery group
      || orders_contain_subquery orders
      || any_contains_subquery args
  expr_contains_subquery (binary op left right) =
      expr_contains_subquery left || expr_contains_subquery right
  expr_contains_subquery (unary op argument) = part_contains_subquery argument
  expr_contains_subquery _ = false

  pub any_contains_subquery : Exprs → Bool
  any_contains_subquery nil = false
  any_contains_subquery (cons e es) = expr_contains_subquery e || any_contains_subquery es

  pub part_contains_subquery : Part → Bool
  part_contains_subquery absent = false
  part_contains_subquery (present e) = expr_contains_subquery e

  pub orders_contain_subquery : Orders → Bool
  orders_contain_subquery unordered = false
  orders_contain_subquery (order by rest orders) =
      expr_contains_subquery by || orders_contain_subquery orders

  pub group_contains_subquery : Group → Bool
  group_contains_subquery ungrouped = false
  group_contains_subquery (within by rest) = expr_contains_subquery by

-- a reference to a column is noted, `*` is not
abbrev pub note_ref : Text → List Text → List Text
note_ref name refs = if text_eq name (codes "*") then refs else add text_eq name refs

unfoldable mutual
  unfolding add

  pub collect_refs_from_expr : Expr → List Text → List Text
  collect_refs_from_expr (ref table name) refs = note_ref name refs
  collect_refs_from_expr (call callee args filter orders group) refs =
      collect_refs_from_group group (
        collect_refs_from_orders orders
          (collect_refs_from_part filter (collect_refs_from_exprs args refs)))
  collect_refs_from_expr (binary op left right) refs =
      collect_refs_from_expr right (collect_refs_from_expr left refs)
  collect_refs_from_expr (unary op argument) refs = collect_refs_from_part argument refs
  collect_refs_from_expr _ refs = refs

  pub collect_refs_from_exprs : Exprs → List Text → List Text
  collect_refs_from_exprs nil refs = refs
  collect_refs_from_exprs (cons e es) refs =
      collect_refs_from_exprs es (collect_refs_from_expr e refs)

  pub collect_refs_from_part : Part → List Text → List Text
  collect_refs_from_part absent refs = refs
  collect_refs_from_part (present e) refs = collect_refs_from_expr e refs

  pub collect_refs_from_orders : Orders → List Text → List Text
  collect_refs_from_orders unordered refs = refs
  collect_refs_from_orders (order by rest orders) refs =
      collect_refs_from_orders orders (collect_refs_from_expr by refs)

  pub collect_refs_from_group : Group → List Text → List Text
  collect_refs_from_group ungrouped refs = refs
  collect_refs_from_group (within by rest) refs = collect_refs_from_expr by refs

unfoldable mutual
  pub walk_all_calls : Expr → List Expr
  walk_all_calls (call callee args filter orders group) =
      call callee args filter orders group ∷ walk_all_exprs args
      ++ (walk_all_part filter ++ (walk_all_orders orders ++ walk_all_group group))
  walk_all_calls (binary op left right) = walk_all_calls left ++ walk_all_calls right
  walk_all_calls (unary op argument) = walk_all_part argument
  walk_all_calls _ = []

  pub walk_all_exprs : Exprs → List Expr
  walk_all_exprs nil = []
  walk_all_exprs (cons e es) = walk_all_calls e ++ walk_all_exprs es

  pub walk_all_part : Part → List Expr
  walk_all_part absent = []
  walk_all_part (present e) = walk_all_calls e

  pub walk_all_orders : Orders → List Expr
  walk_all_orders unordered = []
  walk_all_orders (order by rest orders) = walk_all_calls by ++ walk_all_orders orders

  pub walk_all_group : Group → List Expr
  walk_all_group ungrouped = []
  walk_all_group (within by rest) = walk_all_calls by

abbrev pub walk_columns : (Expr → List Expr) → List Column → List Expr
walk_columns walk [] = []
walk_columns walk (c ∷ columns) = walk c.expr ++ walk_columns walk columns

abbrev pub walk_having : (Expr → List Expr) → Option Expr → List Expr
walk_having walk none = []
walk_having walk (some e) = walk e

unfoldable pub collect_all_calls_from_select : Select → List Expr
unfolding walk_all_calls
collect_all_calls_from_select select =
    walk_columns walk_all_calls select.columns
    ++ (walk_having walk_all_calls select.having ++ walk_all_orders select.order_by)

-- This walk descends into the arguments of a call only.
unfoldable mutual
  unfolding is_scatter_gather_aggregate

  pub walk_expr_for_aggregates : Expr → List Expr
  walk_expr_for_aggregates (call callee args filter orders group) =
      (if is_scatter_gather_aggregate (call callee args filter orders group)
        then call callee args filter orders group ∷ []
        else [])
      ++ walk_exprs_for_aggregates args
  walk_expr_for_aggregates (binary op left right) =
      walk_expr_for_aggregates left ++ walk_expr_for_aggregates right
  walk_expr_for_aggregates (unary op argument) = walk_part_for_aggregates argument
  walk_expr_for_aggregates _ = []

  pub walk_exprs_for_aggregates : Exprs → List Expr
  walk_exprs_for_aggregates nil = []
  walk_exprs_for_aggregates (cons e es) = walk_expr_for_aggregates e ++ walk_exprs_for_aggregates es

  pub walk_part_for_aggregates : Part → List Expr
  walk_part_for_aggregates absent = []
  walk_part_for_aggregates (present e) = walk_expr_for_aggregates e

abbrev pub is_empty : List Expr → Bool
is_empty [] = true
is_empty (e ∷ es) = false

-- the aggregates of the columns and of HAVING
abbrev pub select_aggregates : Select → List Expr
select_aggregates select =
    walk_columns walk_expr_for_aggregates select.columns
    ++ walk_having walk_expr_for_aggregates select.having
