-- ===== src/Routing/LocalFanOut/Examples.antt =====
-- The theorems on local fan-out at a concrete SELECT, and tests:
-- SELECT dept, sum(x) FROM t GROUP BY dept ORDER BY max(z) LIMIT 5.
use mtdd.Prelude.{◌≡◌, refl, true, List, [], ◌∷◌, none, some, String}
use mtdd.Js.Text.{Text, codes}
use mtdd.Js.Buffer.{JsError}
use mtdd.Js.Effect.{Result, ok}
use mtdd.Routing.LocalFanOut.{
  Expr, ref, call, other, Callee, Exprs, nil, cons, absent, Orders, unordered, order, ungrouped,
  Column, plain, From, table, Limit, Select, Statement, select_stmt,
}
use mtdd.Routing.LocalFanOut.Columns.{build_row_level_columns}
use mtdd.Routing.LocalFanOut.Split.{
  direct, LocalMerge, fan_out_select, split_select_for_local_fan_out,
}
use mtdd.Routing.LocalFanOut.Split.Sent.{IsRowLevel, fan_out_select-IsRowLevel}
use mtdd.Routing.LocalFanOut.Rename.{replace_primary_table_name}
use mtdd.Routing.LocalFanOut.Rename.Back.{replace_primary_table_name_back}

abbrev of_column : String → String → Expr
of_column function column =
    call (record { function = codes function; over = none; rest = [] })
      (cons (ref [] (codes column)) nil) absent unordered ungrouped

abbrev column_of : Expr → Column
column_of e = record { expr = e; alias = none }

abbrev base : Select
base = record {
  columns = column_of (ref [] (codes "dept")) ∷ column_of (of_column "SUM" "x") ∷ [];
  from = table (plain (codes "t")) [] ∷ [];
  group_by = cons (ref [] (codes "dept")) nil;
  having = none;
  order_by = order (of_column "max" "z") [] unordered;
  limit = some (record { limit = some (codes "5"); offset = none });
  rest = [];
}

-- The parser and the printer of the examples know one text.
abbrev sql : Text
sql = codes "Q"

abbrev reads : Select → Text → Result JsError (List Statement)
reads select text = ok (select_stmt select ∷ [])

abbrev prints : Statement → Text
prints statement = codes "F"

abbrev merge : LocalMerge
merge = record {
  fan_out_text = codes "F";
  full_text = codes "Q";
  temp_table_name = codes "t";
  order_by = base.order_by;
  limit = base.limit;
  has_aggregates = true;
}

fan_out_select-IsRowLevel_example : IsRowLevel base (fan_out_select base)
unfolding mtdd.Routing.LocalFanOut.Walk.walk_expr_for_aggregates
fan_out_select-IsRowLevel_example = fan_out_select-IsRowLevel base refl

-- The columns that are sent: `dept` and `x`, and not `z`, by which the rows are sorted.
sent_columns :
    build_row_level_columns base
    ≡ column_of (ref [] (codes "dept")) ∷ column_of (ref [] (codes "x")) ∷ []
unfolding build_row_level_columns
sent_columns = refl

abbrev renamed_to : Text → Statement
renamed_to name = select_stmt (record base { from = table (plain name) [] ∷ [] })

renamed_lem :
    replace_primary_table_name (codes "t") (codes "t_1") (renamed_to (codes "t"))
    ≡ some (renamed_to (codes "t_1"))
unfolding replace_primary_table_name
renamed_lem = refl

replace_primary_table_name_back_example :
    replace_primary_table_name (codes "t_1") (codes "t") (renamed_to (codes "t_1"))
    ≡ some (renamed_to (codes "t"))
replace_primary_table_name_back_example =
    replace_primary_table_name_back (codes "t") (codes "t_1") b't' (codes "_1") refl
      (renamed_to (codes "t")) (renamed_to (codes "t_1")) renamed_lem

-- SELECT x FROM t LIMIT 5 is sent to every shard as it is.
limit_only :
    split_select_for_local_fan_out
      (reads (record base {
        columns = column_of (ref [] (codes "x")) ∷ [];
        group_by = nil;
        order_by = unordered;
      }))
      prints
      sql
    ≡ ok direct
unfolding split_select_for_local_fan_out
limit_only = refl

-- An aggregate in a node of another type, such as a cast, is not seen.
cast_only :
    split_select_for_local_fan_out
      (reads (record base {
        columns = column_of (other (codes "sum(x)::int")) ∷ [];
        group_by = nil;
        order_by = unordered;
      }))
      prints
      sql
    ≡ ok direct
unfolding split_select_for_local_fan_out
cast_only = refl
