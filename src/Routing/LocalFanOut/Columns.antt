-- ===== src/Routing/LocalFanOut/Columns.antt =====
-- buildRowLevelColumns of select-local-fanout.ts: the columns that the shards send in place of the
-- columns of a SELECT with aggregates.
pub mod Mentions
pub mod Refs
pub mod Covers
pub mod RowLevel
use mtdd.Prelude.{
  ℕ, Bool, true, false, ◌||◌, List, [], ◌∷◌, ◌++◌, Option, none, some, if◌then◌else◌,
}
use mtdd.Js.Text.{Text, codes, text_eq}
use mtdd.Js.Map.{has, add}
use mtdd.Routing.LocalFanOut.{Expr, ref, integer, Exprs, nil, cons, Column, Select, same_expr}
use mtdd.Routing.LocalFanOut.Walk.{collect_refs_from_expr, walk_expr_for_aggregates, walk_having}

-- `refNames` and `projection`; the keys in `seen` are those of the columns of the projection
pub record Projection : Type 0 where
  pub refs : List Text
  pub columns : List Column

-- `seen.has(key)`
unfoldable pub is_seen : Expr → List Column → Bool
unfolding same_expr
is_seen e [] = false
is_seen e (c ∷ columns) = same_expr c.expr e || is_seen e columns

abbrev pub add_column : Column → Projection → Projection
add_column c p = if is_seen c.expr p.columns then p else record p { columns = p.columns ++ c ∷ [] }

abbrev pub collect : Expr → Projection → Projection
collect e p = record p { refs = collect_refs_from_expr e p.refs }

abbrev pub as_column : Expr → Column
as_column e = record { expr = e; alias = none }

unfoldable pub project_group_by : Exprs → Projection → Projection
unfolding is_seen collect_refs_from_expr
project_group_by nil p = p
project_group_by (cons e group_by) p =
    project_group_by group_by (collect e (add_column (as_column e) p))

unfoldable pub collect_all : List Expr → Projection → Projection
unfolding collect_refs_from_expr
collect_all [] p = p
collect_all (e ∷ aggregates) p = collect_all aggregates (collect e p)

-- a column with these aggregates
abbrev pub project_column : List Expr → Column → Projection → Projection
project_column [] c p = collect c.expr (add_column c p)
project_column (e ∷ aggregates) c p = collect_all (e ∷ aggregates) p

unfoldable pub project_columns : List Column → Projection → Projection
unfolding is_seen collect_refs_from_expr collect_all walk_expr_for_aggregates
project_columns [] p = p
project_columns (c ∷ columns) p =
    project_columns columns (project_column (walk_expr_for_aggregates c.expr) c p)

abbrev pub empty_projection : Projection
empty_projection = record { refs = []; columns = [] }

abbrev pub projection : Select → Projection
projection select =
    collect_all (walk_having walk_expr_for_aggregates select.having)
      (project_columns select.columns (project_group_by select.group_by empty_projection))

abbrev pub used_ref : Expr → List Text → List Text
used_ref (ref table name) used = add text_eq name used
used_ref _ used = used

-- the names of the columns that are references
unfoldable pub used_refs : List Column → List Text → List Text
unfolding add
used_refs [] used = used
used_refs (c ∷ columns) used = used_refs columns (used_ref c.expr used)

abbrev pub ref_column : Text → Column
ref_column name = as_column (ref [] name)

unfoldable pub add_refs : List Text → List Text → List Column → List Column
unfolding has add
add_refs [] used columns = columns
add_refs (name ∷ refs) used columns =
    if has text_eq name used
    then add_refs refs used columns
    else add_refs refs (add text_eq name used) (columns ++ ref_column name ∷ [])

abbrev pub row_marker_column : Column
row_marker_column = record { expr = integer 1; alias = some (codes "_mtdd_row") }

abbrev pub or_row_marker : List Column → List Column
or_row_marker [] = row_marker_column ∷ []
or_row_marker (c ∷ columns) = c ∷ columns

unfoldable pub build_row_level_columns : Select → List Column
unfolding project_group_by project_columns collect_all used_refs add_refs walk_expr_for_aggregates
build_row_level_columns select =
    let p = projection select in or_row_marker (add_refs p.refs (used_refs p.columns []) p.columns)
