-- ===== src/Routing/LocalFanOut/Split/Sent.antt =====
-- The SELECT that the shards are sent.
use mtdd.Prelude.{
  ◌≡◌, ◌≢◌, refl, ◌∙◌, true, false, not, List, [], ◌∷◌, Option, none, some, Bool-cases, inl, inr,
  append-nil,
}
use mtdd.Routing.LocalFanOut.{
  Expr, Select, Statement, select_stmt, with_stmt, other_stmt, nil, unordered, resolve_select_node,
}
use mtdd.Routing.LocalFanOut.Walk.{walk_exprs_for_aggregates, select_aggregates, is_empty}
use mtdd.Routing.LocalFanOut.Support.{select_has_supported_aggregates}
use mtdd.Routing.LocalFanOut.Columns.{build_row_level_columns}
use mtdd.Routing.LocalFanOut.Columns.RowLevel.{aggregates_of, build_row_level_columns-plain}
use mtdd.Routing.LocalFanOut.Split.{fan_out_select, change_select}

-- A SELECT that gives the rows of one shard as they are: nothing of it sorts, cuts off, groups or
-- aggregates them. One that had no aggregates has the same columns, grouped as before.
pub record IsRowLevel (source sent : Select) : Type 0 where
  pub order_by : sent.order_by ≡ unordered
  pub limit : sent.limit ≡ none
  pub aggregates : select_aggregates sent ≡ []
  pub from : sent.from ≡ source.from
  pub rest : sent.rest ≡ source.rest
  pub ungrouped : select_aggregates source ≢ [] → (sent.group_by ≡ nil) × (sent.having ≡ none)
  pub unchanged :
      select_aggregates source ≡ []
      → (sent.columns ≡ source.columns)
        × (sent.group_by ≡ source.group_by)
        × (sent.having ≡ source.having)

none_found : (es : List Expr) → not (is_empty es) ≡ false → es ≡ []
none_found [] h = refl
none_found (e ∷ es) h = cc

some_found : (es : List Expr) → not (is_empty es) ≡ true → es ≢ []
some_found [] h = cc
some_found (e ∷ es) h = λ k. cc

-- If the walk for aggregates finds none in GROUP BY, the SELECT that the shards are sent has the same
-- FROM and the same rest, no ORDER BY, no LIMIT, and no aggregate that this walk finds. If the walk
-- finds an aggregate in the columns or HAVING of the source, GROUP BY and HAVING are gone; if it
-- finds none, the columns, GROUP BY and HAVING are those of the source. The walk looks below the
-- arguments of calls and the operands of operators, and not below other nodes, such as casts.
pub fan_out_select-IsRowLevel :
    (select : Select)
    → walk_exprs_for_aggregates select.group_by ≡ []
    → IsRowLevel select (fan_out_select select)
unfolding select_has_supported_aggregates
fan_out_select-IsRowLevel select h = elim (Bool-cases (select_has_supported_aggregates select)) [
  | inl e ↦ rw e (record {
    order_by = refl;
    limit = refl;
    aggregates =
        append-nil (aggregates_of (build_row_level_columns select))
        ∙ build_row_level_columns-plain select h;
    from = refl;
    rest = refl;
    ungrouped = λ k. (refl, refl);
    unchanged = λ k. absurd (some_found (select_aggregates select) e k);
  })
  | inr e ↦ rw e (record {
    order_by = refl;
    limit = refl;
    aggregates = none_found (select_aggregates select) e;
    from = refl;
    rest = refl;
    ungrouped = λ k. absurd (k (none_found (select_aggregates select) e));
    unchanged = λ k. (refl, refl, refl);
  })
]

abbrev changed : (Select → Select) → Option Select → Option Select
changed f none = none
changed f (some select) = some (f select)

pub resolve-change :
    (f : Select → Select) (statement : Statement)
    → resolve_select_node (change_select f statement) ≡ changed f (resolve_select_node statement)
unfolding resolve_select_node change_select
resolve-change f (with_stmt rest statement) = resolve-change f statement
resolve-change f (select_stmt select) = refl
resolve-change f other_stmt = refl
