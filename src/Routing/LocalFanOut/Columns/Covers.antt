-- ===== src/Routing/LocalFanOut/Columns/Covers.antt =====
-- Which references to columns are among the columns that the shards send.
use mtdd.Prelude.{◌≡◌, ◌≢◌, Bool, true, false, ◌||◌, List, [], ◌∷◌}
use mtdd.Js.Text.{Text, codes, text_eq}
use mtdd.Js.Map.{has}
use mtdd.Routing.LocalFanOut.{Expr, Column, Select}
use mtdd.Routing.LocalFanOut.Walk.{walk_expr_for_aggregates, walk_having}
use mtdd.Routing.LocalFanOut.Columns.{Projection}
use mtdd.Routing.LocalFanOut.Columns.Mentions.{mentions, mentions_any}
use mtdd.Routing.LocalFanOut.Columns.Refs.{has_ref}

-- What the local statement needs: the references in GROUP BY, in the columns that are no aggregates
-- and in the aggregates of the columns and of HAVING.
unfoldable pub mentioned : Text → List Expr → Bool
mentioned name [] = false
mentioned name (e ∷ es) = mentions name e || mentioned name es

abbrev pub column_needs : Text → Expr → List Expr → Bool
column_needs name e [] = mentions name e
column_needs name e (a ∷ aggregates) = mentioned name (a ∷ aggregates)

unfoldable pub columns_need : Text → List Column → Bool
columns_need name [] = false
columns_need name (c ∷ columns) =
    column_needs name c.expr (walk_expr_for_aggregates c.expr) || columns_need name columns

abbrev pub needed : Text → Select → Bool
needed name select =
    (mentions_any name select.group_by || columns_need name select.columns)
    || mentioned name (walk_having walk_expr_for_aggregates select.having)

module _ (name : Text) (column : name ≢ codes "*") where
  -- the references among the columns are noted
  abbrev Noted : Projection → Type 0
  Noted p = has_ref name p.columns ≡ true → has text_eq name p.refs ≡ true

  -- `p` is what was gone through before `after`, which needs `more`.
  record Grows (more : Bool) (p after : Projection) : Type 0 where
    refs : has text_eq name after.refs ≡ (has text_eq name p.refs || more)
    noted : Noted after
