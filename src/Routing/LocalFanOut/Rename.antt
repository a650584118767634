-- ===== src/Routing/LocalFanOut/Rename.antt =====
-- select-order-rewrite.ts: the SQL that is run on the local PostgreSQL names the temporary table in
-- place of the table of the FROM clause.
pub mod Back
use mtdd.Prelude.{
  ℕ, ◌≡◌, refl, sym, ap, ◌∙◌, subst, Option-cases, inl, inr, Bool, true, false, List, [], ◌∷◌, ◌++◌,
  Option, none, some, if◌then◌else◌,
}
use mtdd.Js.Text.{Text, codes, text_eq}
use mtdd.Js.Text.Laws.{text_eq_sound, text_eq_self}
use mtdd.Js.Buffer.{JsError, error}
use mtdd.Js.Effect.{Result, ok, err}
use mtdd.Js.Fallible.{◌>>=◌}
use mtdd.Routing.LocalFanOut.{
  Expr, ref, Orders, unordered, order, TableName, plain, qualified, unnamed, From, table,
  other_from, Select, Statement, select_stmt, with_stmt, other_stmt, table_name,
}
use mtdd.Routing.LocalFanOut.Split.{parse_select_statement}

abbrev pub renamed : TableName → Text → TableName
renamed (plain name) to_name = plain to_name
renamed (qualified name rest) to_name = qualified to_name rest
renamed unnamed to_name = qualified to_name []

abbrev pub is_named : Option Text → Text → Bool
is_named none from_name = false
is_named (some name) from_name = text_eq name from_name

abbrev pub rename_from : Text → Text → List From → Option (List From)
rename_from from_name to_name (table name rest ∷ []) =
    if is_named (table_name name) from_name
    then some (table (renamed name to_name) rest ∷ [])
    else none
rename_from from_name to_name _ = none

abbrev pub with_from : Select → Option (List From) → Option Statement
with_from select none = none
with_from select (some from) = some (select_stmt (record select { from = from }))

abbrev pub again_with : Text → Option Statement → Option Statement
again_with rest none = none
again_with rest (some statement) = some (with_stmt rest statement)

unfoldable pub replace_primary_table_name : Text → Text → Statement → Option Statement
unfolding text_eq
replace_primary_table_name from_name to_name (with_stmt rest statement) =
    again_with rest (replace_primary_table_name from_name to_name statement)
replace_primary_table_name from_name to_name (select_stmt select) =
    with_from select (rename_from from_name to_name select.from)
replace_primary_table_name from_name to_name other_stmt = none

abbrev printed : (Statement → Text) → Text → Option Statement → Result JsError Text
printed to_sql from_name none = err (
    error (
      codes "@advcomm/mtdd: unable to rewrite table "
      ++ (from_name ++ codes " in SELECT for local merge")))
printed to_sql from_name (some statement) = ok (to_sql statement)

unfoldable pub rewrite_query_table_name_ast :
    (Text → Result JsError (List Statement))
    → (Statement → Text)
    → Text
    → Text
    → Text
    → Result JsError Text
unfolding parse_select_statement replace_primary_table_name
rewrite_query_table_name_ast parse to_sql sql from_name to_name = do
  found ← parse_select_statement parse sql
  printed to_sql from_name (replace_primary_table_name from_name to_name found.0)

unfoldable pub ref_to_column_name : Expr → Option Text
ref_to_column_name (ref tbl name) = some name
ref_to_column_name _ = none

abbrev noted : Option Text → List Text → List Text
noted none names = names
noted (some []) names = names
noted (some (c ∷ name)) names = (c ∷ name) ∷ names

unfoldable pub order_by_column_names : Orders → List Text
unfolding ref_to_column_name
order_by_column_names unordered = []
order_by_column_names (order by rest orders) =
    noted (ref_to_column_name by) (order_by_column_names orders)
