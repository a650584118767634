-- ===== src/Routing/LocalFanOut.antt =====
-- The SELECT whose result is made on a local PostgreSQL from the rows of all shards:
-- select-local-fanout.ts, postgres-aggregate-functions.ts and select-order-rewrite.ts. Here: the
-- nodes of the parser as far as they are read, and the names of a FROM clause. What is not read of a
-- node is kept as a text, its JSON. An array that is empty stands for one that is left out too.
pub mod Aggregates
pub mod Walk
pub mod Support
pub mod Columns
pub mod Split
pub mod Rename
mod Examples
use mtdd.Prelude.{
  ℕ, Bool, true, false, ◌&&◌, List, [], ◌∷◌, ◌++◌, Option, none, some, ltb, ◌==◌, if◌then◌else◌,
  length, take,
}
use mtdd.Js.Text.{Text, codes, text_eq, trim, squeeze}
use mtdd.Js.Buffer.{JsError}

-- What a call has beside its operands: `function.name`, empty if there is none, and `over`.
pub record Callee : Type 0 where
  pub function : Text
  pub over : Option Text
  pub rest : Text

mutual
  pub data Expr : Type 0 where
    -- `table` and `name`
    ref : Text → Text → Expr
    -- `args`, `filter`, `orderBy` and `withinGroup`
    call : Callee → Exprs → Part → Orders → Group → Expr
    binary : Text → Expr → Expr → Expr
    -- `op` and `argument`
    unary : Text → Part → Expr
    -- a node of the type `select`
    subquery : Text → Expr
    integer : ℕ → Expr
    -- a node of any other type
    other : Text → Expr

  pub data Exprs : Type 0 where
    nil : Exprs
    cons : Expr → Exprs → Exprs

  -- a field that may be missing
  pub data Part : Type 0 where
    absent : Part
    present : Expr → Part

  -- the entries of an ORDER BY: `by`, and the rest of the entry
  pub data Orders : Type 0 where
    unordered : Orders
    order : Expr → Text → Orders → Orders

  -- WITHIN GROUP, which has one entry
  pub data Group : Type 0 where
    ungrouped : Group
    within : Expr → Text → Group

abbrev pub same_option : Option Text → Option Text → Bool
same_option none none = true
same_option (some a) (some b) = text_eq a b
same_option _ _ = false

abbrev pub same_callee : Callee → Callee → Bool
same_callee a b =
    text_eq a.function b.function && same_option a.over b.over && text_eq a.rest b.rest

-- `JSON.stringify(a) === JSON.stringify(b)`
unfoldable mutual
  unfolding text_eq

  pub same_expr : Expr → Expr → Bool
  same_expr (ref t a) (ref u b) = text_eq t u && text_eq a b
  same_expr (call c xs f os g) (call d ys f' ps h) =
      same_callee c d && same_exprs xs ys && same_part f f' && same_orders os ps && same_group g h
  same_expr (binary o a b) (binary o' a' b') = text_eq o o' && same_expr a a' && same_expr b b'
  same_expr (unary o a) (unary o' a') = text_eq o o' && same_part a a'
  same_expr (subquery s) (subquery t) = text_eq s t
  same_expr (integer m) (integer n) = m == n
  same_expr (other s) (other t) = text_eq s t
  same_expr _ _ = false

  pub same_exprs : Exprs → Exprs → Bool
  same_exprs nil nil = true
  same_exprs (cons a xs) (cons b ys) = same_expr a b && same_exprs xs ys
  same_exprs _ _ = false

  pub same_part : Part → Part → Bool
  same_part absent absent = true
  same_part (present a) (present b) = same_expr a b
  same_part _ _ = false

  pub same_orders : Orders → Orders → Bool
  same_orders unordered unordered = true
  same_orders (order a r os) (order b s ps) = same_expr a b && text_eq r s && same_orders os ps
  same_orders _ _ = false

  pub same_group : Group → Group → Bool
  same_group ungrouped ungrouped = true
  same_group (within a r) (within b s) = same_expr a b && text_eq r s
  same_group _ _ = false

pub record Column : Type 0 where
  pub expr : Expr
  pub alias : Option Text

-- `name` of a table: a text, an object with a text and what else it holds, or neither
pub data TableName : Type 0 where
  plain : Text → TableName
  qualified : Text → Text → TableName
  unnamed : TableName

pub data From : Type 0 where
  table : TableName → Text → From
  other_from : Text → From

pub record Limit : Type 0 where
  pub limit : Option Text
  pub offset : Option Text

pub record Select : Type 0 where
  pub columns : List Column
  pub from : List From
  pub group_by : Exprs
  pub having : Option Expr
  pub order_by : Orders
  pub limit : Option Limit
  pub rest : Text

pub data Statement : Type 0 where
  select_stmt : Select → Statement
  with_stmt : Text → Statement → Statement
  other_stmt : Statement

-- MtddSqlParseError
abbrev pub sql_error : Text → JsError
sql_error message = record { name = codes "MtddSqlParseError"; message = message }

abbrev shorten : Text → Text
shorten line = if ltb 120 (length line) then take 117 line ++ codes "..." else line

unfoldable pub preview_sql : Text → Text
unfolding trim squeeze
preview_sql sql = shorten (trim (squeeze false sql))

unfoldable pub resolve_select_node : Statement → Option Select
resolve_select_node (with_stmt rest statement) = resolve_select_node statement
resolve_select_node (select_stmt select) = some select
resolve_select_node other_stmt = none

unfoldable pub select_has_order_by : Select → Bool
select_has_order_by select = elim select.order_by [ unordered ↦ false | order by rest more ↦ true ]

abbrev has_offset : Option Limit → Bool
has_offset none = false
has_offset (some limit) = elim limit.offset [ none ↦ false | some offset ↦ true ]

unfoldable pub select_has_offset : Select → Bool
select_has_offset select = has_offset select.limit

abbrev pub table_name : TableName → Option Text
table_name (plain []) = none
table_name (plain (c ∷ name)) = some (c ∷ name)
table_name (qualified name rest) = some name
table_name unnamed = none

-- isSimpleSingleTableFrom and tableRefName: the name in a FROM of one table
abbrev pub single_table_name : List From → Option Text
single_table_name (table name rest ∷ []) = table_name name
single_table_name _ = none

-- getPrimaryFromTable, of whose result only the name is read
unfoldable pub get_primary_from_table : Select → Option Text
get_primary_from_table select = elim (single_table_name select.from) [
  | none ↦ none
  | some [] ↦ none
  | some (c ∷ name) ↦ some (c ∷ name)
]
