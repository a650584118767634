-- ===== src/Routing/LocalFanOut/Walk/Occurs.antt =====
-- Where an expression and a SELECT hold a node, stated apart from the walks of
-- select-local-fanout.ts: through the operands of calls, of binary and of unary operators.
use mtdd.Prelude.{◌≡◌, refl, subst, Bool, true, false, ◌||◌, List, [], ◌∷◌, ◌++◌, some}
use mtdd.Js.Text.{Text}
use mtdd.Routing.LocalFanOut.{
  Expr, call, binary, unary, subquery, Exprs, cons, Part, present, Orders, order, Group, within,
  Callee, Column, Select,
}
use mtdd.Routing.LocalFanOut.Walk.{
  walk_all_calls, walk_all_exprs, walk_all_part, walk_all_orders, walk_all_group, walk_columns,
  walk_having, collect_all_calls_from_select, expr_contains_subquery, any_contains_subquery,
  part_contains_subquery, orders_contain_subquery, group_contains_subquery,
}

-- The node is the expression, or occurs in an operand of it.
mutual
  pub data Occurs (node : Expr) : Expr → Type 0 where
    here : Occurs node node
    in_args :
        {callee : Callee} {args : Exprs} {filter : Part} {orders : Orders} {group : Group}
        → OccursArgs node args
        → Occurs node (call callee args filter orders group)
    in_filter :
        {callee : Callee} {args : Exprs} {filter : Part} {orders : Orders} {group : Group}
        → OccursPart node filter
        → Occurs node (call callee args filter orders group)
    in_orders :
        {callee : Callee} {args : Exprs} {filter : Part} {orders : Orders} {group : Group}
        → OccursOrders node orders
        → Occurs node (call callee args filter orders group)
    in_group :
        {callee : Callee} {args : Exprs} {filter : Part} {orders : Orders} {group : Group}
        → OccursGroup node group
        → Occurs node (call callee args filter orders group)
    left : {op : Text} {a b : Expr} → Occurs node a → Occurs node (binary op a b)
    right : {op : Text} {a b : Expr} → Occurs node b → Occurs node (binary op a b)
    operand : {op : Text} {p : Part} → OccursPart node p → Occurs node (unary op p)

  pub data OccursArgs (node : Expr) : Exprs → Type 0 where
    first : {e : Expr} {es : Exprs} → Occurs node e → OccursArgs node (cons e es)
    later : {e : Expr} {es : Exprs} → OccursArgs node es → OccursArgs node (cons e es)

  pub data OccursPart (node : Expr) : Part → Type 0 where
    part : {e : Expr} → Occurs node e → OccursPart node (present e)

  pub data OccursOrders (node : Expr) : Orders → Type 0 where
    key :
        {e : Expr} {rest : Text} {more : Orders}
        → Occurs node e
        → OccursOrders node (order e rest more)
    next_key :
        {e : Expr} {rest : Text} {more : Orders}
        → OccursOrders node more
        → OccursOrders node (order e rest more)

  pub data OccursGroup (node : Expr) : Group → Type 0 where
    group_key : {e : Expr} {rest : Text} → Occurs node e → OccursGroup node (within e rest)

-- The node occurs in a column, in HAVING or in ORDER BY.
pub data OccursIn (node : Expr) (select : Select) : Type 0 where
  in_column :
      (before : List Column) (column : Column) (after : List Column)
      → select.columns ≡ before ++ column ∷ after
      → Occurs node column.expr
      → OccursIn node select
  in_having : (e : Expr) → select.having ≡ some e → Occurs node e → OccursIn node select
  in_order_by : OccursOrders node select.order_by → OccursIn node select

abbrev pub All : (Expr → Type 0) → List Expr → Type 0
All P [] = Unit
All P (e ∷ calls) = P e × All P calls

module _ (P : Expr → Type 0) where
  All-left : (xs ys : List Expr) → All P (xs ++ ys) → All P xs
  All-left [] ys h = tt
  All-left (x ∷ xs) ys h = (h.0, All-left xs ys h.1)

  All-right : (xs ys : List Expr) → All P (xs ++ ys) → All P ys
  All-right [] ys h = h
  All-right (x ∷ xs) ys h = All-right xs ys h.1

  -- What holds of all calls that the walk finds holds of a call that occurs.
  module _ (callee : Callee) (args : Exprs) (filter : Part) (orders : Orders) (group : Group) where
    abbrev pub node : Expr
    node = call callee args filter orders group

    mutual
      unfolding walk_all_calls

      Occurs-All : {e : Expr} → Occurs node e → All P (walk_all_calls e) → P node
      Occurs-All here h = h.0
      Occurs-All (in_args {args = xs} o) h = OccursArgs-All o (All-left (walk_all_exprs xs) _ h.1)
      Occurs-All (in_filter {args = xs} {filter = f} o) h =
          OccursPart-All o (All-left (walk_all_part f) _ (All-right (walk_all_exprs xs) _ h.1))
      Occurs-All (in_orders {args = xs} {filter = f} {orders = os} o) h = OccursOrders-All o (
          All-left (walk_all_orders os) _
            (All-right (walk_all_part f) _ (All-right (walk_all_exprs xs) _ h.1)))
      Occurs-All (in_group {args = xs} {filter = f} {orders = os} o) h = OccursGroup-All o (
          All-right (walk_all_orders os) _
            (All-right (walk_all_part f) _ (All-right (walk_all_exprs xs) _ h.1)))
      Occurs-All (left {a = a} o) h = Occurs-All o (All-left (walk_all_calls a) _ h)
      Occurs-All (right {a = a} o) h = Occurs-All o (All-right (walk_all_calls a) _ h)
      Occurs-All (operand o) h = OccursPart-All o h

      OccursArgs-All : {es : Exprs} → OccursArgs node es → All P (walk_all_exprs es) → P node
      OccursArgs-All (first {e = e} o) h = Occurs-All o (All-left (walk_all_calls e) _ h)
      OccursArgs-All (later {e = e} o) h = OccursArgs-All o (All-right (walk_all_calls e) _ h)

      OccursPart-All : {p : Part} → OccursPart node p → All P (walk_all_part p) → P node
      OccursPart-All (part o) h = Occurs-All o h

      OccursOrders-All : {os : Orders} → OccursOrders node os → All P (walk_all_orders os) → P node
      OccursOrders-All (key {e = e} o) h = Occurs-All o (All-left (walk_all_calls e) _ h)
      OccursOrders-All (next_key {e = e} o) h =
          OccursOrders-All o (All-right (walk_all_calls e) _ h)

      OccursGroup-All : {g : Group} → OccursGroup node g → All P (walk_all_group g) → P node
      OccursGroup-All (group_key o) h = Occurs-All o h

    columns_lem :
        (before : List Column) (column : Column) (after : List Column)
        → Occurs node column.expr
        → All P (walk_columns walk_all_calls (before ++ column ∷ after))
        → P node
    columns_lem [] column after o h = Occurs-All o (All-left (walk_all_calls column.expr) _ h)
    columns_lem (c ∷ before) column after o h =
        columns_lem before column after o (All-right (walk_all_calls c.expr) _ h)

    -- The walk over a SELECT finds each call that occurs in it.
    pub OccursIn-All :
        (select : Select)
        → OccursIn node select
        → All P (collect_all_calls_from_select select)
        → P node
    unfolding collect_all_calls_from_select
    OccursIn-All select (in_column before column after e o) h = columns_lem before column after o (
        subst (λ columns. All P (walk_columns walk_all_calls columns)) e
          (All-left (walk_columns walk_all_calls select.columns) _ h))
    OccursIn-All select (in_having e same o) h = Occurs-All o (
        subst (λ having. All P (walk_having walk_all_calls having)) same
          (All-left (walk_having walk_all_calls select.having) _
            (All-right (walk_columns walk_all_calls select.columns) _ h)))
    OccursIn-All select (in_order_by o) h = OccursOrders-All o (
        All-right (walk_having walk_all_calls select.having) _
          (All-right (walk_columns walk_all_calls select.columns) _ h))

or_right : (a b : Bool) → b ≡ true → (a || b) ≡ true
or_right true b h = refl
or_right false b h = h

or_left : (a b : Bool) → a ≡ true → (a || b) ≡ true
or_left true b h = refl
or_left false b h = cc

-- A subquery that occurs is found.
module _ (text : Text) where
  mutual
    unfolding expr_contains_subquery

    pub Occurs-subquery : {e : Expr} → Occurs (subquery text) e → expr_contains_subquery e ≡ true
    Occurs-subquery here = refl
    Occurs-subquery (in_args {args = xs} {filter = f} {orders = os} {group = g} o) =
        or_right
          (part_contains_subquery f || group_contains_subquery g || orders_contain_subquery os)
          (any_contains_subquery xs) (OccursArgs-subquery o)
    Occurs-subquery (in_filter {args = xs} {filter = f} {orders = os} {group = g} o) =
        or_left _ (any_contains_subquery xs) (
          or_left _ (orders_contain_subquery os) (
            or_left (part_contains_subquery f) (group_contains_subquery g) (OccursPart-subquery o)))
    Occurs-subquery (in_orders {args = xs} {filter = f} {orders = os} {group = g} o) =
        or_left _ (any_contains_subquery xs) (
          or_right (part_contains_subquery f || group_contains_subquery g)
            (orders_contain_subquery os) (OccursOrders-subquery o))
    Occurs-subquery (in_group {args = xs} {filter = f} {orders = os} {group = g} o) =
        or_left _ (any_contains_subquery xs) (
          or_left _ (orders_contain_subquery os) (
            or_right (part_contains_subquery f) (group_contains_subquery g)
              (OccursGroup-subquery o)))
    Occurs-subquery (left {a = a} {b = b} o) =
        or_left (expr_contains_subquery a) (expr_contains_subquery b) (Occurs-subquery o)
    Occurs-subquery (right {a = a} {b = b} o) =
        or_right (expr_contains_subquery a) (expr_contains_subquery b) (Occurs-subquery o)
    Occurs-subquery (operand o) = OccursPart-subquery o

    OccursArgs-subquery :
        {es : Exprs} → OccursArgs (subquery text) es → any_contains_subquery es ≡ true
    OccursArgs-subquery (first {e = e} {es = es} o) =
        or_left (expr_contains_subquery e) (any_contains_subquery es) (Occurs-subquery o)
    OccursArgs-subquery (later {e = e} {es = es} o) =
        or_right (expr_contains_subquery e) (any_contains_subquery es) (OccursArgs-subquery o)

    OccursPart-subquery :
        {p : Part} → OccursPart (subquery text) p → part_contains_subquery p ≡ true
    OccursPart-subquery (part o) = Occurs-subquery o

    OccursOrders-subquery :
        {os : Orders} → OccursOrders (subquery text) os → orders_contain_subquery os ≡ true
    OccursOrders-subquery (key {e = e} {more = os} o) =
        or_left (expr_contains_subquery e) (orders_contain_subquery os) (Occurs-subquery o)
    OccursOrders-subquery (next_key {e = e} {more = os} o) =
        or_right (expr_contains_subquery e) (orders_contain_subquery os) (OccursOrders-subquery o)

    OccursGroup-subquery :
        {g : Group} → OccursGroup (subquery text) g → group_contains_subquery g ≡ true
    OccursGroup-subquery (group_key o) = Occurs-subquery o
