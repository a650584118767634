-- ===== src/Routing/LocalFanOut/Columns/Mentions.antt =====
-- The references to columns in an expression, and what the walk over it collects.
use mtdd.Prelude.{◌≡◌, ◌≢◌, inl, inr, refl, sym, ◌∙◌, Bool, true, false, ◌||◌, List, Bool-cases}
use mtdd.Js.Text.{Text, codes, text_eq}
use mtdd.Js.Text.Laws.{text_eq_sound, text_eq_self}
use mtdd.Js.Map.{has, add}
use mtdd.Js.Map.Laws.{text_eq-IsEquality, same-cases, differs, has-add_self, has-add_ne}
use mtdd.Routing.LocalFanOut.{
  Expr, ref, call, binary, unary, subquery, integer, other, Exprs, nil, cons, Part, absent, present,
  Orders, unordered, order, Group, ungrouped, within,
}
use mtdd.Routing.LocalFanOut.Walk.{
  note_ref, collect_refs_from_expr, collect_refs_from_exprs, collect_refs_from_part,
  collect_refs_from_orders, collect_refs_from_group,
}

-- Whether a reference with the name stands in an expression.
unfoldable mutual
  pub mentions : Text → Expr → Bool
  mentions name (ref table column) = text_eq column name
  mentions name (call callee args filter orders group) =
      ((mentions_any name args || mentions_part name filter) || mentions_orders name orders)
      || mentions_group name group
  mentions name (binary op left right) = mentions name left || mentions name right
  mentions name (unary op argument) = mentions_part name argument
  mentions name _ = false

  pub mentions_any : Text → Exprs → Bool
  mentions_any name nil = false
  mentions_any name (cons e es) = mentions name e || mentions_any name es

  pub mentions_part : Text → Part → Bool
  mentions_part name absent = false
  mentions_part name (present e) = mentions name e

  pub mentions_orders : Text → Orders → Bool
  mentions_orders name unordered = false
  mentions_orders name (order by rest orders) = mentions name by || mentions_orders name orders

  pub mentions_group : Text → Group → Bool
  mentions_group name ungrouped = false
  mentions_group name (within by rest) = mentions name by

pub or_assoc : (a b c : Bool) → ((a || b) || c) ≡ (a || (b || c))
or_assoc true b c = refl
or_assoc false b c = refl

pub or_none : (a : Bool) → (a || false) ≡ a
or_none true = refl
or_none false = refl

pub or_true : (a : Bool) → (a || true) ≡ true
or_true true = refl
or_true false = refl

-- the order in which the parts of a call are gone through
steps : (r a f o g : Bool) → ((((r || a) || f) || o) || g) ≡ (r || (((a || f) || o) || g))
steps true a f o g = refl
steps false a f o g = refl

module _ (name : Text) where
  pub has-add :
      (k : Text) (set : List Text)
      → has text_eq name (add text_eq k set) ≡ (has text_eq name set || text_eq k name)
  has-add k set = elim (same-cases text_eq-IsEquality k name) [
    | inl e ↦
        rw (
          sym e,
          has-add_self text_eq-IsEquality k set,
          text_eq_self k,
          or_true (has text_eq k set),
        )
    | inr ne ↦ rw (
      has-add_ne text_eq-IsEquality k name set ne,
      differs text_eq-IsEquality k name ne,
      or_none (has text_eq name set),
    )
  ]

-- A name other than that of all columns.
module _ (name : Text) (column : name ≢ codes "*") where
  noted :
      (n : Text) (refs : List Text)
      → has text_eq name (note_ref n refs) ≡ (has text_eq name refs || text_eq n name)
  noted n refs = elim (Bool-cases (text_eq n (codes "*"))) [
    | inl e ↦
        let star : n ≡ codes "*" = text_eq_sound n (codes "*") e in
        let no : text_eq n name ≡ false =
          differs text_eq-IsEquality n name (λ same. column (sym same ∙ star)) in
        rw (e, no, or_none (has text_eq name refs))
    | inr e ↦ rw e (has-add name n refs)
  ]

  mutual
    unfolding mentions collect_refs_from_expr

    pub has-collect_refs :
        (e : Expr) (refs : List Text)
        → has text_eq name (collect_refs_from_expr e refs)
          ≡ (has text_eq name refs || mentions name e)
    has-collect_refs (ref table n) refs = noted n refs
    has-collect_refs (call callee args filter orders group) refs =
        let a = collect_refs_from_exprs args refs in
        let f = collect_refs_from_part filter a in
        let o = collect_refs_from_orders orders f in
        rw
          (
            has-collect_group group o,
            has-collect_orders orders f,
            has-collect_part filter a,
            has-collect_exprs args refs,
          )
          (steps (has text_eq name refs) (mentions_any name args) (mentions_part name filter)
            (mentions_orders name orders) (mentions_group name group))
    has-collect_refs (binary op left right) refs =
        rw (has-collect_refs right (collect_refs_from_expr left refs), has-collect_refs left refs)
          (or_assoc (has text_eq name refs) (mentions name left) (mentions name right))
    has-collect_refs (unary op argument) refs = has-collect_part argument refs
    has-collect_refs (subquery rest) refs = sym (or_none (has text_eq name refs))
    has-collect_refs (integer n) refs = sym (or_none (has text_eq name refs))
    has-collect_refs (other rest) refs = sym (or_none (has text_eq name refs))

    pub has-collect_exprs :
        (es : Exprs) (refs : List Text)
        → has text_eq name (collect_refs_from_exprs es refs)
          ≡ (has text_eq name refs || mentions_any name es)
    has-collect_exprs nil refs = sym (or_none (has text_eq name refs))
    has-collect_exprs (cons e es) refs =
        rw (has-collect_exprs es (collect_refs_from_expr e refs), has-collect_refs e refs)
          (or_assoc (has text_eq name refs) (mentions name e) (mentions_any name es))

    has-collect_part :
        (part : Part) (refs : List Text)
        → has text_eq name (collect_refs_from_part part refs)
          ≡ (has text_eq name refs || mentions_part name part)
    has-collect_part absent refs = sym (or_none (has text_eq name refs))
    has-collect_part (present e) refs = has-collect_refs e refs

    has-collect_orders :
        (orders : Orders) (refs : List Text)
        → has text_eq name (collect_refs_from_orders orders refs)
          ≡ (has text_eq name refs || mentions_orders name orders)
    has-collect_orders unordered refs = sym (or_none (has text_eq name refs))
    has-collect_orders (order by rest orders) refs =
        rw (has-collect_orders orders (collect_refs_from_expr by refs), has-collect_refs by refs)
          (or_assoc (has text_eq name refs) (mentions name by) (mentions_orders name orders))

    has-collect_group :
        (group : Group) (refs : List Text)
        → has text_eq name (collect_refs_from_group group refs)
          ≡ (has text_eq name refs || mentions_group name group)
    has-collect_group ungrouped refs = sym (or_none (has text_eq name refs))
    has-collect_group (within by rest) refs = has-collect_refs by refs
