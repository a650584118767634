-- ===== src/Routing/LocalFanOut/Columns/RowLevel.antt =====
-- The columns that the shards send have no aggregates.
use mtdd.Prelude.{◌≡◌, refl, sym, ap, ◌∙◌, List, [], ◌∷◌, ◌++◌, Bool-cases, inl, inr, append_assoc}
use mtdd.Js.Text.{Text, text_eq}
use mtdd.Js.Map.{has}
use mtdd.Routing.LocalFanOut.{Expr, Exprs, nil, cons, Column, Select}
use mtdd.Routing.LocalFanOut.Walk.{
  walk_columns, walk_having, walk_expr_for_aggregates, walk_exprs_for_aggregates,
}
use mtdd.Routing.LocalFanOut.Columns.{
  Projection, is_seen, add_column, collect, as_column, project_group_by, collect_all,
  project_column, project_columns, empty_projection, projection, used_refs, ref_column, add_refs,
  or_row_marker, build_row_level_columns,
}

abbrev pub aggregates_of : List Column → List Expr
aggregates_of columns = walk_columns walk_expr_for_aggregates columns

nil_of_append : {A : Type 0} (xs ys : List A) → xs ++ ys ≡ [] → (xs ≡ []) × (ys ≡ [])
nil_of_append [] ys h = (refl, h)
nil_of_append (x ∷ xs) ys h = cc

aggregates_of-append :
    (xs ys : List Column) → aggregates_of (xs ++ ys) ≡ aggregates_of xs ++ aggregates_of ys
aggregates_of-append [] ys = refl
aggregates_of-append (c ∷ xs) ys =
    ap (λ t. walk_expr_for_aggregates c.expr ++ t) (aggregates_of-append xs ys)
    ∙ sym (append_assoc (walk_expr_for_aggregates c.expr) (aggregates_of xs) (aggregates_of ys))

appended :
    (columns : List Column) (c : Column)
    → aggregates_of columns ≡ []
    → walk_expr_for_aggregates c.expr ≡ []
    → aggregates_of (columns ++ c ∷ []) ≡ []
appended columns c old new = rw (aggregates_of-append columns (c ∷ []), old, new)

abbrev IsPlain : Projection → Type 0
IsPlain p = aggregates_of p.columns ≡ []

add_column-IsPlain :
    (c : Column) (p : Projection)
    → IsPlain p
    → walk_expr_for_aggregates c.expr ≡ []
    → IsPlain (add_column c p)
add_column-IsPlain c p k new = elim (Bool-cases (is_seen c.expr p.columns)) [
  | inl e ↦ rw e k
  | inr e ↦ rw e (appended p.columns c k new)
]

collect_all-columns : (es : List Expr) (p : Projection) → (collect_all es p).columns ≡ p.columns
unfolding collect_all
collect_all-columns [] p = refl
collect_all-columns (e ∷ es) p = collect_all-columns es (collect e p)

project_group_by-IsPlain :
    (es : Exprs) (p : Projection)
    → IsPlain p
    → walk_exprs_for_aggregates es ≡ []
    → IsPlain (project_group_by es p)
unfolding project_group_by walk_expr_for_aggregates
project_group_by-IsPlain nil p k h = k
project_group_by-IsPlain (cons e es) p k h =
    let parts = nil_of_append (walk_expr_for_aggregates e) (walk_exprs_for_aggregates es) h in
    project_group_by-IsPlain es (collect e (add_column (as_column e) p))
      (add_column-IsPlain (as_column e) p k parts.0) parts.1

project_column-IsPlain :
    (aggregates : List Expr) (c : Column) (p : Projection)
    → walk_expr_for_aggregates c.expr ≡ aggregates
    → IsPlain p
    → IsPlain (project_column aggregates c p)
project_column-IsPlain [] c p e k = add_column-IsPlain c p k e
project_column-IsPlain (a ∷ aggregates) c p e k =
    ap aggregates_of (collect_all-columns (a ∷ aggregates) p) ∙ k

project_columns-IsPlain :
    (columns : List Column) (p : Projection) → IsPlain p → IsPlain (project_columns columns p)
unfolding project_columns
project_columns-IsPlain [] p k = k
project_columns-IsPlain (c ∷ columns) p k =
    project_columns-IsPlain columns (project_column (walk_expr_for_aggregates c.expr) c p)
      (project_column-IsPlain (walk_expr_for_aggregates c.expr) c p refl k)

add_refs-plain :
    (refs used : List Text) (columns : List Column)
    → aggregates_of columns ≡ []
    → aggregates_of (add_refs refs used columns) ≡ []
unfolding add_refs walk_expr_for_aggregates
add_refs-plain [] used columns k = k
add_refs-plain (n ∷ refs) used columns k = elim (Bool-cases (has text_eq n used)) [
  | inl e ↦ rw e (add_refs-plain refs used columns k)
  | inr e ↦ rw e (
      add_refs-plain refs _ (columns ++ ref_column n ∷ []) (appended columns (ref_column n) k refl))
]

or_row_marker-plain :
    (columns : List Column)
    → aggregates_of columns ≡ []
    → aggregates_of (or_row_marker columns) ≡ []
unfolding walk_expr_for_aggregates
or_row_marker-plain [] k = refl
or_row_marker-plain (c ∷ columns) k = k

pub build_row_level_columns-plain :
    (select : Select)
    → walk_exprs_for_aggregates select.group_by ≡ []
    → aggregates_of (build_row_level_columns select) ≡ []
unfolding build_row_level_columns
build_row_level_columns-plain select h =
    let p = project_group_by select.group_by empty_projection in
    let q = project_columns select.columns p in
    let plain =
      project_columns-IsPlain select.columns p
        (project_group_by-IsPlain select.group_by empty_projection refl h) in
    let last = projection select in
    or_row_marker-plain (add_refs last.refs (used_refs last.columns []) last.columns) (
      add_refs-plain last.refs (used_refs last.columns []) last.columns (
        ap aggregates_of
          (collect_all-columns (walk_having walk_expr_for_aggregates select.having) q)
        ∙ plain))
