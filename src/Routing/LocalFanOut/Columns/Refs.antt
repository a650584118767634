-- ===== src/Routing/LocalFanOut/Columns/Refs.antt =====
-- The references among columns, and the columns that are added for the references that are missing.
use mtdd.Prelude.{
  ◌≡◌, inl, inr, refl, sym, ap, ◌∙◌, Bool, true, false, ◌||◌, List, [], ◌∷◌, ◌++◌, Bool-cases,
}
use mtdd.Js.Text.{Text, text_eq}
use mtdd.Js.Text.Laws.{text_eq_sound}
use mtdd.Js.Map.{has, add}
use mtdd.Routing.LocalFanOut.{Expr, ref, call, binary, unary, subquery, integer, other, Column}
use mtdd.Routing.LocalFanOut.Columns.{used_ref, used_refs, ref_column, add_refs, or_row_marker}
use mtdd.Routing.LocalFanOut.Columns.Mentions.{or_assoc, or_none, has-add}

abbrev pub is_ref : Text → Expr → Bool
is_ref name (ref table column) = text_eq column name
is_ref name _ = false

-- Whether a column is a reference with the name.
unfoldable pub has_ref : Text → List Column → Bool
has_ref name [] = false
has_ref name (c ∷ columns) = is_ref name c.expr || has_ref name columns

module _ (name : Text) where
  pub has_ref-append :
      (xs ys : List Column) → has_ref name (xs ++ ys) ≡ (has_ref name xs || has_ref name ys)
  unfolding has_ref
  has_ref-append [] ys = refl
  has_ref-append (c ∷ xs) ys =
      rw (has_ref-append xs ys)
        (sym (or_assoc (is_ref name c.expr) (has_ref name xs) (has_ref name ys)))

  has-used_ref :
      (e : Expr) (used : List Text)
      → has text_eq name (used_ref e used) ≡ (has text_eq name used || is_ref name e)
  has-used_ref (ref table column) used = has-add name column used
  has-used_ref (call callee args filter orders group) used = sym (or_none (has text_eq name used))
  has-used_ref (binary op left right) used = sym (or_none (has text_eq name used))
  has-used_ref (unary op argument) used = sym (or_none (has text_eq name used))
  has-used_ref (subquery rest) used = sym (or_none (has text_eq name used))
  has-used_ref (integer n) used = sym (or_none (has text_eq name used))
  has-used_ref (other rest) used = sym (or_none (has text_eq name used))

  pub has-used_refs :
      (columns : List Column) (used : List Text)
      → has text_eq name (used_refs columns used) ≡ (has text_eq name used || has_ref name columns)
  unfolding used_refs has_ref
  has-used_refs [] used = sym (or_none (has text_eq name used))
  has-used_refs (c ∷ columns) used =
      rw (has-used_refs columns (used_ref c.expr used), has-used_ref c.expr used)
        (or_assoc (has text_eq name used) (is_ref name c.expr) (has_ref name columns))

  -- a name that is used already
  already :
      (n : Text) (refs : List Text) (b : Bool)
      → has text_eq n refs ≡ true
      → b ≡ has text_eq name refs
      → (b || text_eq n name) ≡ b
  already n refs b h same = elim (Bool-cases (text_eq n name)) [
    | inl e ↦
        let yes : b ≡ true =
          same ∙ (ap (λ k. has text_eq k refs) (sym (text_eq_sound n name e)) ∙ h) in
        rw yes refl
    | inr e ↦ rw e (or_none b)
  ]

  grown :
      (n : Text) (used : List Text)
      → has text_eq n used ≡ false
      → add text_eq n used ≡ used ++ n ∷ []
  unfolding add
  grown n used e = rw e

  pub has_ref-add_refs :
      (refs used : List Text) (columns : List Column)
      → has_ref name columns ≡ has text_eq name used
      → has_ref name (add_refs refs used columns) ≡ (has_ref name columns || has text_eq name refs)
  unfolding add_refs has has_ref
  has_ref-add_refs [] used columns same = sym (or_none (has_ref name columns))
  has_ref-add_refs (n ∷ refs) used columns same = elim (Bool-cases (has text_eq n used)) [
    | inl e ↦
        rw (e, has_ref-add_refs refs used columns same)
          (ap (λ b. b || has text_eq name refs) (sym (already n used (has_ref name columns) e same))
            ∙ or_assoc (has_ref name columns) (text_eq n name) (has text_eq name refs))
    | inr e ↦
        let more : has_ref name (columns ++ ref_column n ∷ [])
            ≡ (has_ref name columns || text_eq n name) =
          has_ref-append columns (ref_column n ∷ [])
          ∙ ap (λ b. has_ref name columns || b) (or_none (text_eq n name)) in
        let kept : has_ref name (columns ++ ref_column n ∷ [])
            ≡ has text_eq name (add text_eq n used) =
          more ∙ (ap (λ b. b || text_eq n name) same ∙ sym (has-add name n used)) in
        rw e (
          has_ref-add_refs refs (used ++ n ∷ []) (columns ++ ref_column n ∷ [])
            (kept ∙ ap (has text_eq name) (grown n used e))
          ∙ (ap (λ b. b || has text_eq name refs) more
              ∙ or_assoc (has_ref name columns) (text_eq n name) (has text_eq name refs)))
  ]

  pub has_ref-or_row_marker :
      (columns : List Column) → has_ref name (or_row_marker columns) ≡ has_ref name columns
  unfolding has_ref
  has_ref-or_row_marker [] = refl
  has_ref-or_row_marker (c ∷ columns) = refl
