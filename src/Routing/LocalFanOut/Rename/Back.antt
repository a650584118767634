-- ===== src/Routing/LocalFanOut/Rename/Back.antt =====
-- A renamed table can be renamed back.
use mtdd.Prelude.{
  ℕ, ◌≡◌, refl, sym, ap, ◌∙◌, subst, Option-cases, inl, inr, Bool, true, false, List, [], ◌∷◌,
  Option, none, some, if◌then◌else◌,
}
use mtdd.Js.Text.{Text}
use mtdd.Js.Text.Laws.{text_eq_sound, text_eq_self}
use mtdd.Routing.LocalFanOut.{
  TableName, plain, qualified, unnamed, From, table, other_from, Statement, select_stmt, with_stmt,
  other_stmt, table_name,
}
use mtdd.Routing.LocalFanOut.Rename.{
  renamed, is_named, rename_from, with_from, again_with, replace_primary_table_name,
}

named : (o : Option Text) (from_name : Text) → is_named o from_name ≡ true → o ≡ some from_name
named none from_name h = cc
named (some name) from_name h = ap some (text_eq_sound name from_name h)

some_same : {A : Type 0} {a b : A} → some a ≡ some b → a ≡ b
some_same h = cc

nothing : {A : Type 0} (a : A) → none ≡ some a → ⊥
nothing a h = cc

if_some :
    {A : Type 0} (b : Bool) (a after : A)
    → (if b then some a else none) ≡ some after
    → (b ≡ true) × (a ≡ after)
if_some true a after h = (refl, cc)
if_some false a after h = cc

module _ (from_name to_name : Text) (c : ℕ) (name : Text) (to : to_name ≡ c ∷ name) where
  rename_back :
      (n : TableName) (rest : Text)
      → table_name n ≡ some from_name
      → rename_from to_name from_name (table (renamed n to_name) rest ∷ [])
        ≡ some (table n rest ∷ [])
  rename_back (plain []) rest h = cc
  rename_back (plain (d ∷ n)) rest h =
      let same : d ∷ n ≡ from_name = cc in rw (to, text_eq_self (c ∷ name), same)
  rename_back (qualified n more) rest h =
      let same : n ≡ from_name = cc in rw (text_eq_self to_name, same)
  rename_back unnamed rest h = cc

  from_back :
      (from after : List From)
      → rename_from from_name to_name from ≡ some after
      → rename_from to_name from_name after ≡ some from
  from_back [] after h = cc
  from_back (other_from rest ∷ from) after h = cc
  from_back (table n rest ∷ f ∷ from) after h = cc
  from_back (table n rest ∷ []) after h =
      let found = if_some (is_named (table_name n) from_name) _ after h in
      subst (λ a. rename_from to_name from_name a ≡ some (table n rest ∷ [])) found.1
        (rename_back n rest (named (table_name n) from_name found.0))

  -- Renaming the table of a statement, to a name that is not empty, and renaming it back gives the
  -- statement, with all that is around its name.
  pub replace_primary_table_name_back :
      (statement after : Statement)
      → replace_primary_table_name from_name to_name statement ≡ some after
      → replace_primary_table_name to_name from_name after ≡ some statement
  unfolding replace_primary_table_name
  replace_primary_table_name_back other_stmt after h = cc
  replace_primary_table_name_back (select_stmt select) after h =
      elim (Option-cases (rename_from from_name to_name select.from)) [
        | inl e ↦ absurd (nothing after (sym (ap (with_from select) e) ∙ h))
        | inr (from, e) ↦
            let same : select_stmt (record select { from = from }) ≡ after =
              some_same (sym (ap (with_from select) e) ∙ h) in
            subst (λ a. replace_primary_table_name to_name from_name a ≡ some (select_stmt select))
              same (ap (with_from (record select { from = from })) (from_back select.from from e))
      ]
  replace_primary_table_name_back (with_stmt rest statement) after h =
      elim (Option-cases (replace_primary_table_name from_name to_name statement)) [
        | inl e ↦ absurd (nothing after (sym (ap (again_with rest) e) ∙ h))
        | inr (inner, e) ↦
            let same : with_stmt rest inner ≡ after =
              some_same (sym (ap (again_with rest) e) ∙ h) in
            subst
              (λ a.
                replace_primary_table_name to_name from_name a ≡ some (with_stmt rest statement))
              same (ap (again_with rest) (replace_primary_table_name_back statement inner e))
      ]
