-- ===== src/Routing/Merge.antt =====
-- merge-results.ts: one result from the results of the shards. Fields and rows are not looked into.
pub mod Laws
use mtdd.Prelude.{ℕ, ◌+◌, Bool, true, false, List, [], ◌∷◌, ◌++◌, Option, none, some, if◌then◌else◌}
use mtdd.Js.Text.{Text, codes}
use mtdd.Js.Buffer.{JsError, error}
use mtdd.Js.Effect.{Result, ok, err}
use mtdd.Routing.Parse.{CommandType, select, insert, update, delete, call, function, Classification}

-- A result of the library pg. `none` is a property that is missing, null, or, of `row_count`, not
-- a number.
pub record QueryResult (F R : Type 0) : Type 0 where
  pub command : Option Text
  pub row_count : Option ℕ
  pub oid : Option ℕ
  pub fields : Option (List F)
  pub rows : Option (List R)

-- `a ?? b`, and `xs ? [...xs] : []` for lists
abbrev pub or_else : {A : Type 0} → Option A → A → A
or_else none d = d
or_else (some a) d = a

module _ {F R : Type 0} where
  abbrev pub counted : QueryResult F R → ℕ
  counted r = or_else r.row_count 0

  abbrev pub rows_of : QueryResult F R → List R
  rows_of r = or_else r.rows []

  unfoldable pub sum_row_count : List (QueryResult F R) → ℕ
  sum_row_count [] = 0
  sum_row_count (r ∷ rs) = counted r + sum_row_count rs

  unfoldable pub all_rows : List (QueryResult F R) → List R
  all_rows [] = []
  all_rows (r ∷ rs) = rows_of r ++ all_rows rs

  abbrev first_fields : List (QueryResult F R) → List F
  first_fields [] = []
  first_fields (r ∷ rs) = or_else r.fields []

  unfoldable first_nonempty : List (QueryResult F R) → List F → List F
  first_nonempty [] first = first
  first_nonempty (r ∷ rs) first = elim (or_else r.fields []) [
    | [] ↦ first_nonempty rs first
    | f ∷ fs ↦ f ∷ fs
  ]

  unfoldable pub pick_fields_from_shards : List (QueryResult F R) → List F
  unfolding first_nonempty
  pick_fields_from_shards results = first_nonempty results (first_fields results)

  abbrev pub no_rows : Text → Option ℕ → ℕ → QueryResult F R
  no_rows command oid n = record {
    command = some command;
    row_count = some n;
    oid = oid;
    fields = some [];
    rows = some [];
  }

  unfoldable pub default_merge_results : List (QueryResult F R) → QueryResult F R
  unfolding sum_row_count all_rows
  default_merge_results [] = no_rows (codes "SELECT") none 0
  default_merge_results (first ∷ rest) = record {
    command = some (or_else first.command (codes "SELECT"));
    row_count = some (sum_row_count (first ∷ rest));
    oid = first.oid;
    fields = some (or_else first.fields []);
    rows = some (all_rows (first ∷ rest));
  }

  unfoldable pub merge_dml_results : List (QueryResult F R) → Text → Bool → QueryResult F R
  unfolding sum_row_count all_rows pick_fields_from_shards
  merge_dml_results [] command has_returning = no_rows command none 0
  merge_dml_results (first ∷ rest) command false =
      no_rows command first.oid (sum_row_count (first ∷ rest))
  merge_dml_results (first ∷ rest) command true = record {
    command = some command;
    row_count = some (sum_row_count (first ∷ rest));
    oid = first.oid;
    fields = some (pick_fields_from_shards (first ∷ rest));
    rows = some (all_rows (first ∷ rest));
  }

  unfoldable pub merge_delete_results : List (QueryResult F R) → Bool → QueryResult F R
  unfolding merge_dml_results
  merge_delete_results results = merge_dml_results results (codes "DELETE")

  unfoldable pub merge_update_results : List (QueryResult F R) → Bool → QueryResult F R
  unfolding merge_dml_results
  merge_update_results results = merge_dml_results results (codes "UPDATE")

  -- `asked` is `req.hasReturning`, the classification is that of `req.text`.
  unfoldable pub merge_fan_out_results :
      Option Bool → Classification → List (QueryResult F R) → Result JsError (QueryResult F R)
  unfolding merge_delete_results merge_update_results default_merge_results
  merge_fan_out_results asked c results = elim c.command_type [
    | delete ↦ ok (merge_delete_results results (or_else asked c.has_returning))
    | update ↦ ok (merge_update_results results (or_else asked c.has_returning))
    | insert ↦ err (
        error (
          codes
            "@advcomm/mtdd: INSERT results must not be merged; route INSERT with tid to a single shard."))
    | call ↦ err (
        error (
          codes
            "@advcomm/mtdd: CALL results must not be merged; route CALL with a tenant tid or tid: null for all shards."))
    | function ↦ err (
        error (
          codes
            "@advcomm/mtdd: stored function results must not be merged; route with a tenant tid to a single shard."))
    | _ ↦ ok (default_merge_results results)
  ]

  unfoldable pub discarded_call_result : QueryResult F R
  discarded_call_result = no_rows (codes "CALL") none 0
