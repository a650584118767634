-- ===== src/Routing/Merge/Laws.antt =====
-- What merge-results.ts makes of the results of a fan-out, against the lists of all rows and counts.
use mtdd.Prelude.{
  ℕ, ◌+◌, ◌≡◌, refl, ap, subst, Bool, true, false, List, [], ◌∷◌, ◌++◌, map, Option, none, some,
}
use mathlib.Core.List.{foldr}
use mtdd.Js.Buffer.{JsError}
use mtdd.Js.Effect.{Result, ok}
use mtdd.Routing.Parse.{
  CommandType, select, insert, update, delete, call, function, listen, unlisten, notify, unknown,
  Classification,
}
use mtdd.Routing.Merge.{
  QueryResult, or_else, counted, rows_of, sum_row_count, all_rows, default_merge_results,
  merge_dml_results, merge_delete_results, merge_update_results, merge_fan_out_results,
}

-- UPDATE and DELETE have rows with RETURNING only.
abbrev pub shows_rows : CommandType → Bool → Bool
shows_rows update returning = returning
shows_rows delete returning = returning
shows_rows _ returning = true

-- The statements that are routed to one shard.
abbrev pub IsRouted : CommandType → Type 0
IsRouted insert = Unit
IsRouted call = Unit
IsRouted function = Unit
IsRouted _ = ⊥

module _ {F R : Type 0} where
  -- all rows, those of the first shard first, or none
  abbrev pub shown_rows : Bool → List (QueryResult F R) → List R
  shown_rows true results = foldr ◌++◌ [] (map rows_of results)
  shown_rows false results = []

  abbrev pub first_oid : List (QueryResult F R) → Option ℕ
  first_oid [] = none
  first_oid (first ∷ rest) = first.oid

  -- The count is the sum of the counts, and the rows are all rows, if any are shown.
  pub record IsMerged (shows : Bool) (results : List (QueryResult F R)) (merged : QueryResult F R)
      : Type 0 where
    pub row_count : merged.row_count ≡ some (foldr ◌+◌ 0 (map counted results))
    pub rows : merged.rows ≡ some (shown_rows shows results)
    pub oid : merged.oid ≡ first_oid results

  sum_lem : (rs : List (QueryResult F R)) → sum_row_count rs ≡ foldr ◌+◌ 0 (map counted rs)
  unfolding sum_row_count
  sum_lem [] = refl
  sum_lem (r ∷ rs) = ap (λ n. counted r + n) (sum_lem rs)

  rows_lem : (rs : List (QueryResult F R)) → all_rows rs ≡ foldr ◌++◌ [] (map rows_of rs)
  unfolding all_rows
  rows_lem [] = refl
  rows_lem (r ∷ rs) = ap (λ rows. rows_of r ++ rows) (rows_lem rs)

  default-IsMerged : (rs : List (QueryResult F R)) → IsMerged true rs (default_merge_results rs)
  unfolding default_merge_results
  default-IsMerged [] = record { row_count = refl; rows = refl; oid = refl }
  default-IsMerged (r ∷ rs) = record {
    row_count = ap some (sum_lem (r ∷ rs));
    rows = ap some (rows_lem (r ∷ rs));
    oid = refl;
  }

  module _ (command : mtdd.Js.Text.Text) where
    dml-IsMerged :
        (rs : List (QueryResult F R)) (returning : Bool)
        → IsMerged returning rs (merge_dml_results rs command returning)
    unfolding merge_dml_results
    dml-IsMerged [] true = record { row_count = refl; rows = refl; oid = refl }
    dml-IsMerged [] false = record { row_count = refl; rows = refl; oid = refl }
    dml-IsMerged (r ∷ rs) true = record {
      row_count = ap some (sum_lem (r ∷ rs));
      rows = ap some (rows_lem (r ∷ rs));
      oid = refl;
    }
    dml-IsMerged (r ∷ rs) false = record {
      row_count = ap some (sum_lem (r ∷ rs));
      rows = refl;
      oid = refl;
    }

  ok_same :
      (a b : QueryResult F R) → ◌≡◌ {A = Result JsError (QueryResult F R)} (ok a) (ok b) → a ≡ b
  ok_same a b h = cc

  module _ (asked : Option Bool) (returns : Bool) (rs : List (QueryResult F R))
      (merged : QueryResult F R) where
    abbrev Merges : CommandType → Type 0
    Merges d = (¬ IsRouted d) × IsMerged (shows_rows d (or_else asked returns)) rs merged

    by_default : default_merge_results rs ≡ merged → IsMerged true rs merged
    by_default e = subst (IsMerged true rs) e (default-IsMerged rs)

    abbrev classified : CommandType → Classification
    classified d = record { command_type = d; has_returning = returns }

    merges_lem :
        (d : CommandType) → merge_fan_out_results asked (classified d) rs ≡ ok merged → Merges d
    unfolding merge_fan_out_results merge_delete_results merge_update_results
    merges_lem delete h = (
      λ r. r,
      subst (IsMerged (or_else asked returns) rs) (ok_same _ merged h)
          (dml-IsMerged _ rs (or_else asked returns)),
    )
    merges_lem update h = (
      λ r. r,
      subst (IsMerged (or_else asked returns) rs) (ok_same _ merged h)
          (dml-IsMerged _ rs (or_else asked returns)),
    )
    merges_lem insert h = cc
    merges_lem call h = cc
    merges_lem function h = cc
    merges_lem select h = (λ r. r, by_default (ok_same _ merged h))
    merges_lem listen h = (λ r. r, by_default (ok_same _ merged h))
    merges_lem unlisten h = (λ r. r, by_default (ok_same _ merged h))
    merges_lem notify h = (λ r. r, by_default (ok_same _ merged h))
    merges_lem unknown h = (λ r. r, by_default (ok_same _ merged h))

  -- Results are merged without an error only for a statement that is no INSERT, CALL or stored
  -- function. The count of the merged result is the sum of the counts of the shards, and its rows are
  -- those of all shards, one shard after the other in their order, none lost or doubled; an UPDATE or
  -- DELETE without RETURNING has no rows. The oid is that of the first result.
  pub merge_fan_out_results-IsMerged :
      (asked : Option Bool) (c : Classification) (results : List (QueryResult F R))
      (merged : QueryResult F R)
      → merge_fan_out_results asked c results ≡ ok merged
      → (¬ IsRouted c.command_type)
        × IsMerged (shows_rows c.command_type (or_else asked c.has_returning)) results merged
  merge_fan_out_results-IsMerged asked c results merged h =
      merges_lem asked c.has_returning results merged c.command_type h
