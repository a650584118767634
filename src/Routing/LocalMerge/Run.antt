-- ===== src/Routing/LocalMerge/Run.antt =====
-- mergeSelectResultsOnLocalPostgres of postgres-select-merge.ts, with a client of the pool of
-- postgres-local.ts. The parser and the printer of SQL and the random name are parameters.
use mtdd.Prelude.{
  Bool, true, false, ◌&&◌, List, [], ◌∷◌, ◌++◌, map, Option, none, some, leb, if◌then◌else◌, length,
}
use mtdd.Js.Text.{Text, codes, text_eq}
use mtdd.Js.Map.{has}
use mtdd.Js.Buffer.{JsError}
use mtdd.Js.Effect.{Result, pure, throw, lift, modify, ◌>>=◌, ◌>>◌, catch}
use mtdd.Routing.Merge.{QueryResult}
use mtdd.Routing.LocalFanOut.{Orders, unordered, order, Statement}
use mtdd.Routing.LocalFanOut.Rename.{rewrite_query_table_name_ast, order_by_column_names}
use mtdd.Routing.LocalMerge.{
  Field, Value, Row, quote_ident, pg_type_for_field, pick_fields_from_shard_results,
  collect_merged_rows, join,
}
use mtdd.Routing.LocalMerge.Load.{
  value, Call, connected, released, queried, Reply, Action, Thresholds, send,
  load_rows_into_temp_table,
}

abbrev field_names : List Field → List Text
field_names fields = map (λ f. f.name) fields

-- the columns of ORDER BY that are fields
unfoldable pub index_columns : List Text → List Field → List Text
unfolding has text_eq
index_columns [] fields = []
index_columns (column ∷ columns) fields =
    let rest = index_columns columns fields in
    if has text_eq column (field_names fields) then column ∷ rest else rest

abbrev pub create_index : Text → List Text → Text
create_index table columns =
    codes "CREATE INDEX ON "
    ++ (quote_ident table
        ++ (codes " (" ++ (join (codes ", ") (map quote_ident columns) ++ codes ")")))

abbrev pub create_table : Text → List Field → Text
create_table table fields =
    codes "CREATE TEMP TABLE "
    ++ (quote_ident table
        ++ (codes " ("
            ++ (join (codes ", ")
                  (map (λ f. quote_ident f.name ++ (codes " " ++ pg_type_for_field f)) fields)
                ++ codes ") ON COMMIT DROP")))

abbrev pub begin : Call
begin = queried (codes "BEGIN") []

abbrev pub commit : Call
commit = queried (codes "COMMIT") []

abbrev pub rollback : Call
rollback = queried (codes "ROLLBACK") []

abbrev pub is_ordered : Orders → Bool
is_ordered unordered = false
is_ordered (order by rest orders) = true

-- What is merged: the options of the function, and what it calls.
pub record Job : Type 0 where
  pub parse : Text → Result JsError (List Statement)
  pub to_sql : Statement → Text
  pub thresholds : Thresholds
  pub random : Text
  pub temp_table_name : Text
  pub full_text : Text
  pub values : List Value
  pub order_by : Orders

-- `connect` is the error of `pool.connect`, if it fails.
module _ {R : Type 0} (connect : Option JsError) (reply : Reply R) (job : Job) where
  abbrev pub run_sql : Text → Action R
  run_sql sql = send reply (queried sql [])

  abbrev pub index_if_any : Text → List Text → Action (Unit {0})
  index_if_any table [] = pure tt
  index_if_any table (column ∷ columns) = run_sql (create_index table (column ∷ columns)) >> pure tt

  unfoldable pub create_order_by_index : Text → List Field → Action (Unit {0})
  unfolding ◌>>=◌ send index_columns quote_ident order_by_column_names join
  create_order_by_index table fields =
      index_if_any table (index_columns (order_by_column_names job.order_by) fields)

  abbrev pub session_table : Text
  session_table = job.temp_table_name ++ (codes "_mtdd_" ++ job.random)

  -- the body of the `try`: the result of the SELECT and the way of loading
  unfoldable pub in_transaction : List Field → List Row → Action (R × Text)
  unfolding ◌>>=◌ send load_rows_into_temp_table create_order_by_index rewrite_query_table_name_ast
      quote_ident pg_type_for_field join
  in_transaction fields rows = do
    created ← run_sql (create_table session_table fields)
    strategy ← load_rows_into_temp_table reply job.thresholds session_table fields rows
    threshold ← lift job.thresholds.index
    indexed ←
        if leb threshold (length rows) && is_ordered job.order_by
        then create_order_by_index session_table fields
        else pure tt
    local_sql ← lift (
        rewrite_query_table_name_ast job.parse job.to_sql job.full_text job.temp_table_name
          session_table)
    result ← send reply (queried local_sql (map value job.values))
    committed ← run_sql (codes "COMMIT")
    pure (result, strategy)

  -- The error of the ROLLBACK is ignored.
  unfoldable pub roll_back : JsError → Action (R × Text)
  unfolding ◌>>=◌ send catch
  roll_back e = catch (run_sql (codes "ROLLBACK") >> pure tt) (λ ignored. pure tt) >> throw e

  unfoldable pub transaction : List Field → List Row → Action (R × Text)
  unfolding ◌>>=◌ send in_transaction roll_back catch
  transaction fields rows = run_sql (codes "BEGIN") >> catch (in_transaction fields rows) roll_back

  abbrev pub take_client : Option JsError → Action (Unit {0})
  take_client (some e) = throw e
  take_client none = modify (λ log. connected ∷ log)

  -- withLocalPostgresClient: the client is given back whatever the body does
  abbrev pub give_back : {A : Type 0} → Result JsError A × List Call → Result JsError A × List Call
  give_back done = (done.0, released ∷ done.1)

  abbrev pub with_client : {A : Type 0} → Action A → Action A
  with_client body = take_client connect >> λ log. give_back (body log)

  -- the rows, as `some`, or the empty result that is returned without them
  abbrev pub merge_fields : List Field → List Row → Action (Option (R × Text))
  merge_fields [] rows = pure none
  merge_fields (field ∷ fields) rows = do
    done ← with_client (transaction (field ∷ fields) rows)
    pure (some done)

  unfoldable pub merge_select_results_on_local_postgres :
      List (QueryResult Field Row) → Action (Option (R × Text))
  unfolding ◌>>=◌ transaction pick_fields_from_shard_results collect_merged_rows
  merge_select_results_on_local_postgres results =
      merge_fields (pick_fields_from_shard_results results) (collect_merged_rows results)
