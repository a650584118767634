-- ===== src/Routing/Local.antt =====
-- The executor with its local fan-out: the parameters `split` and `merge_locally` of query-executor.ts
-- are the functions of LocalFanOut and LocalMerge.
pub mod Refused
mod Examples
use mtdd.Prelude.{List, [], ◌∷◌, Option, none, some}
use mtdd.Js.Text.{Text, codes}
use mtdd.Js.Buffer.{JsError, error}
use mtdd.Js.Effect.{Result, ok, err}
use mtdd.Routing.Merge.{QueryResult, no_rows}
use mtdd.Routing.Executor.{Env, Event}
use mtdd.Routing.LocalFanOut.{Statement}
use mtdd.Routing.LocalFanOut.Split.{
  Plan, direct, local_merge, LocalMerge, split_select_for_local_fan_out,
}
use mtdd.Routing.LocalMerge.{Field, Row, Value}
use mtdd.Routing.LocalMerge.Load.{Reply, Thresholds}
use mtdd.Routing.LocalMerge.Run.{Job, merge_select_results_on_local_postgres}

-- The parser and the printer of SQL, `req.values`, and the local PostgreSQL, which may depend on all
-- that the executor did before.
pub record Local : Type 0 where
  pub parse : Text → Result JsError (List Statement)
  pub to_sql : Statement → Text
  pub values : List Value
  pub thresholds : Thresholds
  pub random : List Event → Text
  pub connect : List Event → Option JsError
  pub reply : List Event → Reply (QueryResult Field Row)

abbrev plan_text : Result JsError Plan → Result JsError (Option Text)
plan_text (err e) = err e
plan_text (ok direct) = ok none
plan_text (ok (local_merge m)) = ok (some m.fan_out_text)

-- the text for the shards where the result of splitSelectForLocalFanOut has `needsLocalMerge`
abbrev pub shard_text : Local → Option Text → Result JsError (Option Text)
shard_text local none = ok none
shard_text local (some text) =
    plan_text (split_select_for_local_fan_out local.parse local.to_sql text)

abbrev merged :
    Result JsError (Option (QueryResult Field Row × Text)) → Result JsError (QueryResult Field Row)
merged (err e) = err e
merged (ok none) = ok (no_rows (codes "SELECT") none 0)
merged (ok (some done)) = ok done.0

abbrev merge_plan :
    Local
    → List Event
    → List (QueryResult Field Row)
    → Result JsError Plan
    → Result JsError (QueryResult Field Row)
merge_plan local log results (err e) = err e
-- only what is merged locally comes here
merge_plan local log results (ok direct) = ok (no_rows (codes "SELECT") none 0)
merge_plan local log results (ok (local_merge m)) =
    merged
      (merge_select_results_on_local_postgres (local.connect log) (local.reply log)
        (record {
          parse = local.parse;
          to_sql = local.to_sql;
          thresholds = local.thresholds;
          random = local.random log;
          temp_table_name = m.temp_table_name;
          full_text = m.full_text;
          values = local.values;
          order_by = m.order_by;
        })
        results []).0

abbrev pub merge_text :
    Local
    → List Event
    → Option Text
    → List (QueryResult Field Row)
    → Result JsError (QueryResult Field Row)
merge_text local log none results = ok (no_rows (codes "SELECT") none 0)
merge_text local log (some text) results =
    merge_plan local log results (split_select_for_local_fan_out local.parse local.to_sql text)

unfoldable pub with_local_fan_out : Local → Env Field Row → Env Field Row
unfolding split_select_for_local_fan_out merge_select_results_on_local_postgres
with_local_fan_out local env = record env {
  split = shard_text local;
  merge_locally = merge_text local;
}
