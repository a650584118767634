-- ===== src/Routing/Executor/Examples.antt =====
-- Queries of query-executor.ts on two hosts, with an environment that answers with a fixed row.
use mtdd.Prelude.{
  ℕ, ◌↔◌, ◌≡◌, refl, Bool, true, false, List, [], ◌∷◌, map, Option, none, some, arith,
}
use mtdd.Prelude.Int.{pos}
use mtdd.Proxy.Lookup.{integer}
use mtdd.Js.Text.{Text, codes, trim, text_eq}
use mtdd.Js.Regex.{test}
use mtdd.Js.Buffer.{JsError, error}
use mtdd.Js.Effect.{Result, ok, err}
use mtdd.Routing.Parse.{
  insert_stmt, update_stmt, Parser, plain, select, insert, update, compute_classification,
  is_listen_notify_command_type, parse_listen_notify_statement, unlisten_star_pattern,
  listen_pattern, unlisten_pattern, notify_pattern, is_call_statement_text, classify_from_ast,
}
use mtdd.Routing.Cache.{Memory, Shared, classify_query, classify_query_async}
use mtdd.Routing.Cache.Transparency.{
  classification, classify_query-Gives, classify_query_async-Gives, IsCache, Gives, IsRight,
}
use mtdd.Routing.Merge.{QueryResult, default_merge_results, merge_fan_out_results}
use mtdd.Routing.Merge.Laws.{IsRouted, IsMerged, merge_fan_out_results-IsMerged}
use mtdd.Routing.FanOut.{all, best_effort, outcome}
use mtdd.Routing.FanOut.Laws.{outcome_iff}
use mtdd.Routing.Executor.{
  Tid, absent, tenant, pool, sub_pool, grpc, write, looked_up, queried, Pin, grpc_session, Meta,
  Request, Env, State, insert_message,
}
use mtdd.Routing.Executor.Route.{execute_routed_query, fan_out_only}
use mtdd.Routing.Executor.Checks.{is_query}
use mtdd.Routing.Executor.EveryHost.{fan_out_only-asked}
use mtdd.Routing.Executor.Paths.{execute-pinned, attached}
use mtdd.Routing.Executor.Tenant.{Reaches, execute-Reaches}
use mtdd.Routing.Executor.Refusals.{execute-without_tid}
use mtdd.Routing.Executor.Shards.{IsSound}
use mtdd.Routing.Executor.Shards.Routed.{execute-IsSound}

abbrev Answer : Type 0
Answer = QueryResult Text Text

-- a row of one shard
abbrev one_row : Text → Answer
one_row t = record {
  command = some (codes "SELECT");
  row_count = some 1;
  oid = none;
  fields = some (codes "name" ∷ []);
  rows = some (t ∷ []);
}

-- every text parses to an UPDATE, or to an INSERT
abbrev updates : Parser
updates text = ok (update_stmt none ∷ [])

abbrev inserts : Parser
inserts text = ok (insert_stmt none ∷ [])

abbrev env_of : Parser → Bool → Env Text Text
env_of parse hub = record {
  parse = parse;
  policy = ok all;
  grpc_ready = hub;
  grpc_shards = 2;
  new_session_id = λ log. codes "id";
  resolve = λ log tid. ok (integer (pos 1));
  connect = λ log i. none;
  answer = λ log endpoint text. ok (one_row (codes "a"));
  split = λ text. ok none;
  merge_locally = λ log text results. ok (default_merge_results results);
  listen_notify = λ log text. err (error (codes "unused"));
}

abbrev two_hosts : Meta
two_hosts = record { kind = pool; hosts = 2 }

abbrev sql : Text
sql = codes "x"

abbrev request : Tid → Request Text Text
request tid = record {
  text = some sql;
  first_arg = none;
  tid = tid;
  command_type = none;
  has_returning = none;
  routing = none;
  host_index = none;
  shard_results = [];
  local_merge = false;
  fan_out_sql = none;
}

abbrev start : Option Pin → Tid → State Text Text
start pin tid = record { pin = pin; req = request tid; log = [] }

abbrev pin_0 : Pin
pin_0 = record { host_index = 0; sub_target = grpc_session (codes "id") }

abbrev acme : Text
acme = codes "acme"

-- An UPDATE without a tid goes to all hosts, and the counts are added.
updated_all :
    (execute_routed_query (env_of updates false) (some two_hosts) (start none absent)).1.log
    ≡ queried (sub_pool 1 write) (some sql) ∷ queried (sub_pool 0 write) (some sql) ∷ []
unfolding execute_routed_query trim compute_classification parse_listen_notify_statement test
    unlisten_star_pattern listen_pattern unlisten_pattern notify_pattern is_call_statement_text
    classify_from_ast text_eq
updated_all = refl

is_update : classification updates (some sql) ≡ ok (plain update)
unfolding classification trim compute_classification parse_listen_notify_statement test
    unlisten_star_pattern listen_pattern unlisten_pattern notify_pattern is_call_statement_text
    classify_from_ast text_eq
is_update = refl

is_insert : classification inserts (some sql) ≡ ok (plain insert)
unfolding classification trim compute_classification parse_listen_notify_statement test
    unlisten_star_pattern listen_pattern unlisten_pattern notify_pattern is_call_statement_text
    classify_from_ast text_eq
is_insert = refl

computed_update : compute_classification updates sql ≡ ok (plain update)
unfolding trim compute_classification parse_listen_notify_statement test unlisten_star_pattern
    listen_pattern unlisten_pattern notify_pattern is_call_statement_text classify_from_ast text_eq
computed_update = refl

-- over the hub, to the service of the host that the lookup names
execute-Reaches_example :
    Reaches
      (env_of updates true)
      pool
      1
      write
      (some sql)
      (looked_up (tenant acme) ∷ [])
      (execute_routed_query (env_of updates true) (some two_hosts) (start none (tenant acme))).1.log
unfolding is_listen_notify_command_type
execute-Reaches_example =
    execute-Reaches (env_of updates true) two_hosts (start none (tenant acme)) {c = plain update}
      is_update refl b'a' (codes "cme") refl 1 refl refl (omega arith)

execute-pinned_example :
    (execute_routed_query
      (env_of updates true)
      (some two_hosts)
      (start (some pin_0) (tenant acme))).1.log
    ≡ queried (grpc 0 write (some (codes "id"))) (some sql) ∷ []
unfolding is_listen_notify_command_type
execute-pinned_example =
    execute-pinned (env_of updates true) two_hosts (start (some pin_0) (tenant acme))
      {c = plain update} is_update refl b'a' (codes "cme") refl pin_0 refl refl (omega arith)

execute-without_tid_example :
    execute_routed_query (env_of inserts true) (some two_hosts) (start (some pin_0) absent) ≡ (
      err (error insert_message),
      attached (env_of inserts true) (plain insert) (start (some pin_0) absent),
    )
execute-without_tid_example =
    execute-without_tid (env_of inserts true) two_hosts (start (some pin_0) absent) (plain insert)
      is_insert refl refl

start-IsSound : IsSound 2 (start (some pin_0) (tenant acme))
start-IsSound = record { log = tt; pin = omega arith }

execute-IsSound_example :
    IsSound 2
      (execute_routed_query
        (env_of updates false)
        (some two_hosts)
        (start (some pin_0) (tenant acme))).1
execute-IsSound_example =
    execute-IsSound (env_of updates false) two_hosts (start (some pin_0) (tenant acme))
      start-IsSound

-- two tasks, and what they return
abbrev values : List ℕ
values = 1 ∷ 2 ∷ []

abbrev settled : List (Result JsError ℕ)
settled = ok 1 ∷ ok 2 ∷ []

outcome_iff_example : (outcome best_effort settled ≡ ok values) ↔ (settled ≡ map ok values)
outcome_iff_example = outcome_iff best_effort settled values

abbrev two_rows : List Answer
two_rows = one_row (codes "a") ∷ one_row (codes "b") ∷ []

merged_lem :
    merge_fan_out_results none (plain select) two_rows ≡ ok (default_merge_results two_rows)
unfolding merge_fan_out_results
merged_lem = refl

merge_fan_out_results-IsMerged_example :
    (¬ IsRouted select) × IsMerged true two_rows (default_merge_results two_rows)
merge_fan_out_results-IsMerged_example =
    merge_fan_out_results-IsMerged none (plain select) two_rows (default_merge_results two_rows)
      merged_lem

abbrev memory : Memory
memory = (sql, plain update) ∷ []

memory-IsCache : IsCache updates memory
memory-IsCache = ((computed_update, tt), omega arith)

classify_query-Gives_example :
    Gives updates (classification updates (some sql)) (classify_query updates (some sql) memory)
classify_query-Gives_example = classify_query-Gives updates (some sql) memory memory-IsCache

-- a shared cache that cannot be reached
abbrev broken : Shared
broken text = err (error (codes "connection refused"))

broken-IsRight : IsRight updates broken
broken-IsRight text c h = cc

classify_query_async-Gives_example :
    Gives updates
      (classification updates (some acme))
      (classify_query_async updates broken (some acme) memory)
classify_query_async-Gives_example =
    classify_query_async-Gives updates broken (some acme) memory broken-IsRight memory-IsCache

not_select : is_query (env_of updates false) select (request absent) ≡ ok false
unfolding is_query classification trim compute_classification parse_listen_notify_statement test
    unlisten_star_pattern listen_pattern unlisten_pattern notify_pattern is_call_statement_text
    classify_from_ast text_eq
not_select = refl

fan_out_only-asked_example :
    (fan_out_only (env_of updates false) (some two_hosts) (start none absent)).1.log
    ≡ queried (sub_pool 1 write) (some sql) ∷ queried (sub_pool 0 write) (some sql) ∷ []
fan_out_only-asked_example =
    fan_out_only-asked (env_of updates false) two_hosts refl refl (start none absent) all false refl
      not_select
