-- ===== src/Routing/Local/Examples.antt =====
-- A fan-out of SELECT rank() OVER () FROM t, which is refused.
use mtdd.Prelude.{true, false, [], ◌∷◌, none, some}
use mtdd.Prelude.Int.{pos}
use mtdd.Js.Text.{Text, codes}
use mtdd.Js.Buffer.{error}
use mtdd.Js.Effect.{ok, err}
use mtdd.Proxy.Lookup.{integer}
use mtdd.Routing.Parse.{select}
use mtdd.Routing.FanOut.{all}
use mtdd.Routing.Merge.{QueryResult, no_rows}
use mtdd.Routing.Executor.{Env, State, Meta, Request, absent, pool}
use mtdd.Routing.LocalFanOut.{
  Expr, Callee, call, nil, absent as missing, unordered, ungrouped, Select, Statement, select_stmt,
  plain, table,
}
use mtdd.Routing.LocalMerge.{Field, Row}
use mtdd.Routing.Local.{Local}

abbrev rank_callee : Callee
rank_callee = record { function = codes "rank"; over = some (codes "{}"); rest = [] }

abbrev rank : Expr
rank = call rank_callee nil missing unordered ungrouped

abbrev ranked : Select
ranked = record {
  columns = record { expr = rank; alias = none } ∷ [];
  from = table (plain (codes "t")) [] ∷ [];
  group_by = nil;
  having = none;
  order_by = unordered;
  limit = none;
  rest = [];
}

abbrev nothing : QueryResult Field Row
nothing = no_rows (codes "SELECT") none 0

abbrev local : Local
local = record {
  parse = λ text. ok (select_stmt ranked ∷ []);
  to_sql = λ statement. [];
  values = [];
  thresholds = record { copy = ok 1000; unnest = ok 100; index = ok 5000 };
  random = λ log. codes "0a1b2c3d";
  connect = λ log. none;
  reply = λ log calls c. ok nothing;
}

abbrev env : Env Field Row
env = record {
  parse = λ text. err (error (codes "no parser"));
  policy = ok all;
  grpc_ready = true;
  grpc_shards = 2;
  new_session_id = λ log. codes "s";
  resolve = λ log tid. ok (integer (pos 1));
  connect = λ log i. none;
  answer = λ log e text. ok nothing;
  split = λ text. ok none;
  merge_locally = λ log text results. ok nothing;
  listen_notify = λ log text. ok nothing;
}

abbrev meta : Meta
meta = record { kind = pool; hosts = 2 }

abbrev start : State Field Row
start = record {
  pin = none;
  req = record {
    text = some (codes "Q");
    first_arg = none;
    tid = absent;
    command_type = some select;
    has_returning = some false;
    routing = none;
    host_index = none;
    shard_results = [];
    local_merge = false;
    fan_out_sql = none;
  };
  log = [];
}
