-- ===== src/Routing/Executor.antt =====
-- query-executor.ts: the target of a query, the request, the environment, and the tests of them.
-- Checks has the assertions, Shard the query on one shard, Route the routing. Statements are
-- classified without the caches, which Cache has.
pub mod Checks
pub mod Shard
pub mod Route
pub mod Paths
pub mod Tenant
pub mod EveryHost
pub mod Refusals
pub mod Shards
mod Examples
use mtdd.Prelude.{
  ℕ, suc, Bool, true, false, not, ◌&&◌, ◌||◌, List, [], ◌∷◌, ◌++◌, map, Option, none, some, leb,
  ltb, ◌==◌, ◌-◌, if◌then◌else◌,
}
use mtdd.Prelude.Int.{ℤ, pos, negsuc}
use mtdd.Js.Text.{Text, codes, text_eq, trim, decimal}
use mtdd.Js.Regex.{upper}
use mtdd.Js.Buffer.{JsError, error, show_ℤ}
use mtdd.Js.Effect.{Result, ok, err, Effect, pure, throw, lift, gets, modify, ◌>>=◌, ◌>>◌}
use mtdd.Routing.Parse.{
  CommandType, select, insert, update, delete, call, function, listen, unlisten, notify, unknown,
  Classification, Parser, is_listen_notify_command_type,
}
use mtdd.Routing.Cache.Transparency.{classification}
use mtdd.Routing.Merge.{QueryResult, or_else}
use mtdd.Routing.FanOut.{FanOutPolicy}
use mtdd.Proxy.Lookup.{HostIndex, not_an_integer, integer}

-- `req.tid`: undefined, null, or a text
pub data Tid : Type 0 where
  absent all_shards : Tid
  tenant : Text → Tid

pub data TargetKind : Type 0 where
  pool client checkout : TargetKind

pub data Role : Type 0 where
  read write : Role

pub data Way : Type 0 where
  single broadcast fan_out : Way

-- Where a query goes: to the target itself, to the pool or the client of a host, to the checked-out
-- client of a host, or to the service of a host, with the session.
pub data Endpoint : Type 0 where
  own : Endpoint
  sub_pool sub_client : ℕ → Role → Endpoint
  pinned_client : ℕ → Endpoint
  grpc : ℕ → Role → Option Text → Endpoint

pub data Event : Type 0 where
  looked_up : Tid → Event
  connected : ℕ → Event
  queried : Endpoint → Option Text → Event
  notified : Option Text → Event

pub data SubTarget : Type 0 where
  no_sub_target : SubTarget
  grpc_session : Text → SubTarget
  pg_client : SubTarget

pub record Pin : Type 0 where
  pub host_index : ℕ
  pub sub_target : SubTarget

-- What the executor reads of the hosts is their number.
pub record Meta : Type 0 where
  pub kind : TargetKind
  pub hosts : ℕ

-- The properties of `req` that are read or set, `first_arg` for `rawArgs[0]`. `none` is undefined.
pub record Request (F R : Type 0) : Type 0 where
  pub text : Option Text
  pub first_arg : Option Text
  pub tid : Tid
  pub command_type : Option CommandType
  pub has_returning : Option Bool
  pub routing : Option Way
  pub host_index : Option ℕ
  pub shard_results : List (QueryResult F R)
  pub local_merge : Bool
  pub fan_out_sql : Option Text

-- What is not modelled, and the rest of the program: `resolve` is the index that the cache or the
-- lookup gives, `split` the text for the shards where a SELECT is merged locally, `grpc_shards` the
-- number of connections of the hub. The answers may depend on all that happened before.
pub record Env (F R : Type 0) : Type 0 where
  pub parse : Parser
  pub policy : Result JsError FanOutPolicy
  pub grpc_ready : Bool
  pub grpc_shards : ℕ
  pub new_session_id : List Event → Text
  pub resolve : List Event → Tid → Result JsError HostIndex
  pub connect : List Event → ℕ → Option JsError
  pub answer : List Event → Endpoint → Option Text → Result JsError (QueryResult F R)
  pub split : Option Text → Result JsError (Option Text)
  pub merge_locally :
      List Event → Option Text → List (QueryResult F R) → Result JsError (QueryResult F R)
  pub listen_notify : List Event → Option Text → Result JsError (QueryResult F R)

-- The target's pin, the request, and what happened, the last event first.
pub record State (F R : Type 0) : Type 0 where
  pub pin : Option Pin
  pub req : Request F R
  pub log : List Event

abbrev number : CommandType → ℕ
number select = 0
number insert = 1
number update = 2
number delete = 3
number call = 4
number function = 5
number listen = 6
number unlisten = 7
number notify = 8
number unknown = 9

-- `commandType === …`
abbrev pub is : CommandType → CommandType → Bool
is c d = number c == number d

abbrev pub is_absent : Tid → Bool
is_absent absent = true
is_absent _ = false

unfoldable pub has_tenant_tid : Tid → Bool
has_tenant_tid (tenant t) = true
has_tenant_tid _ = false

-- `!req.tid`
abbrev pub is_falsy : Tid → Bool
is_falsy (tenant (c ∷ t)) = false
is_falsy _ = true

-- `toUpperCase` where the result is one of the letters of BEGIN
abbrev pub upper_case : ℕ → ℕ
upper_case c = if c == 0x131 then b'I' else upper c

abbrev pub is_checkout : TargetKind → Bool
is_checkout checkout = true
is_checkout _ = false

abbrev pub insert_message : Text
insert_message =
    codes "@advcomm/mtdd: INSERT requires tid so the lookup server can route to a single shard."

abbrev pub call_message : Text
call_message =
    codes
      "@advcomm/mtdd: CALL requires a tenant tid for shard routing, or tid: null to run on all shards."

abbrev pub function_message : Text
function_message =
    codes
      "@advcomm/mtdd: stored function queries require a tenant tid so the lookup server can route to a single shard."

abbrev pub Action : Type 0 → Type 0 → Type 0 → Type 0
Action F R A = Effect (State F R) JsError A

module _ {F R : Type 0} where
  pub emit : Event → Action F R (Unit {0})
  emit e = modify (λ s. record s { log = e ∷ s.log })

  pub set_pin : Pin → Action F R (Unit {0})
  set_pin p = modify (λ s. record s { pin = some p })

  pub set_req : (Request F R → Request F R) → Action F R (Unit {0})
  set_req f = modify (λ s. record s { req = f s.req })
