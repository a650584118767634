-- ===== src/Routing/Executor/Tenant.antt =====
-- What a query with the tid of a tenant contacts, of query-executor.ts.
use mtdd.Prelude.{
  ℕ, ◌<◌, ◌≤◌, ◌≡◌, refl, sym, subst, ltb, ltb→lt, Bool, true, false, List, ◌∷◌, Option, none, some,
  Bool-cases, Option-cases, inl, inr, if◌then◌else◌, arith,
}
use mtdd.Prelude.Int.{pos}
use mtdd.Proxy.Lookup.{integer}
use mtdd.Js.Text.{Text}
use mtdd.Js.Buffer.{JsError}
use mtdd.Js.Effect.{ok, ◌>>=◌}
use mtdd.Routing.Parse.{select, Classification, is_listen_notify_command_type}
use mtdd.Routing.Cache.Transparency.{classification}
use mtdd.Routing.Executor.{
  tenant, single, TargetKind, pool, client, checkout, Role, sub_pool, sub_client, pinned_client,
  grpc, Event, looked_up, connected, queried, Pin, Meta, Request, Env, State, is, is_checkout,
  set_pin,
}
use mtdd.Routing.Executor.Checks.{is_query}
use mtdd.Routing.Executor.Shard.{
  role_of, query_hub, query_native, execute_query_on_shard, query_shard, run_query,
  ensure_checkout_pin,
}
use mtdd.Routing.Executor.Route.{execute_routed_query}
use mtdd.Routing.Executor.Paths.{classified, is_query-classified, execute-on_shard}

module _ {F R : Type 0} (env : Env F R) (kind : TargetKind) (i : ℕ) (role : Role)
    (text : Option Text) (before : List Event) where
  -- the session over the hub: a target that is checked out gets a new one
  abbrev pub session : Option Text
  session = if is_checkout kind then some (env.new_session_id before) else none

  -- A query on the host `i` and nothing else, on each way that there is to a host; none where there
  -- is no connection to it.
  pub data Reaches (after : List Event) : Type 0 where
    over_hub :
        env.grpc_ready ≡ true
        → i < env.grpc_shards
        → after ≡ queried (grpc i role session) text ∷ before
        → Reaches after
    not_in_hub : env.grpc_ready ≡ true → env.grpc_shards ≤ i → after ≡ before → Reaches after
    to_pool :
        env.grpc_ready ≡ false
        → kind ≡ pool
        → after ≡ queried (sub_pool i role) text ∷ before
        → Reaches after
    to_client :
        env.grpc_ready ≡ false
        → kind ≡ client
        → after ≡ queried (sub_client i role) text ∷ before
        → Reaches after
    checked_out :
        env.grpc_ready ≡ false
        → kind ≡ checkout
        → env.connect before i ≡ none
        → after ≡ queried (pinned_client i) text ∷ connected i ∷ before
        → Reaches after
    not_connected :
        (e : JsError)
        → env.grpc_ready ≡ false
        → kind ≡ checkout
        → env.connect before i ≡ some e
        → after ≡ before
        → Reaches after

module _ {F R : Type 0} (env : Env F R) (i : ℕ) (role : Role) (req : Request F R) (q : Request F R)
    (log : List Event) where
  abbrev unpinned : State F R
  unpinned = record { pin = none; req = q; log = log }

  not_below : (a b : ℕ) → ltb a b ≡ false → b ≤ a
  not_below a b h = ground arith

  hub_lem :
      (kind : TargetKind)
      → env.grpc_ready ≡ true
      → Reaches env kind i role req.text log (query_hub env kind true i req role unpinned).1.log
  unfolding query_shard run_query ensure_checkout_pin ◌>>=◌
  hub_lem pool ready = elim (Bool-cases (ltb i env.grpc_shards)) [
    | inl e ↦ over_hub ready (ltb→lt i env.grpc_shards e) (rw e refl)
    | inr e ↦ not_in_hub ready (not_below i env.grpc_shards e) (rw e refl)
  ]
  hub_lem client ready = elim (Bool-cases (ltb i env.grpc_shards)) [
    | inl e ↦ over_hub ready (ltb→lt i env.grpc_shards e) (rw e refl)
    | inr e ↦ not_in_hub ready (not_below i env.grpc_shards e) (rw e refl)
  ]
  hub_lem checkout ready = elim (Bool-cases (ltb i env.grpc_shards)) [
    | inl e ↦ over_hub ready (ltb→lt i env.grpc_shards e) (rw e refl)
    | inr e ↦ not_in_hub ready (not_below i env.grpc_shards e) (rw e refl)
  ]

  native_lem :
      (kind : TargetKind)
      → env.grpc_ready ≡ false
      → Reaches env kind i role req.text log (query_native env kind true i req role unpinned).1.log
  unfolding run_query set_pin ◌>>=◌
  native_lem pool idle = to_pool idle refl refl
  native_lem client idle = to_client idle refl refl
  native_lem checkout idle = elim (Option-cases (env.connect log i)) [
    | inl none_left ↦ checked_out idle refl none_left (rw none_left refl)
    | inr (e, failed) ↦ not_connected e idle refl failed (rw failed refl)
  ]

  ready_lem :
      (kind : TargetKind) (b : Bool)
      → env.grpc_ready ≡ b
      → Reaches env kind i role req.text log
          ((if b then query_hub env kind true i req role else query_native env kind true i req role)
            unpinned).1.log
  ready_lem kind true e = hub_lem kind e
  ready_lem kind false e = native_lem kind e

module _ {F R : Type 0} (env : Env F R) (meta : Meta) (i : ℕ) (req q : Request F R)
    (log : List Event) where
  shard_lem :
      (b : Bool)
      → is_query env select req ≡ ok b
      → Reaches env meta.kind i
          (role_of env b)
          req.text
          log
          (execute_query_on_shard env meta true i req
            (unpinned env i (role_of env b) req q log)).1.log
  unfolding execute_query_on_shard ◌>>=◌
  shard_lem b known =
      let start = unpinned env i (role_of env b) req q log in
      let chosen =
        if env.grpc_ready
        then query_hub env meta.kind true i req (role_of env b)
        else query_native env meta.kind true i req (role_of env b) in
      let same : (execute_query_on_shard env meta true i req start).1.log ≡ (chosen start).1.log =
        rw known refl in
      subst (Reaches env meta.kind i (role_of env b) req.text log) (sym same)
        (ready_lem env i (role_of env b) req q log meta.kind env.grpc_ready refl)

module _ {F R : Type 0} (env : Env F R) (meta : Meta) (s : State F R) {c : Classification}
    (known : classification env.parse s.req.text ≡ ok c)
    (sql : is_listen_notify_command_type c.command_type ≡ false) (ch : ℕ) (t : Text)
    (own : s.req.tid ≡ tenant (ch ∷ t)) where
  abbrev sent : ℕ → Request F R
  sent i = record (classified c s.req) { routing = some single; host_index = some i }

  reached :
      (i : ℕ) (pin : Option Pin)
      → pin ≡ none
      → Reaches env meta.kind i
          (role_of env (is c.command_type select))
          s.req.text
          (looked_up s.req.tid ∷ s.log)
          (execute_query_on_shard env meta true i
            (sent i)
            (record { pin = pin; req = sent i; log = looked_up s.req.tid ∷ s.log })).1.log
  reached i pin e =
      subst
        (λ p.
          Reaches env meta.kind i (role_of env (is c.command_type select)) s.req.text
            (looked_up s.req.tid ∷ s.log)
            (execute_query_on_shard env meta true i (sent i)
              (record { pin = p; req = sent i; log = looked_up s.req.tid ∷ s.log })).1.log)
        (sym e)
        (shard_lem env meta i (sent i) (sent i) (looked_up s.req.tid ∷ s.log)
          (is c.command_type select)
          (is_query-classified env
            (record s { req = record s.req { routing = some single; host_index = some i } }) known
            select))

  -- A statement that is classified, is no LISTEN, UNLISTEN or NOTIFY and carries the tid of a tenant,
  -- on a target that is not pinned, is looked up once by this tid. If the lookup names a host `i` of
  -- the target, the statement is then sent once to the host `i` and to no other, be it a SELECT, for
  -- the role that reads, or a write: to the service of the host, if the hub is ready and has it; else
  -- to the pool, the client, or the client that is checked out, of the host. Nothing is sent where
  -- the hub does not have the host or the connection to it fails.
  pub execute-Reaches :
      (i : ℕ)
      → s.pin ≡ none
      → env.resolve s.log s.req.tid ≡ ok (integer (pos i))
      → i < meta.hosts
      → Reaches env meta.kind i
          (role_of env (is c.command_type select))
          s.req.text
          (looked_up s.req.tid ∷ s.log)
          (execute_routed_query env (some meta) s).1.log
  execute-Reaches i free h lt =
      subst
        (λ r.
          Reaches env meta.kind i (role_of env (is c.command_type select)) s.req.text
            (looked_up s.req.tid ∷ s.log) r.1.log)
        (sym (execute-on_shard env meta s known sql ch t own i free h lt)) (reached i s.pin free)
