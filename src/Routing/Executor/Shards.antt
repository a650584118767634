-- ===== src/Routing/Executor/Shards.antt =====
-- The hosts that query-executor.ts contacts.
pub mod Routes
pub mod Routed
use mtdd.Prelude.{
  ℕ, zero, suc, ◌+◌, ◌<◌, ◌≤◌, ◌≡◌, refl, Bool, true, false, ◌&&◌, List, [], ◌∷◌, Option, none,
  some, ltb→lt, ltb, if◌then◌else◌, arith,
}
use mtdd.Prelude.Int.{pos, negsuc}
use mtdd.Proxy.Lookup.{HostIndex, integer, not_an_integer}
use mtdd.Js.Text.{Text}
use mtdd.Js.Buffer.{JsError, error}
use mtdd.Js.Effect.{Result, ok, err, Effect, pure, throw, lift, gets, modify, ◌>>=◌, ◌>>◌}
use mtdd.Js.Effect.Hoare.{
  Returns, Any, Hoare, Hoare-bind, Hoare-get, Hoare-seq, Hoare-then, Hoare-if, Hoare-lift,
  Hoare-lift-Any, Hoare-throw, Hoare-pure-Any, hoare_rules,
}
use mtdd.Routing.Merge.{QueryResult}
use mtdd.Routing.FanOut.{FanOutPolicy, Rejection, outcome, thrown, run_tasks, run_fan_out, settle}
use mtdd.Routing.Executor.{
  Tid, TargetKind, pool, client, checkout, Role, Endpoint, own, sub_pool, sub_client, pinned_client,
  grpc, Event, looked_up, connected, queried, notified, Pin, pg_client, grpc_session, Meta, Request,
  Env, State, is_checkout, emit, set_pin, set_req,
}
use mtdd.Routing.Executor.Checks.{is_query}
use mtdd.Routing.Executor.Shard.{
  assert_host_index, run_query, query_shard, ensure_checkout_pin, pin_unless,
  execute_query_on_shard, or_connected, take_client, query_native, query_hub,
}

abbrev pub EndpointIn : ℕ → Endpoint → Type 0
EndpointIn n own = Unit
EndpointIn n (sub_pool i role) = i < n
EndpointIn n (sub_client i role) = i < n
EndpointIn n (pinned_client i) = i < n
EndpointIn n (grpc i role session) = i < n

-- Every host that is contacted is one of the `n` of the target.
abbrev pub Contacts : ℕ → List Event → Type 0
Contacts n [] = Unit
Contacts n (connected i ∷ log) = (i < n) × Contacts n log
Contacts n (queried endpoint text ∷ log) = EndpointIn n endpoint × Contacts n log
Contacts n (_ ∷ log) = Contacts n log

abbrev pub PinIn : ℕ → Option Pin → Type 0
PinIn n none = Unit
PinIn n (some p) = p.host_index < n

pub record IsSound {F R : Type 0} (n : ℕ) (s : State F R) : Type 0 where
  pub log : Contacts n s.log
  pub pin : PinIn n s.pin

module _ {F R : Type 0} (n : ℕ) where
  pub set_req-IsSound : (f : Request F R → Request F R) → Hoare (IsSound n) Any (set_req f)
  unfolding set_req ◌>>=◌
  set_req-IsSound f = record { at = λ s h. (tt, record { log = h.log; pin = h.pin }) }

  set_pin-IsSound : (p : Pin) → p.host_index < n → Hoare (IsSound {F = F} {R = R} n) Any (set_pin p)
  unfolding set_pin ◌>>=◌
  set_pin-IsSound p lt = record { at = λ s h. (tt, record { log = h.log; pin = lt }) }

  connected-IsSound : (i : ℕ) → i < n → Hoare (IsSound {F = F} {R = R} n) Any (emit (connected i))
  unfolding emit ◌>>=◌
  connected-IsSound i lt = record { at = λ s h. (tt, record { log = (lt, h.log); pin = h.pin }) }

  queried-IsSound :
      (e : Endpoint) (text : Option Text)
      → EndpointIn n e
      → Hoare (IsSound {F = F} {R = R} n) Any (emit (queried e text))
  unfolding emit ◌>>=◌
  queried-IsSound e text inside = record {
    at = λ s h. (tt, record { log = (inside, h.log); pin = h.pin });
  }

  module _ (env : Env F R) where
    pub run_query-IsSound :
        (e : Endpoint) (req : Request F R)
        → EndpointIn n e
        → Hoare (IsSound n) Any (run_query env e req)
    unfolding run_query
    run_query-IsSound e req inside =
        Hoare-get (λ s. s.log)
          (λ before.
            Hoare-then (queried-IsSound e req.text inside)
              (Hoare-lift-Any (env.answer before e req.text)))

    pub query_shard-IsSound :
        (i : ℕ) (req : Request F R) (session : Option Text) (role : Role)
        → i < n
        → Hoare (IsSound n) Any (query_shard env i req session role)
    unfolding query_shard
    query_shard-IsSound i req session role lt =
        Hoare-if (ltb i env.grpc_shards) (run_query-IsSound (grpc i role session) req lt)
          (Hoare-throw _)

    pin_unless-IsSound :
        (p : Option Pin) (i : ℕ) → i < n → Hoare (IsSound n) Any (pin_unless env p i)
    pin_unless-IsSound (some p) i lt = search (hoare_rules)
    pin_unless-IsSound none i lt = Hoare-get (λ s. s.log) (λ before. set_pin-IsSound _ lt)

    or_connected-IsSound :
        (e : Option JsError) (i : ℕ) → i < n → Hoare (IsSound n) Any (or_connected env e i)
    or_connected-IsSound none i lt = connected-IsSound i lt
    or_connected-IsSound (some e) i lt = Hoare-throw e

    take_client-IsSound :
        (target : Bool) (i : ℕ) (req : Request F R)
        → i < n
        → Hoare (IsSound n) Any (take_client env target i req)
    take_client-IsSound target i req lt =
        Hoare-get (λ s. s.log)
          (λ before. Hoare-then (or_connected-IsSound (env.connect before i) i lt) (
            Hoare-if target
              (Hoare-then (set_pin-IsSound _ lt) (run_query-IsSound (pinned_client i) req lt))
              (Hoare-throw _)))

    query_native-IsSound :
        (kind : TargetKind) (target : Bool) (i : ℕ) (req : Request F R) (role : Role)
        → i < n
        → Hoare (IsSound n) Any (query_native env kind target i req role)
    query_native-IsSound pool target i req role lt = run_query-IsSound (sub_pool i role) req lt
    query_native-IsSound client target i req role lt = run_query-IsSound (sub_client i role) req lt
    query_native-IsSound checkout target i req role lt = take_client-IsSound target i req lt

    ensure_checkout_pin-IsSound :
        (i : ℕ) → i < n → Hoare (IsSound n) Any (ensure_checkout_pin env i)
    unfolding ensure_checkout_pin
    ensure_checkout_pin-IsSound i lt = Hoare-get (λ s. s.pin) (λ pin. pin_unless-IsSound pin i lt)

    query_hub-IsSound :
        (kind : TargetKind) (target : Bool) (i : ℕ) (req : Request F R) (role : Role)
        → i < n
        → Hoare (IsSound n) Any (query_hub env kind target i req role)
    query_hub-IsSound kind target i req role lt =
        Hoare-then
          (Hoare-if (target && is_checkout kind) (ensure_checkout_pin-IsSound i lt)
            (Hoare-pure-Any tt))
          (Hoare-get (λ s. s.pin) (λ pin. query_shard-IsSound i req _ role lt))

    pub execute_query_on_shard-IsSound :
        (meta : Meta) (target : Bool) (i : ℕ) (req : Request F R)
        → i < n
        → Hoare (IsSound n) Any (execute_query_on_shard env meta target i req)
    unfolding execute_query_on_shard
    execute_query_on_shard-IsSound meta target i req lt = Hoare-seq (Hoare-lift-Any _) (λ selects.
        Hoare-if env.grpc_ready (query_hub-IsSound meta.kind target i req _ lt)
          (query_native-IsSound meta.kind target i req _ lt))
