-- ===== src/Routing/Executor/Shards/Routed.antt =====
-- The hosts that a query of query-executor.ts contacts, from the state that it starts in.
use mtdd.Prelude.{◌<◌, ◌≡◌, refl, Option, none, some}
use mtdd.Js.Effect.Hoare.{
  Any, Hoare, Hoare-bind, Hoare-get, Hoare-gets, Hoare-seq, Hoare-then, Hoare-if, Hoare-lift-Any,
  Hoare-throw,
}
use mtdd.Routing.Executor.{
  single, write, pinned_client, Pin, SubTarget, no_sub_target, grpc_session, pg_client, Meta,
  Request, Env, State,
}
use mtdd.Routing.Executor.Shard.{session_of}
use mtdd.Routing.Executor.Route.{
  query_pinned, to_sub_target, query_by_pin, query_routed, execute_listen_notify_command,
  execute_routed_query, is_broadcast,
}
use mtdd.Routing.Executor.Shards.{PinIn, IsSound, run_query-IsSound, query_shard-IsSound}
use mtdd.Routing.Executor.Shards.Routes.{
  attach-IsSound, insert-IsSound, call-IsSound, function-IsSound, transaction-IsSound,
  unpinned-IsSound, broadcast-IsSound, route-IsSound, notified-IsSound, after_task,
}

module _ {F R : Type 0} (env : Env F R) (meta : Meta) where
  to-IsSound :
      (p : Pin) (req : Request F R) (t : SubTarget)
      → p.sub_target ≡ t
      → p.host_index < meta.hosts
      → Hoare (IsSound meta.hosts) Any (to_sub_target env p req)
  to-IsSound p req no_sub_target e lt = rw e (Hoare-throw _)
  to-IsSound p req (grpc_session id) e lt = rw e (Hoare-throw _)
  to-IsSound p req pg_client e lt =
      rw e (run_query-IsSound meta.hosts env (pinned_client p.host_index) req lt)

  query_pinned-IsSound :
      (p : Pin) → p.host_index < meta.hosts → Hoare (IsSound meta.hosts) Any (query_pinned env p)
  unfolding query_pinned
  query_pinned-IsSound p lt = Hoare-then (route-IsSound env meta single (some p.host_index)) (
      Hoare-get (λ s. s.req)
        (λ req.
          Hoare-if env.grpc_ready
            (query_shard-IsSound meta.hosts env p.host_index req (session_of (some p)) write lt)
            (to-IsSound p req p.sub_target refl lt)))

  by_pin-IsSound :
      (req : Request F R) (p : Option Pin)
      → PinIn meta.hosts p
      → Hoare (IsSound meta.hosts) Any (query_by_pin env meta req p)
  by_pin-IsSound req none inside = unpinned-IsSound env meta req
  by_pin-IsSound req (some p) lt = query_pinned-IsSound p lt

  query_routed-IsSound : Hoare (IsSound meta.hosts) Any (query_routed env meta)
  query_routed-IsSound =
      Hoare-get (λ s. s.req.tid)
        (λ tid. Hoare-then (insert-IsSound env meta tid) (
          Hoare-then (call-IsSound env meta tid) (
            Hoare-then (function-IsSound env meta tid) (
              Hoare-then (transaction-IsSound env meta) (
                Hoare-get (λ s. s.req)
                  (λ req. Hoare-bind (Hoare-gets (λ s. s.pin) (λ s h. h.pin)) (λ pin inside.
                    Hoare-seq (Hoare-lift-Any _) (λ calls.
                      Hoare-if (is_broadcast env calls tid) (broadcast-IsSound env meta)
                        (by_pin-IsSound req pin inside)))))))))

  notify-IsSound : Hoare (IsSound meta.hosts) Any (execute_listen_notify_command env)
  notify-IsSound =
      Hoare-get (λ s. s.log)
        (λ before.
          Hoare-get (λ s. s.req.text)
            (λ text. Hoare-then (notified-IsSound env meta text) (Hoare-lift-Any _)))

  execute-Hoare : Hoare (IsSound meta.hosts) Any (execute_routed_query env (some meta))
  unfolding execute_routed_query
  execute-Hoare =
      Hoare-get (λ s. s.req)
        (λ req. Hoare-then (attach-IsSound env meta) (
          Hoare-get (λ s. s.req)
            (λ classified.
              Hoare-seq (Hoare-lift-Any _)
                (λ notifies. Hoare-if notifies notify-IsSound query_routed-IsSound))))

  -- Whatever the statement, its tid and the answers of the environment are, and whether the query
  -- returns or throws: every host that it contacts, by the lookup, by a fan-out or through the pin,
  -- is a host of the target, and so is the host that the target is pinned to afterwards.
  pub execute-IsSound :
      (s : State F R)
      → IsSound meta.hosts s
      → IsSound meta.hosts (execute_routed_query env (some meta) s).1
  execute-IsSound s h =
      after_task meta.hosts (λ _. execute_routed_query env (some meta))
        (execute_routed_query env (some meta) s) (execute-Hoare.at s h)
