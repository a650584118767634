-- ===== src/Routing/Executor/Shards/Routes.antt =====
-- The hosts that the routing of query-executor.ts contacts, fan-outs included.
use mtdd.Prelude.{
  ℕ, zero, suc, ◌+◌, ◌<◌, ◌≡◌, refl, Bool, true, false, List, Option, none, some, leb, ◌==◌,
  if◌then◌else◌, arith,
}
use mtdd.Prelude.Int.{pos}
use mtdd.Proxy.Lookup.{HostIndex, integer}
use mtdd.Js.Text.{Text}
use mtdd.Js.Buffer.{JsError}
use mtdd.Js.Effect.{Result, ok, err, Effect, ◌>>=◌}
use mtdd.Js.Effect.Hoare.{
  Returns, Any, Hoare, Hoare-bind, Hoare-get, Hoare-seq, Hoare-then, Hoare-if, Hoare-lift,
  Hoare-lift-Any, Hoare-throw, Hoare-pure-Any, hoare_rules,
}
use mtdd.Routing.Parse.{CommandType, select, insert, call, function}
use mtdd.Routing.FanOut.{FanOutPolicy, Rejection, outcome, run_tasks, run_fan_out, settle}
use mtdd.Routing.Executor.{
  Tid, Way, single, looked_up, notified, Pin, Meta, Request, Env, State, emit, is_absent,
}
use mtdd.Routing.Executor.Checks.{
  attach_query_classification, refuse_if, assert_insert_requires_tid, assert_call_tid,
  assert_function_requires_tid, assert_transaction_routing, without_tid,
}
use mtdd.Routing.Executor.Shard.{assert_host_index}
use mtdd.Routing.Executor.Route.{
  route, query_on_host_index, query_all_hosts, fan_out_select_with_local_merge, fan_out_query,
  lookup_host_index, route_with_lookup_tid, broadcast_call_query, query_only_host, to_all,
  query_unpinned, fan_out_by, fan_out_select, fan_out_split, fan_out_and_merge,
}
use mtdd.Routing.Executor.Shards.{IsSound, set_req-IsSound, execute_query_on_shard-IsSound}

module _ {F R A : Type 0} (n : ℕ) (task : ℕ → Effect (State F R) JsError A) where
  pub after_task : (r : Result JsError A × State F R) → Returns (IsSound n) Any r → IsSound n r.1
  after_task (ok a, s) h = h.1
  after_task (err e, s) h = h

  run_tasks-IsSound :
      (i k : ℕ) (s : State F R)
      → ((j : ℕ) → j < i + k → Hoare (IsSound n) Any (task j))
      → IsSound n s
      → IsSound n (run_tasks task i k s).1
  unfolding run_tasks
  run_tasks-IsSound i zero s each h = h
  run_tasks-IsSound i (suc k) s each h =
      run_tasks-IsSound (suc i) k (task i s).1 (λ j lt. each j (omega arith))
        (after_task (task i s) ((each i (omega arith)).at s h))

  settle-IsSound :
      (k : ℕ) (r : Result (Rejection A) (List A)) (s : State F R)
      → IsSound n s
      → Returns (IsSound n) Any (settle {S = State F R} k r s)
  settle-IsSound k (ok results) s h = (tt, h)
  settle-IsSound k (err e) s h = h

  run_fan_out-IsSound :
      (policy : Result JsError FanOutPolicy) (k : ℕ)
      → ((j : ℕ) → j < k → Hoare (IsSound n) Any (task j))
      → Hoare (IsSound n) Any (run_fan_out policy k task)
  unfolding run_fan_out
  run_fan_out-IsSound (err e) k each = record { at = λ s h. h }
  run_fan_out-IsSound (ok policy) k each = record {
    at = λ s h.
        settle-IsSound k (outcome policy (run_tasks task 0 k s).0) (run_tasks task 0 k s).1
          (run_tasks-IsSound 0 k s (λ j lt. each j (omega arith)) h);
  }

module _ {F R : Type 0} (env : Env F R) (meta : Meta) where
  pub fan_out-IsSound :
      (policy : Result JsError FanOutPolicy) (req : Request F R)
      → Hoare
          (IsSound meta.hosts)
          Any
          (run_fan_out policy meta.hosts (query_on_host_index env meta req))
  unfolding query_on_host_index
  fan_out-IsSound policy req =
      run_fan_out-IsSound meta.hosts (query_on_host_index env meta req) policy meta.hosts
        (λ j lt. execute_query_on_shard-IsSound meta.hosts env meta false j req lt)

  pub attach-IsSound : Hoare (IsSound meta.hosts) Any (attach_query_classification env)
  unfolding attach_query_classification
  attach-IsSound = search (hoare_rules, set_req-IsSound)

  refuse_if-IsSound :
      (d : CommandType) (test : Bool) (m : Text)
      → Hoare (IsSound meta.hosts) Any (refuse_if env d test m)
  refuse_if-IsSound d test m = search hoare_rules

  pub insert-IsSound :
      (tid : Tid) → Hoare (IsSound meta.hosts) Any (assert_insert_requires_tid env tid)
  unfolding assert_insert_requires_tid
  insert-IsSound tid = refuse_if-IsSound insert _ _

  pub call-IsSound : (tid : Tid) → Hoare (IsSound meta.hosts) Any (assert_call_tid env tid)
  unfolding assert_call_tid
  call-IsSound tid = refuse_if-IsSound call _ _

  pub function-IsSound :
      (tid : Tid) → Hoare (IsSound meta.hosts) Any (assert_function_requires_tid env tid)
  unfolding assert_function_requires_tid
  function-IsSound tid = refuse_if-IsSound function _ _

  without_tid-IsSound : (p : Option Pin) → Hoare (IsSound meta.hosts) Any (without_tid env meta p)
  without_tid-IsSound (some p) = Hoare-throw _
  without_tid-IsSound none = search (hoare_rules, refuse_if-IsSound) depth 12

  pub transaction-IsSound : Hoare (IsSound meta.hosts) Any (assert_transaction_routing env meta)
  unfolding assert_transaction_routing
  transaction-IsSound = Hoare-if (leb meta.hosts 1) (Hoare-pure-Any tt) (
      Hoare-get (λ s. s.req.tid)
        (λ tid.
          Hoare-get (λ s. s.pin)
            (λ pin. Hoare-if (is_absent tid) (without_tid-IsSound pin) (Hoare-pure-Any tt))))

  local_merge-IsSound :
      (text : Text) → Hoare (IsSound meta.hosts) Any (fan_out_select_with_local_merge env meta text)
  unfolding fan_out_select_with_local_merge
  local_merge-IsSound text = search (hoare_rules, set_req-IsSound, fan_out-IsSound) depth 14

  and_merge-IsSound : Hoare (IsSound meta.hosts) Any (fan_out_and_merge env meta)
  and_merge-IsSound = search (hoare_rules, set_req-IsSound, fan_out-IsSound)

  split-IsSound : (o : Option Text) → Hoare (IsSound meta.hosts) Any (fan_out_split env meta o)
  split-IsSound none = and_merge-IsSound
  split-IsSound (some text) = local_merge-IsSound text

  select-IsSound : (b : Bool) → Hoare (IsSound meta.hosts) Any (fan_out_select env meta b)
  select-IsSound true = Hoare-throw _
  select-IsSound false =
      Hoare-get (λ s. s.req.text) (λ text. Hoare-seq (Hoare-lift-Any _) split-IsSound)

  by-IsSound :
      (tid : Tid) (c : Option CommandType)
      → Hoare (IsSound meta.hosts) Any (fan_out_by env meta tid c)
  by-IsSound tid (some insert) = Hoare-throw _
  by-IsSound tid (some call) = Hoare-throw _
  by-IsSound tid (some function) = Hoare-throw _
  by-IsSound tid (some select) = select-IsSound _
  by-IsSound tid _ = and_merge-IsSound

  fan_out_query-IsSound : Hoare (IsSound meta.hosts) Any (fan_out_query env meta)
  unfolding fan_out_query
  fan_out_query-IsSound =
      Hoare-then attach-IsSound
        (Hoare-get (λ s. s.req) (λ req. by-IsSound req.tid req.command_type))

  assert_host_index-lt : (h : HostIndex) (n i : ℕ) → assert_host_index h n ≡ ok i → i < n
  unfolding assert_host_index
  assert_host_index-lt (integer (pos j)) n i h = ground arith
  assert_host_index-lt _ n i h = cc

  looked_up-IsSound :
      (tid : Tid) → Hoare (IsSound {F = F} {R = R} meta.hosts) Any (emit (looked_up tid))
  unfolding emit ◌>>=◌
  looked_up-IsSound tid = record { at = λ s h. (tt, record { log = h.log; pin = h.pin }) }

  pub notified-IsSound :
      (text : Option Text) → Hoare (IsSound {F = F} {R = R} meta.hosts) Any (emit (notified text))
  unfolding emit ◌>>=◌
  notified-IsSound text = record { at = λ s h. (tt, record { log = h.log; pin = h.pin }) }

  lookup-IsSound :
      (tid : Tid)
      → Hoare (IsSound meta.hosts) (λ i. i < meta.hosts) (lookup_host_index env tid meta.hosts)
  unfolding lookup_host_index
  lookup-IsSound tid =
      Hoare-get (λ s. s.log)
        (λ before. Hoare-then (looked_up-IsSound tid) (
          Hoare-seq (Hoare-lift-Any _) (λ found.
            Hoare-lift (assert_host_index found meta.hosts)
              (assert_host_index-lt found meta.hosts))))

  pub route-IsSound : (way : Way) (i : Option ℕ) → Hoare (IsSound meta.hosts) Any (route env way i)
  route-IsSound way i =
      set_req-IsSound meta.hosts (λ r. record r { routing = some way; host_index = i })

  route_with_lookup_tid-IsSound : Hoare (IsSound meta.hosts) Any (route_with_lookup_tid env meta)
  unfolding route_with_lookup_tid
  route_with_lookup_tid-IsSound = Hoare-then (set_req-IsSound meta.hosts _) (
      Hoare-get (λ s. s.req.tid)
        (λ tid. Hoare-bind (lookup-IsSound tid) (λ i lt.
          Hoare-then (route-IsSound single (some i)) (
            Hoare-get (λ s. s.req)
              (λ req. execute_query_on_shard-IsSound meta.hosts env meta true i req lt)))))

  to_all-IsSound : (p : Option Pin) → Hoare (IsSound meta.hosts) Any (to_all env meta p)
  to_all-IsSound (some p) = Hoare-throw _
  to_all-IsSound none = search (hoare_rules, set_req-IsSound, fan_out-IsSound) depth 12

  pub broadcast-IsSound : Hoare (IsSound meta.hosts) Any (broadcast_call_query env meta)
  unfolding broadcast_call_query
  broadcast-IsSound = Hoare-get (λ s. s.pin) to_all-IsSound

  only_host-IsSound :
      (meta.hosts == 1) ≡ true → Hoare (IsSound meta.hosts) Any (query_only_host env meta)
  unfolding query_only_host
  only_host-IsSound one = Hoare-then (refuse_if-IsSound insert true _) (
      Hoare-then (refuse_if-IsSound call true _) (
        Hoare-then (refuse_if-IsSound function true _) (
          Hoare-then (route-IsSound single (some 0)) (
            Hoare-get (λ s. s.req)
              (λ req.
                execute_query_on_shard-IsSound meta.hosts env meta true 0 req (ground arith))))))

  all_hosts-IsSound : Hoare (IsSound meta.hosts) Any (query_all_hosts env meta)
  all_hosts-IsSound = Hoare-then (set_req-IsSound meta.hosts _) fan_out_query-IsSound

  one_or_all-IsSound :
      (b : Bool)
      → (meta.hosts == 1) ≡ b
      → Hoare
          (IsSound meta.hosts)
          Any
          (if b then query_only_host env meta else query_all_hosts env meta)
  one_or_all-IsSound true e = only_host-IsSound e
  one_or_all-IsSound false e = all_hosts-IsSound

  pub unpinned-IsSound :
      (req : Request F R) → Hoare (IsSound meta.hosts) Any (query_unpinned env meta req)
  unpinned-IsSound req =
      Hoare-if _ route_with_lookup_tid-IsSound (one_or_all-IsSound (meta.hosts == 1) refl)
