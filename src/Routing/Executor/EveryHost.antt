-- ===== src/Routing/Executor/EveryHost.antt =====
-- The hosts that a fan-out of query-executor.ts asks, through the pools of the library pg.
use mtdd.Prelude.{
  ℕ, zero, suc, ◌+◌, ◌≡◌, refl, ap, ◌∙◌, Bool, false, List, [], ◌∷◌, ◌++◌, Option, some, arith,
}
use mtdd.Js.Text.{Text}
use mtdd.Js.Effect.{Result, ok, err, pure, ◌>>=◌, ◌>>◌}
use mtdd.Routing.Parse.{select}
use mtdd.Routing.Merge.{QueryResult}
use mtdd.Routing.FanOut.{FanOutPolicy, Rejection, outcome, run_tasks, run_fan_out, settle}
use mtdd.Routing.Executor.{
  pool, Role, sub_pool, Event, queried, fan_out, Meta, Request, Env, State, set_req,
}
use mtdd.Routing.Executor.Checks.{is_query}
use mtdd.Routing.Executor.Shard.{role_of, execute_query_on_shard, run_query}
use mtdd.Routing.Executor.Route.{query_on_host_index, fan_out_only, keep_results}

-- One query to each of the first `n` hosts, the last first.
abbrev pub asked : Role → Option Text → ℕ → List Event
asked role text zero = []
asked role text (suc n) = queried (sub_pool n role) text ∷ asked role text n

module _ {F R : Type 0} (env : Env F R) (meta : Meta) (through_pools : meta.kind ≡ pool)
    (no_hub : env.grpc_ready ≡ false) where
  module _ (req : Request F R) (b : Bool) (known : is_query env select req ≡ ok b) where
    task_log :
        (i : ℕ) (s : State F R)
        → (query_on_host_index env meta req i s).1.log
          ≡ queried (sub_pool i (role_of env b)) req.text ∷ s.log
    unfolding query_on_host_index execute_query_on_shard run_query ◌>>=◌
    task_log i s = rw (known, no_hub, through_pools)

    tasks_log :
        (i k : ℕ) (s : State F R) (before : List Event)
        → s.log ≡ asked (role_of env b) req.text i ++ before
        → (run_tasks (query_on_host_index env meta req) i k s).1.log
          ≡ asked (role_of env b) req.text (i + k) ++ before
    unfolding run_tasks
    tasks_log i zero s before h =
        let same : i ≡ i + 0 = omega arith in
        h ∙ ap (λ n. asked (role_of env b) req.text n ++ before) same
    tasks_log i (suc k) s before h =
        let same : suc i + k ≡ i + suc k = omega arith in
        tasks_log (suc i) k (query_on_host_index env meta req i s).1 before
          (task_log i s ∙ ap (λ log. queried (sub_pool i (role_of env b)) req.text ∷ log) h)
        ∙ ap (λ n. asked (role_of env b) req.text n ++ before) same

  kept_log :
      (k : ℕ) (r : Result (Rejection (QueryResult F R)) (List (QueryResult F R))) (s : State F R)
      → (((λ t. settle {S = State F R} k r t) >>= λ results.
            keep_results env results >> pure results)
          s).1.log
        ≡ s.log
  unfolding ◌>>=◌ set_req
  kept_log k (ok results) s = refl
  kept_log k (err e) s = refl

  -- On a target that is a pool and while the hub is not ready, a query that is sent to all hosts on
  -- request asks the pool of each host once, in their order, and does nothing else, under either
  -- policy and whatever the hosts answer.
  pub fan_out_only-asked :
      (s : State F R) (policy : FanOutPolicy) (b : Bool)
      → env.policy ≡ ok policy
      → is_query env select s.req ≡ ok b
      → (fan_out_only env (some meta) s).1.log
        ≡ asked (role_of env b) s.req.text meta.hosts ++ s.log
  unfolding fan_out_only run_fan_out is_query ◌>>=◌ set_req
  fan_out_only-asked s policy b chosen known =
      let sent = record s { req = record s.req { routing = some fan_out } } in
      let done = run_tasks (query_on_host_index env meta sent.req) 0 meta.hosts sent in
      let total : 0 + meta.hosts ≡ meta.hosts = omega arith in
      rw chosen (kept_log meta.hosts (outcome policy done.0) done.1)
      ∙ tasks_log sent.req b known 0 meta.hosts sent s.log refl
      ∙ ap (λ n. asked (role_of env b) s.req.text n ++ s.log) total
