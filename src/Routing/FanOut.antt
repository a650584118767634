-- ===== src/Routing/FanOut.antt =====
-- fan-out-policy.ts: one task for each host, all of which are started whatever the others do. The
-- tasks are taken to settle in the order of the hosts, which decides the error that `Promise.all`
-- rejects with. The environment variable is a parameter.
pub mod Laws
use mtdd.Prelude.{
  ◌+◌, ◌&&◌, leb, ℕ, zero, suc, ◌-◌, List, [], ◌∷◌, ◌++◌, map, Option, none, some, Bool, ◌||◌,
  if◌then◌else◌, length,
}
use mtdd.Js.Text.{Text, codes, text_eq, trim, decimal}
use mtdd.Js.Buffer.{JsError, error}
use mtdd.Js.Effect.{Result, ok, err, Effect, pure, ◌>>=◌}

pub data FanOutPolicy : Type 0 where
  all best_effort : FanOutPolicy

-- `toLowerCase`, for ASCII
abbrev lower : ℕ → ℕ
lower c = if leb b'A' c && leb c b'Z' then c + 32 else c

unfoldable pub get_fan_out_policy : Option Text → Result JsError FanOutPolicy
get_fan_out_policy none = ok all
get_fan_out_policy (some value) =
    let raw = map lower (trim value) in
    if text_eq raw (codes "all")
    then ok all
    else if text_eq raw (codes "best_effort")
    then ok best_effort
    else err
        (error (codes "MTDD_FANOUT_POLICY must be \"all\" or \"best_effort\". Received: " ++ raw))

-- What the function rejects with: an error of a task, or the aggregate with the errors and with
-- the results, `none` where a task failed.
pub data Rejection (A : Type 0) : Type 0 where
  task_error : JsError → Rejection A
  aggregate : List (ℕ × JsError) → List (Option A) → Rejection A

module _ {A : Type 0} where
  -- the outcomes of the tasks from `host_index` on, in the order of the hosts
  unfoldable pub errors_of : ℕ → List (Result JsError A) → List (ℕ × JsError)
  errors_of host_index [] = []
  errors_of host_index (ok value ∷ settled) = errors_of (suc host_index) settled
  errors_of host_index (err reason ∷ settled) =
      (host_index, reason) ∷ errors_of (suc host_index) settled

  unfoldable pub results_of : List (Result JsError A) → List (Option A)
  results_of [] = []
  results_of (ok value ∷ settled) = some value ∷ results_of settled
  results_of (err reason ∷ settled) = none ∷ results_of settled

  abbrev pub and_then : A → Result (Rejection A) (List A) → Result (Rejection A) (List A)
  and_then value (ok values) = ok (value ∷ values)
  and_then value (err e) = err e

  -- `Promise.all`
  unfoldable pub promise_all : List (Result JsError A) → Result (Rejection A) (List A)
  promise_all [] = ok []
  promise_all (ok value ∷ settled) = and_then value (promise_all settled)
  promise_all (err reason ∷ settled) = err (task_error reason)

  -- the results as an array without holes, once no task has failed
  unfoldable pub present : List (Option A) → List A
  present [] = []
  present (none ∷ results) = present results
  present (some value ∷ results) = value ∷ present results

  abbrev pub conclude : List (ℕ × JsError) → List (Option A) → Result (Rejection A) (List A)
  conclude [] results = ok (present results)
  conclude (e ∷ errors) results = err (aggregate (e ∷ errors) results)

  unfoldable pub best_effort_outcome : List (Result JsError A) → Result (Rejection A) (List A)
  unfolding errors_of results_of present
  best_effort_outcome settled = conclude (errors_of 0 settled) (results_of settled)

  unfoldable pub outcome : FanOutPolicy → List (Result JsError A) → Result (Rejection A) (List A)
  unfolding promise_all best_effort_outcome
  outcome all settled = promise_all settled
  outcome best_effort settled = best_effort_outcome settled

module _ {S A : Type 0} where
  abbrev record_outcome :
      Result JsError A × S → List (Result JsError A) × S → List (Result JsError A) × S
  record_outcome one rest = (one.0 ∷ rest.0, rest.1)

  -- `Array.from({ length: n }, (_, i) => runShard(i))`, each task run to its end
  unfoldable pub run_tasks : (ℕ → Effect S JsError A) → ℕ → ℕ → S → List (Result JsError A) × S
  run_tasks run_shard host_index zero s = ([], s)
  run_tasks run_shard host_index (suc n) s =
      record_outcome (run_shard host_index s)
        (run_tasks run_shard (suc host_index) n (run_shard host_index s).1)

-- The message of the aggregate: the failures, joined by "; ".
unfoldable pub detail : List (ℕ × JsError) → Text
detail [] = []
detail (e ∷ []) = codes "host_index " ++ (decimal e.0 ++ (codes ": " ++ e.1.message))
detail (e ∷ d ∷ errors) =
    codes "host_index "
    ++ (decimal e.0 ++ (codes ": " ++ (e.1.message ++ (codes "; " ++ detail (d ∷ errors)))))

-- The error that a caller sees; `shardErrors` and `partialResults` are properties of it.
unfoldable pub thrown : {A : Type 0} → ℕ → Rejection A → JsError
unfolding detail
thrown host_count (task_error e) = e
thrown host_count (aggregate errors results) = error (
    codes "@advcomm/mtdd: fan-out best_effort failed on "
    ++ (decimal (length errors)
        ++ (codes "/" ++ (decimal host_count ++ (codes " shard(s): " ++ detail errors)))))

module _ {S A : Type 0} where
  abbrev pub settle : ℕ → Result (Rejection A) (List A) → S → Result JsError (List A) × S
  settle host_count (ok results) s = (ok results, s)
  settle host_count (err e) s = (err (thrown host_count e), s)

  unfoldable pub run_fan_out :
      Result JsError FanOutPolicy → ℕ → (ℕ → Effect S JsError A) → Effect S JsError (List A)
  unfolding run_tasks outcome thrown
  run_fan_out (err e) host_count run_shard s = (err e, s)
  run_fan_out (ok policy) host_count run_shard s =
      let settled = run_tasks run_shard 0 host_count s in
      settle host_count (outcome policy settled.0) settled.1
