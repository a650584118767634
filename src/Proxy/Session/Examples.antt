-- ===== src/Proxy/Session/Examples.antt =====
-- A session on a concrete environment: tests, and the theorems at concrete inputs.
use mtdd.Prelude.{arith, ◌≡◌, refl, true, List, [], ◌∷◌, ◌++◌, none, some}
use mtdd.Prelude.Int.{pos}
use mtdd.Js.Text.{codes}
use mtdd.Js.Buffer.{Bytes, error}
use mtdd.Js.Effect.{ok, err, ◌>>=◌}
use mtdd.Proxy.TidSql.{forward, set_tid}
use mtdd.Proxy.Lookup.{answered, integer, check_response}
use mtdd.Proxy.BackendPool.{create}
use mtdd.Proxy.Wire.{PgResult, encode_message}
use mtdd.Proxy.Session.{
  Session, Env, auth, looked_up, queried, pooled, pinned, new_session, dispatch, unset_message,
  run_data,
}
use mtdd.Proxy.Session.Uses.{Uses, holds}
use mtdd.Proxy.Session.Pump.{SocketEvent, chunk, closed, serve, pump, out_of_fuel}
use mtdd.Proxy.Session.Pump.Stuck.{unauthenticated, with_message, pump-out_of_fuel}
use mtdd.Proxy.Session.Pump.Uses.{serve-Uses, serve_closed}
use mtdd.Proxy.Session.Routing.{
  tid_serves_once, set-forward, set-forward-pinned, forward-pinned, forward-first, first_statement,
}

abbrev no_rows : PgResult
no_rows = record { command = some (codes "SELECT"); row_count = some 0; fields = []; rows = [] }

-- two shards; every tid is placed on shard 1
abbrev env : Env
env = record {
  shard_count = 2;
  password = [];
  pid = pos 7;
  secret = pos 9;
  fetch = λ log tid. answered (integer (pos 1));
  connect = λ log i. none;
  query = λ log i sql values. ok no_rows;
}

abbrev fresh : Session
fresh = new_session (create 2)

abbrev startup : Bytes
startup = 0 ∷ 0 ∷ 0 ∷ 8 ∷ 0 ∷ 3 ∷ 0 ∷ 0 ∷ []

abbrev events : List SocketEvent
events =
    chunk 9 startup
    ∷ chunk 9 (encode_message b'Q' (codes "SET mtdd.tid = 'a'; BEGIN; SELECT 1" ++ 0 ∷ []))
    ∷ []

serve-Uses_example : Uses 2 (serve env events (new_session (create 2))).log
serve-Uses_example = serve-Uses env events (create 2)

serve_closed_example : holds (serve env (events ++ closed ∷ []) (new_session (create 2))).log ≡ none
serve_closed_example = serve_closed env events (create 2)

abbrev with_tid : Session
with_tid = record fresh { pending_tid = some (codes "a") }

tid_serves_once_example :
    dispatch env (forward (codes "B")) [] (dispatch env (forward (codes "A")) [] with_tid).1
    ≡ (err (error unset_message), (dispatch env (forward (codes "A")) [] with_tid).1)
unfolding dispatch run_data ◌>>=◌ new_session check_response
tid_serves_once_example = tid_serves_once env (codes "A") (codes "B") [] [] with_tid _ refl refl

set-forward_example :
    (dispatch env (forward (codes "A")) [] (dispatch env (set_tid (codes "t")) [] fresh).1).1.log
    ≡ queried pooled 1 (codes "A") [] ∷ looked_up (codes "t") ∷ fresh.log
unfolding new_session check_response
set-forward_example = set-forward env b't' [] (codes "A") [] fresh 1 refl refl

abbrev in_transaction : Session
in_transaction = record with_tid {
  in_tx = true;
  pinned_index = some 1;
  tx_client = some 1;
  backend_in_tx = true;
}

set-forward-pinned_example :
    (dispatch env
      (forward (codes "A"))
      []
      (dispatch env (set_tid (codes "t")) [] in_transaction).1).1.log
    ≡ queried pinned 1 (codes "A") []
      ∷ looked_up (codes "t")
      ∷ looked_up (codes "t")
      ∷ in_transaction.log
unfolding new_session check_response
set-forward-pinned_example =
    set-forward-pinned env b't' b'a' [] [] (codes "A") [] in_transaction 1 1 1 refl refl refl refl
      refl refl

forward-pinned_example :
    (dispatch env (forward (codes "A")) [] in_transaction).1.log
    ≡ queried pinned 1 (codes "A") [] ∷ looked_up (codes "a") ∷ in_transaction.log
unfolding new_session check_response
forward-pinned_example =
    forward-pinned env b'a' [] (codes "A") [] in_transaction 1 1 refl refl refl refl refl

abbrev begun_lazily : Session
begun_lazily = record with_tid { in_tx = true }

forward-first_example :
    (dispatch env (forward (codes "A")) [] begun_lazily).1.log
    ≡ first_statement env 1 (codes "A") [] (looked_up (codes "a") ∷ begun_lazily.log)
unfolding new_session check_response
forward-first_example =
    forward-first env b'a' [] (codes "A") [] begun_lazily 1 refl refl refl refl refl

-- a Sync before the password
pump-out_of_fuel_example :
    pump 9 env (with_message auth b'S' [] fresh) ≡ (ok out_of_fuel, with_message auth b'S' [] fresh)
pump-out_of_fuel_example =
    pump-out_of_fuel auth b'S' [] 9 env fresh (unauthenticated refl (omega arith))
