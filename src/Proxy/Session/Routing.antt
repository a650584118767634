-- ===== src/Proxy/Session/Routing.antt =====
-- Where the session sends a statement: the tid is used once outside a transaction, and a transaction
-- stays on its shard.
use mtdd.Prelude.{
  ℕ, ◌≡◌, true, false, List, [], ◌∷◌, Option, none, some, ◌==◌, if◌then◌else◌, arith,
}
use mtdd.Js.Text.{Text, codes}
use mtdd.Js.Buffer.{Bytes, JsError, error}
use mtdd.Js.Effect.{Result, ok, err, ◌>>=◌}
use mtdd.Proxy.Lookup.{check_response}
use mtdd.Proxy.TidSql.{set_tid, forward}
use mtdd.Proxy.Session.{
  Session, Env, Event, connected, connect_failed, looked_up, queried, pooled, pinned, run_data,
  dispatch, unset_message, run_set,
}

-- The log of that statement, by the answers to `connect` and to BEGIN.
abbrev begun :
    {A : Type 0} → Result JsError A → ℕ → Text → List (Option Text) → List Event → List Event
begun (err e) i sql values log = log
begun (ok result) i sql values log = queried pinned i sql values ∷ log

abbrev pub first_statement : Env → ℕ → Text → List (Option Text) → List Event → List Event
first_statement env i sql values log = elim (env.connect log i) [
  | some e ↦ connect_failed i ∷ log
  | none ↦
      begun (env.query (connected i ∷ log) i (codes "BEGIN") []) i sql values
        (queried pinned i (codes "BEGIN") [] ∷ connected i ∷ log)
]

-- Outside a transaction a tid serves one statement: when a forwarded statement has returned, the
-- next one is refused for want of a tid, and the session stays as it was, with nothing sent.
pub tid_serves_once :
    (env : Env) (sql sql' : Text) (values values' : List (Option Text)) (s : Session) (b : Bytes)
    → s.in_tx ≡ false
    → (dispatch env (forward sql) values s).0 ≡ ok b
    → dispatch env (forward sql') values' (dispatch env (forward sql) values s).1
      ≡ (err (error unset_message), (dispatch env (forward sql) values s).1)
unfolding dispatch run_data ◌>>=◌
tid_serves_once env sql sql' values values' s b h e = ground arith

-- `SET mtdd.tid` and a statement, outside a transaction: the session asks the lookup service for
-- that tid and sends the statement, with its values, to the shard that the service names, and
-- nowhere else.
pub set-forward :
    (env : Env) (c : ℕ) (tid sql : Text) (values : List (Option Text)) (s : Session) (i : ℕ)
    → s.in_tx ≡ false
    → check_response (env.fetch s.log (c ∷ tid)) (c ∷ tid) env.shard_count ≡ ok i
    → (dispatch env (forward sql) values (dispatch env (set_tid (c ∷ tid)) [] s).1).1.log
      ≡ queried pooled i sql values ∷ looked_up (c ∷ tid) ∷ s.log
unfolding dispatch run_data run_set ◌>>=◌
set-forward env c tid sql values s i h e = ground arith

-- The tid that serves in a transaction pinned to `i`, after `SET` to a new one on the shard `next`.
abbrev pub serving : ℕ → ℕ → Text → Text → Text
serving next i new old = if next == i then new else old

-- A statement behind `SET mtdd.tid` in a transaction that is pinned to the shard `i`, with its client
-- taken and a tid in force, where both lookups give a shard: the SET asks for the shard of the new
-- tid, and the new tid is in force if it is on `i`; if it is on another shard the tid that was in
-- force before stays. The statement asks for the shard of the tid in force, and is sent to the client
-- of the transaction if that is `i`, and nowhere otherwise; no other shard is contacted.
pub set-forward-pinned :
    (env : Env) (c d : ℕ) (new old sql : Text) (values : List (Option Text)) (s : Session)
    (i next again : ℕ)
    → s.in_tx ≡ true
    → s.pinned_index ≡ some i
    → s.tx_client ≡ some i
    → s.pending_tid ≡ some (d ∷ old)
    → check_response (env.fetch s.log (c ∷ new)) (c ∷ new) env.shard_count ≡ ok next
    → check_response
        (env.fetch (looked_up (c ∷ new) ∷ s.log) (serving next i (c ∷ new) (d ∷ old)))
        (serving next i (c ∷ new) (d ∷ old))
        env.shard_count
      ≡ ok again
    → (dispatch env (forward sql) values (dispatch env (set_tid (c ∷ new)) [] s).1).1.log ≡ (
        if again == i
        then queried pinned i sql values
          ∷ looked_up (serving next i (c ∷ new) (d ∷ old))
          ∷ looked_up (c ∷ new)
          ∷ s.log
        else looked_up (serving next i (c ∷ new) (d ∷ old)) ∷ looked_up (c ∷ new) ∷ s.log)
unfolding dispatch run_data run_set ◌>>=◌
set-forward-pinned env c d new old sql values s i next again t p h o r q = ground arith

-- In a transaction that is pinned to a shard, with its client taken, a statement goes to that client
-- once the lookup of the tid has named the same shard, and nowhere else, whether or not BEGIN has
-- succeeded on it; where the lookup names another shard nothing is sent.
pub forward-pinned :
    (env : Env) (c : ℕ) (tid sql : Text) (values : List (Option Text)) (s : Session) (i next : ℕ)
    → s.in_tx ≡ true
    → s.pinned_index ≡ some i
    → s.tx_client ≡ some i
    → s.pending_tid ≡ some (c ∷ tid)
    → check_response (env.fetch s.log (c ∷ tid)) (c ∷ tid) env.shard_count ≡ ok next
    → (dispatch env (forward sql) values s).1.log ≡ (
        if next == i
        then queried pinned i sql values ∷ looked_up (c ∷ tid) ∷ s.log
        else looked_up (c ∷ tid) ∷ s.log)
unfolding dispatch run_data ◌>>=◌
forward-pinned env c tid sql values s i next t p h e r = ground arith

-- The first statement of a transaction whose BEGIN came before any tid: the lookup names the shard,
-- a client of that shard is taken, and BEGIN is sent on it before the statement. If the client
-- cannot be had nothing is sent, and if BEGIN fails the statement is not.
pub forward-first :
    (env : Env) (c : ℕ) (tid sql : Text) (values : List (Option Text)) (s : Session) (i : ℕ)
    → s.in_tx ≡ true
    → s.backend_in_tx ≡ false
    → s.pinned_index ≡ none
    → s.pending_tid ≡ some (c ∷ tid)
    → check_response (env.fetch s.log (c ∷ tid)) (c ∷ tid) env.shard_count ≡ ok i
    → (dispatch env (forward sql) values s).1.log
      ≡ first_statement env i sql values (looked_up (c ∷ tid) ∷ s.log)
unfolding dispatch run_data ◌>>=◌
forward-first env c tid sql values s i t b p e r = ground arith
