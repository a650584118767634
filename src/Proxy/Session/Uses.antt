-- ===== src/Proxy/Session/Uses.antt =====
-- The backend clients of a session: which shards it contacts, and how it takes and gives back the
-- client of a transaction.
use mtdd.Prelude.{ℕ, ◌<◌, ◌≡◌, refl, Bool, true, false, List, [], ◌∷◌, Option, none, some, arith}
use mtdd.Js.Text.{Text, codes}
use mtdd.Js.Buffer.{Bytes, JsError}
use mtdd.Js.Effect.{Result, ok, err, pure, gets, ◌>>=◌}
use mtdd.Js.Effect.Hoare.{
  Returns, Any, Hoare, Hoare-bind, Hoare-get, Hoare-seq, Hoare-then, Hoare-modify, hoare_rules,
}
use mtdd.Proxy.Lookup.{check_response, check_response-lt}
use mtdd.Proxy.TidSql.{
  Kind, set_tid, reset_tid, begin, commit, rollback, forward, split_statements, classify_statement,
}
use mtdd.Proxy.Wire.{encode_result}
use mtdd.Proxy.Session.{
  Session, Env, Event, looked_up, connected, connect_failed, released, queried, pooled, pinned,
  write, set_pending, note, lookup_host_index, client_query, pin_to, ensure_pinned, pool_query,
  finish_client, run_in_tx, run_once, run_with_tid, run_data, check_pinned, run_set, run_reset,
  pin_pending, run_begin, run_end, dispatch, run_statements, run_all, run_sql,
}

-- The client that a log leaves open, by its shard.
abbrev pub holds : List Event → Option ℕ
holds [] = none
holds (connected i ∷ log) = some i
holds (released i ∷ log) = none
holds (_ ∷ log) = holds log

-- A client is taken when none is open, is given back when it is open, and the statements of a
-- transaction go to the open client. Every shard is one of the `n` configured.
abbrev pub Uses : ℕ → List Event → Type 0
Uses n [] = Unit
Uses n (connected i ∷ log) = (i < n) × (holds log ≡ none) × Uses n log
Uses n (released i ∷ log) = (holds log ≡ some i) × Uses n log
Uses n (queried pinned i sql values ∷ log) = (i < n) × (holds log ≡ some i) × Uses n log
Uses n (queried pooled i sql values ∷ log) = (i < n) × Uses n log
Uses n (connect_failed i ∷ log) = (i < n) × Uses n log
Uses n (_ ∷ log) = Uses n log

abbrev pub InRange : ℕ → Option ℕ → Type 0
InRange n none = Unit
InRange n (some i) = i < n

abbrev pub SamePin : Option ℕ → Option ℕ → Type 0
SamePin none pin = Unit
SamePin (some c) none = ⊥
SamePin (some c) (some p) = c ≡ p

pub record IsSound (n : ℕ) (s : Session) : Type 0 where
  pub log : Uses n s.log
  pub held : holds s.log ≡ s.tx_client
  pub same : SamePin s.tx_client s.pinned_index
  pub range : InRange n s.pinned_index

returned :
    {n : ℕ} (r : Result JsError ℕ) (s : Session)
    → ((i : ℕ) → r ≡ ok i → i < n)
    → IsSound n s
    → Returns (IsSound n) (λ i. i < n) (r, s)
returned (ok i) s k h = (k i refl, h)
returned (err e) s k h = h

looked_up-IsSound :
    (n : ℕ) (tid : Text) (s : Session)
    → IsSound n s
    → IsSound n (record s { log = looked_up tid ∷ s.log })
looked_up-IsSound n tid s h = ground arith

pub lookup_host_index-IsSound :
    (env : Env) (tid : Text)
    → Hoare (IsSound env.shard_count) (λ i. i < env.shard_count) (lookup_host_index env tid)
unfolding lookup_host_index ◌>>=◌
lookup_host_index-IsSound env tid = record {
  at = λ s h.
      returned (check_response (env.fetch s.log tid) tid env.shard_count)
        (record s { log = looked_up tid ∷ s.log })
        (λ i. check_response-lt (env.fetch s.log tid) tid env.shard_count i)
        (looked_up-IsSound env.shard_count tid s h);
}

pin_to-IsSound :
    (env : Env) (i : ℕ) (p : Option ℕ) (s : Session)
    → i < env.shard_count
    → s.pinned_index ≡ p
    → IsSound env.shard_count s
    → Returns (IsSound env.shard_count) (λ i. i < env.shard_count) (pin_to env i p s)
unfolding pin_to ◌>>=◌
pin_to-IsSound env i none s lt e h = ground arith
pin_to-IsSound env i (some p) s lt e h = ground arith

pub ensure_pinned-IsSound :
    (env : Env) (tid : Text)
    → Hoare (IsSound env.shard_count) (λ i. i < env.shard_count) (ensure_pinned env tid)
unfolding ensure_pinned
ensure_pinned-IsSound env tid =
    Hoare-bind (lookup_host_index-IsSound env tid) (λ i lt. record {
      at = λ s h. unfold ◌>>=◌ in pin_to-IsSound env i s.pinned_index s lt refl h;
    })

pub write-IsSound : (n : ℕ) (b : Bytes) → Hoare (IsSound n) Any (write b)
unfolding write ◌>>=◌
write-IsSound n b = record { at = λ s h. ground arith }

note-IsSound : (n : ℕ) (i : Option ℕ) → Hoare (IsSound n) Any (note i)
unfolding note ◌>>=◌
note-IsSound n none = record { at = λ s h. ground arith }
note-IsSound n (some i) = record { at = λ s h. ground arith }

set_pending-IsSound : (n : ℕ) (tid : Option Text) → Hoare (IsSound n) Any (set_pending tid)
unfolding set_pending ◌>>=◌
set_pending-IsSound n tid = record { at = λ s h. ground arith }

pool_query-IsSound :
    (env : Env) (i : ℕ) (sql : Text) (values : List (Option Text))
    → i < env.shard_count
    → Hoare (IsSound env.shard_count) Any (pool_query env i sql values)
unfolding pool_query ◌>>=◌
pool_query-IsSound env i sql values lt = record { at = λ s h. ground arith }

in_tx_result-IsSound :
    (env : Env) (sql : Text) (values : List (Option Text))
    → Hoare (IsSound env.shard_count) Any (do
      client ← gets (λ s. s.tx_client)
      result ← client_query env sql values client
      pure (encode_result result))
unfolding client_query ◌>>=◌
in_tx_result-IsSound env sql values = record { at = λ s h. ground arith }

run_in_tx-IsSound :
    (env : Env) (tid sql : Text) (values : List (Option Text))
    → Hoare (IsSound env.shard_count) Any (run_in_tx env tid sql values)
unfolding run_in_tx
run_in_tx-IsSound env tid sql values =
    Hoare-bind (ensure_pinned-IsSound env tid)
      (λ _ _. search (hoare_rules, note-IsSound, in_tx_result-IsSound))

run_once-IsSound :
    (env : Env) (tid sql : Text) (values : List (Option Text))
    → Hoare (IsSound env.shard_count) Any (run_once env tid sql values)
unfolding run_once
run_once-IsSound env tid sql values = Hoare-bind (lookup_host_index-IsSound env tid) (λ i lt.
    Hoare-then (set_pending-IsSound env.shard_count none)
      (Hoare-seq (pool_query-IsSound env i sql values lt) (λ _. search hoare_rules)))

run_with_tid-IsSound :
    (env : Env) (tid : Option Text) (in_tx : Bool) (sql : Text) (values : List (Option Text))
    → Hoare (IsSound env.shard_count) Any (run_with_tid env tid in_tx sql values)
run_with_tid-IsSound env none in_tx sql values = search hoare_rules
run_with_tid-IsSound env (some []) in_tx sql values = search hoare_rules
run_with_tid-IsSound env (some (c ∷ tid)) true sql values =
    run_in_tx-IsSound env (c ∷ tid) sql values
run_with_tid-IsSound env (some (c ∷ tid)) false sql values =
    run_once-IsSound env (c ∷ tid) sql values

run_data-IsSound :
    (env : Env) (sql : Text) (values : List (Option Text))
    → Hoare (IsSound env.shard_count) Any (run_data env sql values)
unfolding run_data
run_data-IsSound env sql values = search (hoare_rules, run_with_tid-IsSound)

check_pinned-IsSound :
    (env : Env) (tid : Text) (in_tx : Bool) (index : Option ℕ)
    → Hoare (IsSound env.shard_count) Any (check_pinned env tid in_tx index)
unfolding check_pinned
check_pinned-IsSound env tid true (some i) =
    Hoare-bind (lookup_host_index-IsSound env tid) (λ _ _. search hoare_rules)
check_pinned-IsSound env tid true none = search hoare_rules
check_pinned-IsSound env tid false _ = search hoare_rules

run_set-IsSound : (env : Env) (tid : Text) → Hoare (IsSound env.shard_count) Any (run_set env tid)
unfolding run_set
run_set-IsSound env [] = search hoare_rules
run_set-IsSound env (c ∷ tid) = search (hoare_rules, check_pinned-IsSound, set_pending-IsSound)

run_reset-IsSound : (n : ℕ) → Hoare (IsSound n) Any run_reset
unfolding run_reset
run_reset-IsSound n = search (hoare_rules, set_pending-IsSound)

pin_pending-IsSound :
    (env : Env) (tid : Option Text) → Hoare (IsSound env.shard_count) Any (pin_pending env tid)
unfolding pin_pending
pin_pending-IsSound env none = search hoare_rules
pin_pending-IsSound env (some []) = search hoare_rules
pin_pending-IsSound env (some (c ∷ tid)) =
    Hoare-bind (ensure_pinned-IsSound env (c ∷ tid)) (λ _ _. search hoare_rules)

run_begin-IsSound : (env : Env) → Hoare (IsSound env.shard_count) Any (run_begin env)
unfolding run_begin
run_begin-IsSound env = Hoare-seq (Hoare-modify _ (λ s h. ground arith)) (λ _. Hoare-get _ (λ tid.
    Hoare-seq (pin_pending-IsSound env tid)
      (λ _. Hoare-seq (Hoare-modify _ (λ s h. ground arith)) (λ _. search hoare_rules))))

run_end-IsSound : (env : Env) (tag : Text) → Hoare (IsSound env.shard_count) Any (run_end env tag)
unfolding run_end finish_client ◌>>=◌
run_end-IsSound env tag = record { at = λ s h. ground arith }

pub dispatch-IsSound :
    (env : Env) (kind : Kind) (values : List (Option Text))
    → Hoare (IsSound env.shard_count) Any (dispatch env kind values)
unfolding dispatch
dispatch-IsSound env (set_tid tid) values = run_set-IsSound env tid
dispatch-IsSound env reset_tid values = run_reset-IsSound env.shard_count
dispatch-IsSound env begin values = run_begin-IsSound env
dispatch-IsSound env commit values = run_end-IsSound env (codes "COMMIT")
dispatch-IsSound env rollback values = run_end-IsSound env (codes "ROLLBACK")
dispatch-IsSound env (forward sql) values = run_data-IsSound env sql values

run_statements-IsSound :
    (env : Env) (stmts : List Text) (values : List (Option Text))
    → Hoare (IsSound env.shard_count) Any (run_statements env stmts values)
unfolding run_statements
run_statements-IsSound env [] values = search hoare_rules
run_statements-IsSound env (stmt ∷ stmts) values =
    Hoare-seq (dispatch-IsSound env (classify_statement stmt) values)
      (λ part. Hoare-seq (run_statements-IsSound env stmts values) (λ parts. search hoare_rules))

run_all-IsSound :
    (env : Env) (stmts : List Text) (values : List (Option Text))
    → Hoare (IsSound env.shard_count) Any (run_all env stmts values)
unfolding run_all
run_all-IsSound env [] values = search hoare_rules
run_all-IsSound env (stmt ∷ stmts) values =
    Hoare-seq (run_statements-IsSound env (stmt ∷ stmts) values)
      (λ chunks. Hoare-seq (Hoare-modify _ (λ s h. ground arith)) (λ _. search hoare_rules))

pub run_sql-IsSound :
    (env : Env) (sql : Text) (values : List (Option Text))
    → Hoare (IsSound env.shard_count) Any (run_sql env sql values)
unfolding run_sql
run_sql-IsSound env sql values = run_all-IsSound env (split_statements sql) values
