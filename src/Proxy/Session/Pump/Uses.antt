-- ===== src/Proxy/Session/Pump/Uses.antt =====
-- The loop keeps the invariant of the backend clients, whatever bytes come in and whatever the
-- environment answers.
use mtdd.Prelude.{
  ℕ, zero, suc, ◌≡◌, refl, Bool, true, false, List, [], ◌∷◌, none, arith, ltb, length, ◌-◌, ◌++◌,
}
use mtdd.Prelude.Int.{ℤ}
use mtdd.Js.Text.{Text}
use mtdd.Js.Buffer.{Bytes, JsError}
use mtdd.Js.Effect.{Result, ok, err, ◌>>=◌}
use mtdd.Js.Effect.Hoare.{
  Returns, Any, Hoare, Hoare-seq, Hoare-then, Hoare-modify, Hoare-catch, Hoare-if, Hoare-lift-Any,
  hoare_rules,
}
use mtdd.Proxy.BackendPool.{Pools}
use mtdd.Proxy.Wire.{read_c_string}
use mtdd.Proxy.Session.{Session, Env, Action, Phase, first, auth, ready, ended, emit, new_session}
use mtdd.Proxy.Session.Uses.{IsSound, Uses, holds, write-IsSound, run_sql-IsSound}
use mtdd.Proxy.Session.Pump.{
  fail, startup_pair, startup_pairs, handle_startup, send_ready, handle_parse, handle_bind,
  handle_execute, query_failed, handle_query, Next, again, return, set_phase, set_buf, greet,
  startup_packet, pump_first, pump_auth, write_ready, pump_ready, pump_sized, pump_frame, pump_step,
  pump_message, pump_next, Finish, pump, on_data, abandon_client, cleanup, keep_user, pump_phase,
  SocketEvent, chunk, closed, on_socket, serve,
}

module _ (n : ℕ) where
  emit_ended-IsSound : Hoare (IsSound n) Any (emit ended)
  unfolding emit ◌>>=◌
  emit_ended-IsSound = record { at = λ s h. ground arith }

  set_phase-IsSound : (p : Phase) → Hoare (IsSound n) Any (set_phase p)
  unfolding set_phase ◌>>=◌
  set_phase-IsSound p = record { at = λ s h. ground arith }

  set_buf-IsSound : (b : Bytes) → Hoare (IsSound n) Any (set_buf b)
  unfolding set_buf ◌>>=◌
  set_buf-IsSound b = record { at = λ s h. ground arith }

  fail-IsSound : (e : JsError) → Hoare (IsSound n) Any (fail e)
  unfolding fail
  fail-IsSound e = search (hoare_rules, write-IsSound)

  keep_user-IsSound : (key val : Text) (s : Session) → IsSound n s → IsSound n (keep_user key val s)
  keep_user-IsSound key val s h = ground arith

  startup_pair-IsSound :
      (buf : Bytes) (rest : ℕ → Action (Unit {0})) (key : Text) (next : ℕ)
      → ((i : ℕ) → Hoare (IsSound n) Any (rest i))
      → Hoare (IsSound n) Any (startup_pair buf rest key next)
  unfolding startup_pair
  startup_pair-IsSound buf rest [] next k = search hoare_rules
  startup_pair-IsSound buf rest (c ∷ key) next k =
      Hoare-seq (Hoare-lift-Any _)
        (λ val. Hoare-then (Hoare-modify _ (keep_user-IsSound (c ∷ key) val.0)) (k val.1))

  startup_pairs-IsSound :
      (fuel : ℕ) (buf : Bytes) (offset : ℕ) → Hoare (IsSound n) Any (startup_pairs fuel buf offset)
  unfolding startup_pairs
  startup_pairs-IsSound zero buf offset = search hoare_rules
  startup_pairs-IsSound (suc fuel) buf offset =
      Hoare-if (ltb offset (length buf - 1))
        (Hoare-seq (Hoare-lift-Any (read_c_string buf offset))
          (λ key. startup_pair-IsSound buf _ key.0 key.1 (startup_pairs-IsSound fuel buf)))
        (search hoare_rules)

  handle_startup-IsSound : (buf : Bytes) → Hoare (IsSound n) Any (handle_startup buf)
  unfolding handle_startup
  handle_startup-IsSound buf = startup_pairs-IsSound _ buf 8

  send_ready-IsSound : (env : Env) → Hoare (IsSound n) Any (send_ready env)
  unfolding send_ready
  send_ready-IsSound env = Hoare-then (write-IsSound n _) (Hoare-modify _ (λ s h. ground arith))

  handle_parse-IsSound : (payload : Bytes) → Hoare (IsSound n) Any (handle_parse payload)
  unfolding handle_parse
  handle_parse-IsSound payload = Hoare-seq (Hoare-lift-Any _) (λ name.
      Hoare-seq (Hoare-lift-Any _)
        (λ query. Hoare-then (Hoare-modify _ (λ s h. ground arith)) (write-IsSound n _)))

  handle_bind-IsSound : (payload : Bytes) → Hoare (IsSound n) Any (handle_bind payload)
  unfolding handle_bind
  handle_bind-IsSound payload = Hoare-seq (Hoare-lift-Any _) (λ portal.
      Hoare-seq (Hoare-lift-Any _) (λ stmt. Hoare-seq (Hoare-lift-Any _) (λ formats.
        Hoare-seq (Hoare-lift-Any _) (λ params.
          Hoare-seq (Hoare-lift-Any _)
            (λ values. Hoare-then (Hoare-modify _ (λ s h. ground arith)) (write-IsSound n _))))))

  query_failed-IsSound : (e : JsError) → Hoare (IsSound n) Any (query_failed e)
  unfolding query_failed
  query_failed-IsSound e = search (hoare_rules, write-IsSound)

  write_ready-IsSound : Hoare (IsSound n) Any write_ready
  unfolding write_ready
  write_ready-IsSound = search (hoare_rules, write-IsSound)

module _ (env : Env) where
  handle_execute-IsSound : Hoare (IsSound env.shard_count) Any (handle_execute env)
  unfolding handle_execute
  handle_execute-IsSound = search (hoare_rules, run_sql-IsSound, write-IsSound) depth 9

  handle_query-IsSound : (sql : Text) → Hoare (IsSound env.shard_count) Any (handle_query env sql)
  unfolding handle_query
  handle_query-IsSound sql =
      search (hoare_rules, run_sql-IsSound, write-IsSound, query_failed-IsSound) depth 9

  greet-IsSound : (b : Bool) → Hoare (IsSound env.shard_count) Any (greet env b)
  unfolding greet
  greet-IsSound true = search (hoare_rules, send_ready-IsSound, set_phase-IsSound)
  greet-IsSound false = search (hoare_rules, write-IsSound, set_phase-IsSound)

  startup_packet-IsSound :
      (buf : Bytes) (len : ℤ) → Hoare (IsSound env.shard_count) Any (startup_packet env buf len)
  unfolding startup_packet
  startup_packet-IsSound buf len =
      search (hoare_rules, handle_startup-IsSound, set_buf-IsSound, greet-IsSound) depth 7

  pump_first-IsSound : (buf : Bytes) → Hoare (IsSound env.shard_count) Any (pump_first env buf)
  unfolding pump_first
  pump_first-IsSound buf =
      search (hoare_rules, set_buf-IsSound, write-IsSound, startup_packet-IsSound) depth 9

  pump_auth-IsSound :
      (type : ℕ) (payload : Bytes)
      → Hoare (IsSound env.shard_count) Any (pump_auth env type payload)
  unfolding pump_auth
  pump_auth-IsSound type payload =
      search (hoare_rules, send_ready-IsSound, set_phase-IsSound, write-IsSound, emit_ended-IsSound)
        depth 9

  pump_ready-IsSound :
      (type : ℕ) (payload : Bytes)
      → Hoare (IsSound env.shard_count) Any (pump_ready env type payload)
  unfolding pump_ready
  pump_ready-IsSound type payload =
      search
        (
          hoare_rules, emit_ended-IsSound, handle_query-IsSound, handle_parse-IsSound,
          handle_bind-IsSound, handle_execute-IsSound, write_ready-IsSound, write-IsSound,
        )
        depth 16

  pump_message-IsSound :
      (phase : Phase) (type : ℕ) (payload : Bytes)
      → Hoare (IsSound env.shard_count) Any (pump_message env phase type payload)
  pump_message-IsSound first type payload = pump_ready-IsSound type payload
  pump_message-IsSound auth type payload = pump_auth-IsSound type payload
  pump_message-IsSound ready type payload = pump_ready-IsSound type payload

  pump_sized-IsSound :
      (phase : Phase) (buf : Bytes) (type : ℕ) (total : ℤ)
      → Hoare (IsSound env.shard_count) Any (pump_sized env phase buf type total)
  unfolding pump_sized
  pump_sized-IsSound phase buf type total =
      search (hoare_rules, set_buf-IsSound, pump_message-IsSound)

  pump_frame-IsSound :
      (phase : Phase) (buf : Bytes) → Hoare (IsSound env.shard_count) Any (pump_frame env phase buf)
  unfolding pump_frame
  pump_frame-IsSound phase [] = search hoare_rules
  pump_frame-IsSound phase (type ∷ bytes) = search (hoare_rules, pump_sized-IsSound)

  pump_phase-IsSound :
      (phase : Phase) (buf : Bytes) → Hoare (IsSound env.shard_count) Any (pump_phase env phase buf)
  pump_phase-IsSound first buf = pump_first-IsSound buf
  pump_phase-IsSound auth buf = pump_frame-IsSound auth buf
  pump_phase-IsSound ready buf = pump_frame-IsSound ready buf

  pub pump_step-IsSound : Hoare (IsSound env.shard_count) Any (pump_step env)
  unfolding pump_step
  pump_step-IsSound = search (hoare_rules, pump_phase-IsSound)

  pump_next-IsSound :
      (more : Action Finish) (r : Result JsError Next × Session)
      → Hoare (IsSound env.shard_count) Any more
      → Returns (IsSound env.shard_count) Any r
      → Returns (IsSound env.shard_count) Any (pump_next more r)
  pump_next-IsSound more (ok again, s) k h = k.at s h.1
  pump_next-IsSound more (ok return, s) k h = h
  pump_next-IsSound more (err e, s) k h = h

  pump_on :
      (fuel : ℕ) (s : Session) (buf : Bytes)
      → s.buf ≡ buf
      → Hoare (IsSound env.shard_count) Any (pump fuel env)
      → IsSound env.shard_count s
      → Returns (IsSound env.shard_count) Any (pump (suc fuel) env s)
  unfolding pump
  pump_on fuel s [] e k h = rw (e, pump) (tt, h)
  pump_on fuel s (b ∷ bytes) e k h =
      rw (e, pump)
        (pump_next-IsSound (λ t. pump fuel env t) (pump_step env s) k (pump_step-IsSound.at s h))

  pub pump-IsSound : (fuel : ℕ) → Hoare (IsSound env.shard_count) Any (pump fuel env)
  unfolding pump
  pump-IsSound zero = record { at = λ s h. (tt, h) }
  pump-IsSound (suc fuel) = record { at = λ s h. pump_on fuel s s.buf refl (pump-IsSound fuel) h }

  pub on_data-IsSound :
      (fuel : ℕ) (bytes : Bytes) → Hoare (IsSound env.shard_count) Any (on_data fuel env bytes)
  unfolding on_data
  on_data-IsSound fuel bytes =
      Hoare-then (Hoare-modify _ (λ s h. ground arith))
        (Hoare-catch _ (pump-IsSound fuel) (λ e. search (hoare_rules, fail-IsSound)))

  cleanup-IsSound :
      (s : Session) → IsSound env.shard_count s → IsSound env.shard_count (cleanup env s).1
  unfolding cleanup abandon_client ◌>>=◌
  cleanup-IsSound s h = ground arith

  state_of :
      {A : Type 0} (r : Result JsError A × Session)
      → Returns (IsSound env.shard_count) Any r
      → IsSound env.shard_count r.1
  state_of (ok a, s) h = h.1
  state_of (err e, s) h = h

  on_socket-IsSound :
      (e : SocketEvent) (s : Session)
      → IsSound env.shard_count s
      → IsSound env.shard_count (on_socket env e s)
  unfolding on_socket
  on_socket-IsSound (chunk fuel bytes) s h =
      state_of (on_data fuel env bytes s) ((on_data-IsSound fuel bytes).at s h)
  on_socket-IsSound closed s h = cleanup-IsSound s h

  pub serve-IsSound :
      (events : List SocketEvent) (s : Session)
      → IsSound env.shard_count s
      → IsSound env.shard_count (serve env events s)
  unfolding serve
  serve-IsSound [] s h = h
  serve-IsSound (e ∷ events) s h =
      serve-IsSound events (on_socket env e s) (on_socket-IsSound e s h)

new_session-IsSound : (n : ℕ) (pools : Pools) → IsSound n (new_session pools)
unfolding new_session
new_session-IsSound n pools = ground arith

-- Whatever bytes a client sends and whatever the environment answers, a connection contacts only
-- configured shards, takes at most one backend client at a time, sends the statements of its
-- transactions to the shard of the client that it holds, and gives back only a client that it holds.
pub serve-Uses :
    (env : Env) (events : List SocketEvent) (pools : Pools)
    → Uses env.shard_count (serve env events (new_session pools)).log
serve-Uses env events pools =
    (serve-IsSound env events (new_session pools) (new_session-IsSound env.shard_count pools)).log

cleanup_releases :
    (env : Env) (s : Session) → IsSound env.shard_count s → holds (cleanup env s).1.log ≡ none
unfolding cleanup abandon_client ◌>>=◌
cleanup_releases env s h = ground arith

serve_snoc :
    (env : Env) (events : List SocketEvent) (e : SocketEvent) (s : Session)
    → serve env (events ++ e ∷ []) s ≡ on_socket env e (serve env events s)
unfolding serve
serve_snoc env [] e s = refl
serve_snoc env (d ∷ events) e s = serve_snoc env events e (on_socket env d s)

-- Once the socket has closed the connection holds no backend client: every client that it took has
-- been given back.
pub serve_closed :
    (env : Env) (events : List SocketEvent) (pools : Pools)
    → holds (serve env (events ++ closed ∷ []) (new_session pools)).log ≡ none
unfolding on_socket
serve_closed env events pools = rw serve_snoc (
    cleanup_releases env (serve env events (new_session pools))
      (serve-IsSound env events (new_session pools) (new_session-IsSound env.shard_count pools)))
