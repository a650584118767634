-- ===== src/Proxy/Session/Pump.antt =====
-- proxy/session.ts: the protocol loop. Incoming bytes are split into messages, each message runs a
-- handler, and the bytes that a handler writes go to the log.
pub mod Uses
pub mod Stuck
use mtdd.Prelude.{
  ℕ, zero, suc, ◌+◌, ◌-◌, Bool, true, false, ◌&&◌, ◌||◌, List, [], ◌∷◌, ◌++◌, Option, none, some,
  ◌==◌, ltb, if◌then◌else◌, length,
}
use mtdd.Prelude.Int.{ℤ, pos, negsuc, ◌+ℤ◌, ◌*ℤ◌, ltb_ℤ, pos_part}
use mtdd.Js.Text.{Text, codes, text_eq, strip_nuls, replace_char}
use mtdd.Js.Regex.{Regex, chars, seq, test, is_char, word, spaces, plus}
use mtdd.Js.Text.{is_space}
use mtdd.Js.Buffer.{Bytes, JsError, read_i16_be, read_i32_be, subarray, subarray_from}
use mtdd.Js.Utf8
use mtdd.Js.Effect.{Result, ok, err, pure, lift, gets, modify, ◌>>=◌, ◌>>◌, catch}
use mtdd.Proxy.Wire
use mtdd.Proxy.Wire.{read_c_string}
use mtdd.Proxy.Session.{
  Session, Env, Action, Phase, Status, first, auth, ready, idle, in_transaction, failed, queried,
  released, ended, pinned, emit, write, run_sql,
}

abbrev pub status_byte : Status → ℕ
status_byte idle = b'I'
status_byte in_transaction = b'T'
status_byte failed = b'E'

-- `err.message || String(err)`
abbrev pub error_text : JsError → Text
error_text e = elim e.message [ [] ↦ e.name | c ∷ s ↦ c ∷ s ]

abbrev error_bytes : JsError → Bytes
error_bytes e = Wire.error_response (error_text e) Wire.default_code

-- `fail(err)`
unfoldable pub fail : JsError → Action (Unit {0})
unfolding write
fail e = do
  status ← gets (λ s. s.tx_status)
  write (error_bytes e ++ Wire.ready_for_query (status_byte status))

abbrev keep_user : Text → Text → Session → Session
keep_user key val s = if text_eq key (codes "user") then record s { startup_user = some val } else s

-- the second string of a round; an empty key ends the loop
startup_pair : Bytes → (ℕ → Action (Unit {0})) → Text → ℕ → Action (Unit {0})
startup_pair buf rest [] next = pure tt
startup_pair buf rest (c ∷ key) next = do
  val ← lift (read_c_string buf next)
  modify (keep_user (c ∷ key) val.0)
  rest val.1

-- The loop of `handleStartup`, over the offset. A round reads two strings, so it moves on by two
-- bytes at least and the length of the packet is enough fuel.
pub startup_pairs : ℕ → Bytes → ℕ → Action (Unit {0})
unfolding startup_pair
startup_pairs zero buf offset = pure tt
startup_pairs (suc fuel) buf offset =
    let rest = λ (next : ℕ). startup_pairs fuel buf next in
    if ltb offset (length buf - 1)
    then (do key ← lift (read_c_string buf offset); startup_pair buf rest key.0 key.1)
    else pure tt

-- `handleStartup(buf)`
unfoldable pub handle_startup : Bytes → Action (Unit {0})
unfolding startup_pairs
handle_startup buf = startup_pairs (length buf) buf 8

-- `sendReady()`
unfoldable pub send_ready : Env → Action (Unit {0})
unfolding write
send_ready env = do
  write (
      Wire.authentication_ok
      ++ (Wire.parameter_status (codes "server_version") (codes "16.0")
          ++ (Wire.parameter_status (codes "client_encoding") (codes "UTF8")
              ++ (Wire.parameter_status (codes "DateStyle") (codes "ISO, MDY")
                  ++ (Wire.backend_key_data env.pid env.secret ++ Wire.ready_for_query b'I')))))
  modify (λ s. record s { tx_status = idle })

-- `handleParse(payload)`
unfoldable pub handle_parse : Bytes → Action (Unit {0})
unfolding write
handle_parse payload = do
  name ← lift (read_c_string payload 0)
  query ← lift (read_c_string payload name.1)
  modify (λ s. record s { unnamed_sql = some query.0 })
  write Wire.parse_complete

abbrev cons_value :
    Option Text → Result JsError (List (Option Text)) → Result JsError (List (Option Text))
cons_value v (ok vs) = ok (v ∷ vs)
cons_value v (err e) = err e

-- one parameter of `handleBind`, behind its length; a length below zero is null
abbrev bind_value :
    Bytes
    → ℤ
    → Result JsError ℤ
    → (ℤ → Result JsError (List (Option Text)))
    → Result JsError (List (Option Text))
bind_value payload offset (err e) rest = err e
bind_value payload offset (ok (negsuc len)) rest = cons_value none (rest (offset +ℤ pos 4))
bind_value payload offset (ok (pos len)) rest =
    cons_value (some (Utf8.decode (subarray payload (offset +ℤ pos 4) (offset +ℤ pos (4 + len)))))
      (rest (offset +ℤ pos (4 + len)))

-- The loop of `handleBind` over the parameters that are left.
unfoldable pub bind_values : Bytes → ℕ → ℤ → Result JsError (List (Option Text))
bind_values payload zero offset = ok []
bind_values payload (suc n) offset =
    let rest = λ (next : ℤ). bind_values payload n next in
    bind_value payload offset (read_i32_be payload offset) rest

-- `handleBind(payload)`
unfoldable pub handle_bind : Bytes → Action (Unit {0})
unfolding write bind_values
handle_bind payload = do
  portal ← lift (read_c_string payload 0)
  stmt ← lift (read_c_string payload portal.1)
  formats ← lift (read_i16_be payload (pos stmt.1))
  let offset = pos stmt.1 +ℤ (pos 2 +ℤ formats *ℤ pos 2)
  params ← lift (read_i16_be payload offset)
  values ← lift (bind_values payload (pos_part params) (offset +ℤ pos 2))
  modify (λ s. record s { unnamed_values = some values })
  write Wire.bind_complete

-- /^\s*SET\s+mtdd\.tid/i
unfoldable pub set_prefix_re : Regex
unfolding word
set_prefix_re = seq spaces (
    seq (word "SET")
      (seq (plus (chars is_space)) (seq (word "mtdd") (seq (chars (is_char b'.')) (word "tid")))))

abbrev pub or_empty : Option Text → Text
or_empty none = []
or_empty (some t) = t

abbrev pub or_no_values : Option (List (Option Text)) → List (Option Text)
or_no_values none = []
or_no_values (some vs) = vs

-- A bound tid is put into the text of the SET statement.
unfoldable pub execute_text : Text → List (Option Text) → Text
execute_text sql (some v ∷ vs) =
    if test set_prefix_re sql
    then codes "SET mtdd.tid = '" ++ (replace_char b'\'' (b'\'' ∷ b'\'' ∷ []) v ++ b'\'' ∷ [])
    else sql
execute_text sql values = sql

abbrev concat : List Bytes → Bytes
concat [] = []
concat (b ∷ bs) = b ++ concat bs

-- `handleExecute()`
unfoldable pub handle_execute : Env → Action (Unit {0})
unfolding write
handle_execute env = do
  sql ← gets (λ s. or_empty s.unnamed_sql)
  values ← gets (λ s. or_no_values s.unnamed_values)
  catch (do chunks ← run_sql env (execute_text sql values) values; write (concat chunks))
      (λ e. write (error_bytes e))

-- `readyForQuery(this.inTx ? "E" : "I")` behind the error
pub query_failed : JsError → Action (Unit {0})
unfolding write
query_failed e = do
  in_tx ← gets (λ s. s.in_tx)
  write (error_bytes e ++ Wire.ready_for_query (if in_tx then b'E' else b'I'))

-- `handleQuery(sql)`
unfoldable pub handle_query : Env → Text → Action (Unit {0})
unfolding write query_failed
handle_query env sql =
    catch
      (do
        chunks ← run_sql env sql []
        status ← gets (λ s. s.tx_status)
        write (concat chunks ++ Wire.ready_for_query (status_byte status)))
      query_failed

-- Whether the loop goes on (`continue`) or the method returns.
pub data Next : Type 0 where
  again return : Next

pub set_phase : Phase → Action (Unit {0})
set_phase p = modify (λ s. record s { phase = p })

pub set_buf : Bytes → Action (Unit {0})
set_buf b = modify (λ s. record s { buf = b })

abbrev eq_ℤ : ℤ → ℤ → Bool
eq_ℤ (pos a) (pos b) = a == b
eq_ℤ (negsuc a) (negsuc b) = a == b
eq_ℤ _ _ = false

abbrev is_empty : Text → Bool
is_empty [] = true
is_empty (c ∷ s) = false

-- behind the startup packet: without a password the session is ready
pub greet : Env → Bool → Action Next
unfolding set_phase write
greet env true = do send_ready env; set_phase ready; pure again
greet env false = do set_phase auth; write Wire.authentication_cleartext; pure again

pub startup_packet : Env → Bytes → ℤ → Action Next
unfolding handle_startup set_buf greet
startup_packet env buf len = if ltb_ℤ (pos (length buf)) len then pure return else do
  handle_startup (subarray buf (pos 0) len)
  set_buf (subarray_from buf len)
  greet env (is_empty env.password)

-- the round in phase `first`
unfoldable pub pump_first : Env → Bytes → Action Next
unfolding startup_packet set_buf write
pump_first env buf = if ltb (length buf) 8 then pure return else do
  len ← lift (read_i32_be buf (pos 0))
  code ← lift (read_i32_be buf (pos 4))
  if eq_ℤ len (pos 8) && eq_ℤ code Wire.ssl_request
      then (do set_buf (subarray_from buf (pos 8)); write (b'N' ∷ []); pure again)
      else startup_packet env buf len

-- a message in phase `auth`
unfoldable pub pump_auth : Env → ℕ → Bytes → Action Next
unfolding set_phase write emit
pump_auth env type payload =
    if type == b'p'
    then (if text_eq (strip_nuls (Utf8.decode payload)) env.password
        then (do send_ready env; set_phase ready; pure again)
        else (do
          write (Wire.error_response (codes "password authentication failed") (codes "28P01"))
          emit ended
          pure return))
    else pure again

-- `this.socket.write(wire.readyForQuery(this.txStatus))`
unfoldable pub write_ready : Action (Unit {0})
unfolding write
write_ready = do status ← gets (λ s. s.tx_status); write (Wire.ready_for_query (status_byte status))

-- a message in phase `ready`
unfoldable pub pump_ready : Env → ℕ → Bytes → Action Next
unfolding handle_query handle_parse handle_bind handle_execute write_ready write emit
pump_ready env type payload =
    if type == b'X'
    then (do emit ended; pure return)
    else if type == b'Q'
    then (do handle_query env (strip_nuls (Utf8.decode payload)); pure again)
    else if type == b'P'
    then (do handle_parse payload; pure again)
    else if type == b'B'
    then (do handle_bind payload; pure again)
    else if type == b'D'
    then pure again
    else if type == b'E'
    then (do handle_execute env; pure again)
    else if type == b'S'
    then (do write_ready; pure again)
    else if type == b'H' || type == b'C'
    then pure again
    else (do
      write (
          Wire.error_response (codes "unsupported frontend message '" ++ (type ∷ b'\'' ∷ []))
            (codes "0A000"))
      write_ready
      pure again)

abbrev pump_message : Env → Phase → ℕ → Bytes → Action Next
pump_message env auth type payload = pump_auth env type payload
pump_message env _ type payload = pump_ready env type payload

-- a message with its length field, which counts itself and not the type
pub pump_sized : Env → Phase → Bytes → ℕ → ℤ → Action Next
unfolding pump_auth pump_ready set_buf
pump_sized env phase buf type total = if ltb_ℤ (pos (length buf)) total then pure return else do
  set_buf (subarray_from buf total)
  pump_message env phase type (subarray buf (pos 5) total)

pub pump_frame : Env → Phase → Bytes → Action Next
unfolding pump_sized
pump_frame env phase [] = pure return
pump_frame env phase (type ∷ bytes) = if ltb (length bytes) 4 then pure return else do
  len ← lift (read_i32_be (type ∷ bytes) (pos 1))
  pump_sized env phase (type ∷ bytes) type (pos 1 +ℤ len)

abbrev pump_phase : Env → Phase → Bytes → Action Next
pump_phase env first buf = pump_first env buf
pump_phase env auth buf = pump_frame env auth buf
pump_phase env ready buf = pump_frame env ready buf

-- One round of the loop of `pump`, on a buffer that is not empty.
unfoldable pub pump_step : Env → Action Next
unfolding pump_first pump_frame
pump_step env = do phase ← gets (λ s. s.phase); buf ← gets (λ s. s.buf); pump_phase env phase buf

-- How a run of the loop ended: by its test or a `return`, or for want of fuel.
pub data Finish : Type 0 where
  paused out_of_fuel : Finish

abbrev pump_next : Action Finish → Result JsError Next × Session → Result JsError Finish × Session
pump_next more (ok again, s) = more s
pump_next more (ok return, s) = (ok paused, s)
pump_next more (err e, s) = (err e, s)

-- `pump()`
unfoldable pub pump : ℕ → Env → Action Finish
unfolding pump_step
pump zero env s = (ok out_of_fuel, s)
pump (suc fuel) env s = elim s.buf [
  | [] ↦ (ok paused, s)
  | b ∷ bytes ↦ pump_next (λ t. pump fuel env t) (pump_step env s)
]

-- The event `data`: the chunk is appended, the loop runs, and an error of the loop is reported.
unfoldable pub on_data : ℕ → Env → Bytes → Action Finish
unfolding pump fail
on_data fuel env chunk = do
  modify (λ s. record s { buf = s.buf ++ chunk })
  catch (pump fuel env) (λ e. (do fail e; pure paused))

-- the client's part of `cleanup`: an error of the ROLLBACK is ignored
pub abandon_client : Env → Option ℕ → Action (Unit {0})
unfolding emit
abandon_client env none = pure tt
abandon_client env (some i) = do
  emit (queried pinned i (codes "ROLLBACK") [])
  emit (released i)
  modify (λ s. record s { tx_client = none })

-- The events `error` and `close`: `cleanup()`.
unfoldable pub cleanup : Env → Action (Unit {0})
unfolding abandon_client
cleanup env = do
  client ← gets (λ s. s.tx_client)
  abandon_client env client
  modify (λ s. record s {
    in_tx = false;
    backend_in_tx = false;
    pinned_index = none;
    pending_tid = none;
  })

-- What happens on the socket; the number bounds the rounds of the loop on that chunk.
pub data SocketEvent : Type 0 where
  chunk : ℕ → Bytes → SocketEvent
  closed : SocketEvent

-- the handlers that `start()` registers
unfoldable pub on_socket : Env → SocketEvent → Session → Session
unfolding on_data cleanup
on_socket env (chunk fuel bytes) s = (on_data fuel env bytes s).1
on_socket env closed s = (cleanup env s).1

-- A connection: its socket events in order.
unfoldable pub serve : Env → List SocketEvent → Session → Session
unfolding on_socket
serve env [] s = s
serve env (e ∷ events) s = serve env events (on_socket env e s)
