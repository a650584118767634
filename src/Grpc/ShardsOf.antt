-- ===== src/Grpc/ShardsOf.antt =====
-- The shards that grpc-hub.ts connects to, and the Connects that it sends for them.
use mtdd.Prelude.{ℕ, suc, ◌≡◌, ◌⊎◌, inl, inr, refl, List, [], ◌∷◌, ◌++◌}
use mtdd.Js.Effect.{Result, ok, err, pure, lift, gets, ◌>>=◌, ◌>>◌}
use mtdd.Js.Text.{Text}
use mtdd.Routing.Executor.{read, write}
use mtdd.Hosts.{Shard, HostEntry, get_write_host, get_read_hosts}
use mtdd.Grpc.{
  Endpoint, Failure, Env, Event, State, Connect, failed, refused, accepted, connect_result,
  connecting, warned, emit, connect_endpoint, connect_reads, connect_shard, connect_all,
}
use mtdd.Grpc.Grows.{
  Log, Lasts, Leaves, Grows, Anything, Grows-pure, Grows-frame, Grows-from, Grows-catch, Grows-bind,
}

abbrev pub write_endpoint_of : ℕ → HostEntry → Endpoint
write_endpoint_of i entry = record { host = get_write_host entry; host_index = i; role = write }

abbrev pub read_endpoint_of : ℕ → Text → Endpoint
read_endpoint_of i host = record { host = host; host_index = i; role = read }

module _ {Q R : Type 0} (env : Env Q R) where
  -- A Connect was sent to the endpoint and accepted.
  abbrev pub Connected : Endpoint → Log Q → Type 0
  Connected e [] = ⊥
  Connected e (event ∷ log) =
      ((event ≡ connecting e) × (env.connect log e ≡ accepted)) ⊎ Connected e log

  -- A warning was written about a read host of the writer.
  abbrev pub WarnedOf : Text → ℕ → Text → Log Q → Type 0
  WarnedOf writer i host [] = ⊥
  WarnedOf writer i host (event ∷ log) = (event ≡ warned writer i host) ⊎ WarnedOf writer i host log

  -- The endpoints are those of the read hosts, in their order, and connected; a host may be left out
  -- with a warning.
  pub data ReadsOf (log : Log Q) (i : ℕ) (writer : Text) : List Text → List Endpoint → Type 0 where
    end : ReadsOf log i writer [] []
    kept :
        {host : Text} {hosts : List Text} {e : Endpoint} {endpoints : List Endpoint}
        → e ≡ read_endpoint_of i host
        → Connected e log
        → ReadsOf log i writer hosts endpoints
        → ReadsOf log i writer (host ∷ hosts) (e ∷ endpoints)
    left_out :
        {host : Text} {hosts : List Text} {endpoints : List Endpoint}
        → WarnedOf writer i host log
        → ReadsOf log i writer hosts endpoints
        → ReadsOf log i writer (host ∷ hosts) endpoints

  -- The shard of an entry of the hosts.
  pub record IsShardOf (log : Log Q) (i : ℕ) (entry : HostEntry) (shard : Shard Endpoint)
      : Type 0 where
    pub writer : shard.write_endpoint ≡ write_endpoint_of i entry
    pub connected : Connected shard.write_endpoint log
    pub readers : ReadsOf log i (get_write_host entry) (get_read_hosts entry) shard.reads
    pub counter : shard.read_counter ≡ 0

  -- One shard for each entry, in order, the first of the index `i`.
  abbrev pub ShardsOf : Log Q → ℕ → List HostEntry → List (Shard Endpoint) → Type 0
  ShardsOf log i [] [] = Unit
  ShardsOf log i (entry ∷ hosts) (shard ∷ shards) =
      IsShardOf log i entry shard × ShardsOf log (suc i) hosts shards
  ShardsOf log i _ _ = ⊥

  reads_last :
      (event : Event Q) (log : Log Q) (i : ℕ) (writer : Text) {hosts : List Text}
      {endpoints : List Endpoint}
      → ReadsOf log i writer hosts endpoints
      → ReadsOf (event ∷ log) i writer hosts endpoints
  reads_last event log i writer end = end
  reads_last event log i writer (kept same c r) =
      kept same (inr c) (reads_last event log i writer r)
  reads_last event log i writer (left_out w r) = left_out (inr w) (reads_last event log i writer r)

  ReadsOf-Lasts :
      (i : ℕ) (writer : Text) (hosts : List Text) (endpoints : List Endpoint)
      → Lasts (λ log. ReadsOf log i writer hosts endpoints)
  ReadsOf-Lasts i writer hosts endpoints event log h = reads_last event log i writer h

  IsShardOf-Lasts :
      (i : ℕ) (entry : HostEntry) (shard : Shard Endpoint)
      → Lasts (λ log. IsShardOf log i entry shard)
  IsShardOf-Lasts i entry shard event log h = record {
    writer = h.writer;
    connected = inr h.connected;
    readers =
        ReadsOf-Lasts i (get_write_host entry) (get_read_hosts entry) shard.reads event log
          h.readers;
    counter = h.counter;
  }

  abbrev IsNew : Endpoint → Endpoint → Log Q → Type 0
  IsNew e found log = (found ≡ e) × Connected found log

  answered_lem :
      (e : Endpoint) (s : State Q) (answer : Connect)
      → env.connect s.log e ≡ answer
      → Leaves (IsNew e) s.log (connect_result e answer, record s { log = connecting e ∷ s.log })
  answered_lem e s (failed message) h = (connecting e ∷ [], refl)
  answered_lem e s (refused message) h = (connecting e ∷ [], refl)
  answered_lem e s accepted h = ((connecting e ∷ [], refl), (refl, inl (refl, h)))

  addressed_lem :
      {A : Type 0} (e : Endpoint) (r : Result Failure A) (s : State Q)
      → Leaves (IsNew e) s.log (
          (lift r >>= λ address. gets (λ s. s.log) >>= λ before.
          emit Q (connecting e) >> lift (connect_result e (env.connect before e)))
            s)
  unfolding ◌>>=◌
  addressed_lem e (err thrown) s = ([], refl)
  addressed_lem e (ok address) s = answered_lem e s (env.connect s.log e) refl

  endpoint-Grows : (e : Endpoint) → Grows Anything (IsNew e) (connect_endpoint env e)
  unfolding connect_endpoint
  endpoint-Grows e = record { at = λ s b. addressed_lem e _ s }

  -- what is found of one read host
  abbrev Found : Text → ℕ → Text → List Endpoint → Log Q → Type 0
  Found writer i host found log = ReadsOf log i writer (host ∷ []) found

  ReadsOf-append :
      (log : Log Q) (i : ℕ) (writer : Text) {xs ys : List Text} {found rest : List Endpoint}
      → ReadsOf log i writer xs found
      → ReadsOf log i writer ys rest
      → ReadsOf log i writer (xs ++ ys) (found ++ rest)
  ReadsOf-append log i writer end k = k
  ReadsOf-append log i writer (kept same c r) k = kept same c (ReadsOf-append log i writer r k)
  ReadsOf-append log i writer (left_out w r) k = left_out w (ReadsOf-append log i writer r k)

  warned-Grows :
      (writer : Text) (i : ℕ) (host : Text)
      → Grows Anything (Found writer i host) (emit Q (warned writer i host) >> pure [])
  unfolding ◌>>=◌
  warned-Grows writer i host = record {
    at = λ s b. ((warned writer i host ∷ [], refl), left_out (inl refl) end);
  }

  reads-Grows :
      (writer : Text) (i : ℕ) (hosts : List Text)
      → Grows Anything
          (λ found log. ReadsOf log i writer hosts found)
          (connect_reads env writer i hosts)
  unfolding connect_reads
  reads-Grows writer i [] = Grows-pure [] (λ log b. end)
  reads-Grows writer i (host ∷ hosts) =
      Grows-bind {P = Found writer i host}
        (Grows-catch _
          (Grows-bind (endpoint-Grows (read_endpoint_of i host))
            (λ e. Grows-pure (e ∷ []) (λ log new. kept new.0 new.1 end)))
          (λ thrown. warned-Grows writer i host))
        (λ found.
          Grows-bind
            (Grows-from (Found writer i host found) (λ log h. (tt, h))
              (Grows-frame (Found writer i host found) (ReadsOf-Lasts i writer (host ∷ []) found)
                (reads-Grows writer i hosts)))
            (λ rest. Grows-pure (found ++ rest) (λ log h. ReadsOf-append log i writer h.1 h.0)))

  shard-Grows :
      (i : ℕ) (entry : HostEntry)
      → Grows Anything (λ shard log. IsShardOf log i entry shard) (connect_shard env i entry)
  unfolding connect_shard
  shard-Grows i entry = Grows-bind (endpoint-Grows (write_endpoint_of i entry)) (λ writer.
      Grows-bind
        (Grows-from (IsNew (write_endpoint_of i entry) writer) (λ log h. (tt, h))
          (Grows-frame (IsNew (write_endpoint_of i entry) writer) (λ event log h. (h.0, inr h.1))
            (reads-Grows (get_write_host entry) i (get_read_hosts entry))))
        (λ readers.
          Grows-pure (record { write_endpoint = writer; reads = readers; read_counter = 0 })
            (λ log h. record { writer = h.1.0; connected = h.1.1; readers = h.0; counter = refl })))

  pub all-Grows :
      (i : ℕ) (hosts : List HostEntry)
      → Grows Anything (λ shards log. ShardsOf log i hosts shards) (connect_all env i hosts)
  unfolding connect_all
  all-Grows i [] = Grows-pure [] (λ log b. tt)
  all-Grows i (entry ∷ hosts) = Grows-bind (shard-Grows i entry) (λ shard.
      Grows-bind
        (Grows-from (λ log. IsShardOf log i entry shard) (λ log h. (tt, h))
          (Grows-frame (λ log. IsShardOf log i entry shard) (IsShardOf-Lasts i entry shard)
            (all-Grows (suc i) hosts)))
        (λ rest. Grows-pure (shard ∷ rest) (λ log h. (h.1, h.0))))
