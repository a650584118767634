-- ===== src/Lib.antt =====
-- Verification of mtdd, a multi-tenant database driver and routing proxy (TypeScript, src/).
--
-- A client binds a tenant id (tid), an HTTP lookup service places the tid on a shard, and the
-- statement that follows is run on that shard. The parts of the program and their models:
--
--   Prelude      shared names, Boolean tests, lists and integers over the native numbers.
--   Js           what the source uses of the language and of Node: Text (strings as UTF-16 code
--                units), Regex (backtracking regular expressions with captures), Buffer (bytes,
--                big- and little-endian integers), Utf8, Map (maps and sets by a test of
--                keys), Effect (methods that throw, and rules for their invariants), Fallible (pure
--                functions that throw).
--   Proxy        src/proxy, the production entry. TidSql is tid-sql.ts (splitStatements,
--                classifyStatement), Wire is pg-wire.ts, Lookup is lookup.ts, BackendPool is
--                backend-pool.ts, Session and Session/Pump are session.ts: a method of ProxySession
--                is an action on a record with the fields of the class and a log of what the session
--                did to the world. pump() is Pump.pump, the handlers of the socket are Pump.on_socket.
--   Rpgb         src/pg-binary-encode.ts and src/pg-binary-decode.ts, the column-major batches of
--                query results: Cell has the cells, Numeric the binary numerics, Batch the layout.
--   Routing      the driver that runs in the process of the application. Parse is src/sql-parse.ts and
--                src/listen-notify-parse.ts, Cache is the map of src/ast-classify-cache.ts and the
--                classification through it, Merge is src/merge-results.ts, FanOut is
--                src/fan-out-policy.ts, Executor and its children are src/query-executor.ts and
--                src/query-classifier.ts: executeRoutedQuery is Executor/Route.execute_routed_query,
--                an action on the pin of the target, the request and a log of what was contacted;
--                Executor/Tenant has the ways to the host of a tenant.
--                LocalFanOut is src/select-local-fanout.ts, src/postgres-aggregate-functions.ts and
--                src/select-order-rewrite.ts: Aggregates has the names, Walk the walks over an
--                expression, Support the checks, Columns buildRowLevelColumns, Split
--                splitSelectForLocalFanOut. Walk/Occurs says where a node occurs in a SELECT and
--                Split/Shardable what a fan-out asks of a call, both apart from the code. LocalMerge is src/postgres-select-merge.ts: Load has the
--                three ways of loading rows, Run the transaction.
--   Notify       LISTEN, UNLISTEN and NOTIFY of the driver: src/notification-registry.ts, the transport
--                in memory of src/mtdd-notify-transport.ts, src/listen-notify-handler.ts and
--                src/listen-notify-lifecycle.ts. Registry and transport are one record, Hub.
--   Lookup       src/lookup-client.ts and src/lookup-cache.ts, the lookup of the driver: an action on the
--                cache and a log of requests and waits.
--   Hosts        src/shard-endpoints.ts and the getters of src/host-config.ts.
--   Grpc         src/grpc-hub.ts with its real transport, and src/grpc-target.ts: Hub has initGrpcHub,
--                queryShard and closeGrpcHub as actions on the connected shards and a log, Grows the
--                rules for what holds of the log.
--
-- The lookup service, the pools of the library pg and the backends are parameters of a session (the
-- record Env), and so are the shards, the parser of SQL and its printer, Redis and the local
-- PostgreSQL: what they answer may depend on all that happened before. The split of a SELECT and its
-- local merge are fields of the environment of the executor, which Routing/Local fills with the
-- functions of LocalFanOut and LocalMerge; the handling of LISTEN and NOTIFY is a field too, and Notify
-- models it by itself. Of a node of the parser of SQL what the walks do not read is kept as a text, and
-- JSON.stringify of two nodes is taken to be the same exactly if they are.
--
-- Events of one connection are handled one after another, so a socket that closes while a method waits
-- is not covered. The tasks of a fan-out run one after another, in the order of the hosts, and so do
-- the disconnections of a hub. The loops over texts take their length as fuel, since every round
-- consumes a character, and the batches of an INSERT the number of the rows. The loop of pump() takes
-- any fuel, since some messages whose length field is -1 make no progress and no fuel is enough for all
-- inputs. Floats are kept as their IEEE bytes.
--
-- Not modelled: the reading of the environment and of the configuration, whose results are parameters;
-- the codec of gRPC requests and results but for the batches of rows, which is a parameter of the hub;
-- credentials and TLS, which call libraries that are not in the repository; the gRPC transport of
-- notifications; the patch of the module pg and its facades; the hooks of src/hooks.ts, which pass the
-- call on unless the program replaces them; logging.
pub mod Prelude
pub mod Js
pub mod Proxy
pub mod Rpgb
pub mod Routing
pub mod Notify
pub mod Lookup
pub mod Hosts
pub mod Grpc
