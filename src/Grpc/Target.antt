-- ===== src/Grpc/Target.antt =====
-- grpc-target.ts: the address of the service of a host.
use mtdd.Prelude.{ℕ, Bool, not, ◌&&◌, [], ◌∷◌, ◌++◌, drop, if◌then◌else◌}
use mtdd.Js.Effect.{Result, ok, err}
use mtdd.Js.Text.{Text, codes, trim, starts_with, decimal}
use mtdd.Js.Buffer.{JsError, error}

-- MTDD_GRPC_UNIX_SOCKET ("" if it is not set), whether one of the variables of TLS is set, and the
-- result of getGrpcPort.
pub record Settings : Type 0 where
  pub unix_socket : Text
  pub tls : Bool
  pub port : Result JsError ℕ

abbrev with_scheme : Text → Text
with_scheme value = if starts_with value (codes "unix:") then value else codes "unix:" ++ value

abbrev absolute : Text → Text
absolute value =
    if starts_with value (codes "unix:/") && not (starts_with value (codes "unix://"))
    then codes "unix://" ++ drop 5 value
    else value

unfoldable pub normalize_unix_grpc_target : Text → Text
unfolding trim starts_with
normalize_unix_grpc_target raw = absolute (with_scheme (trim raw))

unfoldable pub is_unix_grpc_target : Text → Bool
unfolding starts_with
is_unix_grpc_target address = starts_with address (codes "unix:")

abbrev no_tls : Text
no_tls =
    codes
      "@advcomm/mtdd: MTDD_GRPC_UNIX_SOCKET uses plain gRPC (no TLS). Use nginx TCP + MTDD_GRPC_TLS_* in production, or unset TLS vars for local unix socket dev."

abbrev at_port : Text → Result JsError ℕ → Result JsError Text
at_port host (err e) = err e
at_port host (ok port) = ok (host ++ b':' ∷ decimal port)

abbrev socket_or : Settings → Text → Text → Result JsError Text
socket_or settings host [] = at_port host settings.port
socket_or settings host (c ∷ socket) =
    if settings.tls then err (error no_tls) else ok (normalize_unix_grpc_target (c ∷ socket))

unfoldable pub resolve_shard_grpc_target : Settings → Text → Result JsError Text
unfolding normalize_unix_grpc_target decimal
resolve_shard_grpc_target settings host = socket_or settings host settings.unix_socket
