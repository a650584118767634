-- ===== src/Lookup.antt =====
-- The lookup of the driver: lookup-cache.ts and lookup-client.ts. The clock, `fetch` and the values
-- of the environment are parameters; no hook is installed (hooks.ts calls its second argument).
pub mod Within
pub mod Retries
pub mod Fresh
mod Examples
use mtdd.Prelude.{
  ℕ, zero, suc, ◌+◌, ◌-◌, ◌*◌, ◌^◌, min, List, [], ◌∷◌, ◌++◌, Option, none, some, Bool, true, false,
  ltb, if◌then◌else◌,
}
use mtdd.Prelude.Int.{ℤ, pos, negsuc}
use mtdd.Js.Effect.{Result, ok, err, Effect, pure, throw, lift, gets, modify, ◌>>=◌, ◌>>◌, catch}
use mtdd.Js.Text.{Text, codes, text_eq, decimal}
use mtdd.Js.Map.{get, put, delete}
use mtdd.Js.Buffer.{JsError, error, show_ℤ}
use mtdd.Proxy.Lookup.{HostIndex, not_an_integer, integer}

-- an entry of the cache
pub record Entry : Type 0 where
  pub host_index : ℤ
  pub expires_at : ℕ

-- What was done: a request to the service, and a wait of so many milliseconds.
pub data Event : Type 0 where
  fetched : Text → Event
  waited : ℕ → Event

-- The cache, and what was done, the last first.
pub record Client : Type 0 where
  pub cache : List (Text × Entry)
  pub log : List Event

-- What `fetch` and the methods of its response give.
pub data Response : Type 0 where
  -- `fetch` rejects, with an AbortError or another
  timed_out : Response
  unreachable : Text → Response
  -- a status that is not ok, with its body ("" if that cannot be read)
  refused : ℕ → Text → Response
  malformed : Response
  answered : HostIndex → Response

-- MTDD_LOOKUP_CACHE_TTL_MS: whether it is above 0, and its whole milliseconds.
pub record Ttl : Type 0 where
  pub positive : Bool
  pub ms : ℕ

-- `now` and `fetch` may depend on all that was done before; `timeout` is the printed number.
pub record Env : Type 0 where
  pub now : List Event → ℕ
  pub fetch : List Event → Text → Response
  pub timeout : Result JsError Text
  pub retry_count : Result JsError ℕ
  pub ttl : Result JsError Ttl

abbrev pub Action : Type 0 → Type 0
Action A = Effect Client JsError A

module _ (env : Env) where
  unfoldable pub is_lookup_cache_enabled : Action Bool
  unfolding ◌>>=◌
  is_lookup_cache_enabled = do ttl ← lift env.ttl; pure ttl.positive

  -- an entry that has expired is deleted
  abbrev pub unexpired : Text → Option Entry → Action (Option ℤ)
  unexpired tid none = pure none
  unexpired tid (some entry) = do
    log ← gets (λ s. s.log)
    if ltb entry.expires_at (env.now log)
        then modify (λ s. record s { cache = delete text_eq tid s.cache }) >> pure none
        else pure (some entry.host_index)

  unfoldable pub get_cached_host_index : Text → Action (Option ℤ)
  unfolding ◌>>=◌ is_lookup_cache_enabled get delete text_eq
  get_cached_host_index tid = do
    enabled ← is_lookup_cache_enabled
    cache ← gets (λ s. s.cache)
    if enabled then unexpired tid (get text_eq tid cache) else pure none

  abbrev pub remember : Text → ℤ → Ttl → Action (Unit {0})
  remember tid i ttl = modify (λ s. record s {
    cache =
        put text_eq tid (record { host_index = i; expires_at = env.now s.log + ttl.ms }) s.cache;
  })

  unfoldable pub set_cached_host_index : Text → ℤ → Action (Unit {0})
  unfolding ◌>>=◌ is_lookup_cache_enabled put text_eq
  set_cached_host_index tid i = do
    enabled ← is_lookup_cache_enabled
    ttl ← lift env.ttl
    if enabled then remember tid i ttl else pure tt

  abbrev status_body : Text → Text
  status_body [] = []
  status_body (c ∷ body) = codes ": " ++ c ∷ body

  abbrev pub checked : Text → Text → Response → Result JsError ℤ
  checked tid timeout timed_out = err (
      error (codes "Lookup request timed out after " ++ (timeout ++ (codes "ms for tid: " ++ tid))))
  checked tid timeout (unreachable message) =
      err (error (codes "Lookup request failed for tid " ++ (tid ++ (codes ": " ++ message))))
  checked tid timeout (refused status body) = err (
      error (
        codes "Lookup server returned "
        ++ (decimal status ++ (codes " for tid " ++ (tid ++ status_body body)))))
  checked tid timeout malformed =
      err (error (codes "Lookup server returned invalid JSON for tid: " ++ tid))
  checked tid timeout (answered not_an_integer) =
      err (error (codes "Lookup server response must include integer hostIndex for tid: " ++ tid))
  checked tid timeout (answered (integer i)) = ok i

  unfoldable pub http_lookup : Text → Action ℤ
  unfolding ◌>>=◌ decimal
  http_lookup tid = do
    timeout ← lift env.timeout
    before ← gets (λ s. s.log)
    modify (λ s. record s { log = fetched tid ∷ s.log })
    lift (checked tid timeout (env.fetch before tid))

  abbrev pub backoff : ℕ → ℕ
  backoff attempt = min (100 * 2 ^ attempt) 1000

  -- the attempts from this one on, where so many may follow it
  unfoldable pub attempts : Text → ℕ → ℕ → Action ℤ
  unfolding ◌>>=◌ http_lookup catch
  attempts tid zero attempt = http_lookup tid
  attempts tid (suc left) attempt =
      let rest = attempts tid left (suc attempt) in
      catch (http_lookup tid)
        (λ e. modify (λ s. record s { log = waited (backoff attempt) ∷ s.log }) >> rest)

  unfoldable pub lookup_with_retries : Text → Action ℤ
  unfolding ◌>>=◌ attempts
  lookup_with_retries tid = do retries ← lift env.retry_count; attempts tid retries 0

  abbrev range_message : ℤ → ℕ → Text → Text
  range_message i n tid =
      codes "Lookup returned hostIndex "
      ++ (show_ℤ i
          ++ (codes " out of range [0, "
              ++ (show_ℤ (if ltb 0 n then pos (n - 1) else negsuc 0)
                  ++ (codes "] for tid: " ++ tid))))

  unfoldable pub assert_host_index : ℤ → ℕ → Text → Result JsError ℕ
  unfolding decimal
  assert_host_index (negsuc i) n tid = err (error (range_message (negsuc i) n tid))
  assert_host_index (pos i) n tid =
      if ltb i n then ok i else err (error (range_message (pos i) n tid))

  abbrev pub resolve : Text → ℕ → Option ℤ → Action ℕ
  resolve tid n (some cached) = lift (assert_host_index cached n tid)
  resolve tid n none = do
    found ← lookup_with_retries tid
    i ← lift (assert_host_index found n tid)
    set_cached_host_index tid found
    pure i

  unfoldable pub lookup_host_index : Text → ℕ → Action ℕ
  unfolding ◌>>=◌ get_cached_host_index lookup_with_retries assert_host_index set_cached_host_index
  lookup_host_index tid n = do cached ← get_cached_host_index tid; resolve tid n cached
