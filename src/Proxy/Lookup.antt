-- ===== src/Proxy/Lookup.antt =====
-- proxy/lookup.ts: the HTTP call that places a tid on a shard. `fetch` is a parameter: the answer
-- of the service.
use mtdd.Prelude.{ℕ, ◌-◌, ◌<◌, ◌≡◌, [], ◌∷◌, ◌++◌, if◌then◌else◌, ltb, arith}
use mtdd.Prelude.Int.{ℤ, pos, negsuc}
use mtdd.Js.Effect.{Result, ok, err}
use mtdd.Js.Text.{Text, codes, decimal}
use mtdd.Js.Buffer.{JsError, error, show_ℤ}

-- `payload?.hostIndex`
pub data HostIndex : Type 0 where
  -- missing, not a number, or not an integer
  not_an_integer : HostIndex
  integer : ℤ → HostIndex

-- What `fetch` and the methods of its response give.
pub data Response : Type 0 where
  -- `fetch` rejects
  unreachable : JsError → Response
  -- a status outside 200 to 299, with its body ("" if that cannot be read)
  refused : ℕ → Text → Response
  -- a body that is not JSON
  malformed : JsError → Response
  answered : HostIndex → Response

abbrev status_message : ℕ → Text → Text → Text
status_message status tid [] =
    codes "Lookup returned " ++ (decimal status ++ (codes " for tid " ++ tid))
status_message status tid (c ∷ body) =
    codes "Lookup returned "
    ++ (decimal status ++ (codes " for tid " ++ (tid ++ (codes ": " ++ c ∷ body))))

abbrev range_message : ℤ → ℕ → Text → Text
range_message i n tid =
    codes "Lookup hostIndex "
    ++ (show_ℤ i
        ++ (codes " out of range [0, "
            ++ (show_ℤ (if ltb 0 n then pos (n - 1) else negsuc 0) ++ (codes "] for tid " ++ tid))))

unfoldable pub check_range : ℤ → Text → ℕ → Result JsError ℕ
check_range (negsuc i) tid n = err (error (range_message (negsuc i) n tid))
check_range (pos i) tid n = if ltb i n then ok i else err (error (range_message (pos i) n tid))

unfoldable pub check_response : Response → Text → ℕ → Result JsError ℕ
unfolding check_range
check_response (unreachable e) tid n = err e
check_response (refused status body) tid n = err (error (status_message status tid body))
check_response (malformed e) tid n = err e
check_response (answered not_an_integer) tid n =
    err (error (codes "Lookup response missing integer hostIndex for tid " ++ tid))
check_response (answered (integer i)) tid n = check_range i tid n

-- A host index that is accepted is one of a shard.
pub check_response-lt :
    (r : Response) (tid : Text) (n i : ℕ) → check_response r tid n ≡ ok i → i < n
unfolding check_response
check_response-lt (answered (integer (pos j))) tid n i h = ground arith
check_response-lt _ tid n i h = cc
