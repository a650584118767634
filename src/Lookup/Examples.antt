-- ===== src/Lookup/Examples.antt =====
-- The theorems on the lookup at concrete inputs: a service that fails once.
use mtdd.Prelude.{
  ℕ, zero, suc, ◌+◌, ◌≤◌, ◌<◌, ◌≡◌, refl, List, [], none, some, true, if◌then◌else◌, ltb, arith,
}
use mtdd.Prelude.Int.{ℤ, pos}
use mtdd.Js.Effect.{ok}
use mtdd.Js.Text.{codes, text_eq}
use mtdd.Js.Map.{delete}
use mtdd.Proxy.Lookup.{integer}
use mtdd.Lookup.{
  Env, Client, Event, Response, answered, malformed, get_cached_host_index, set_cached_host_index,
  lookup_with_retries, lookup_host_index,
}
use mtdd.Lookup.Within.{lookup_host_index-lt}
use mtdd.Lookup.Retries.{Asks, requests, lookup_with_retries-Asks, lookup_with_retries-recovers}
use mtdd.Lookup.Fresh.{later, remembered, get-set_cached_host_index}

abbrev reply : ℕ → Response
reply zero = malformed
reply (suc n) = answered (integer (pos 1))

abbrev env : Env
env = record {
  now = λ log. 5;
  fetch = λ log tid. reply (requests log);
  timeout = ok (codes "2000");
  retry_count = ok 2;
  ttl = ok (record { positive = true; ms = 30000 });
}

abbrev fresh : Client
fresh = record { cache = []; log = [] }

lookup_lem : (lookup_host_index env (codes "a") 3 fresh).0 ≡ ok 1
unfolding lookup_host_index
lookup_lem = refl

lookup_host_index-lt_example : 1 < 3
lookup_host_index-lt_example = lookup_host_index-lt env (codes "a") 3 fresh 1 lookup_lem

lookup_with_retries-Asks_example : Asks 3 [] (lookup_with_retries env (codes "a") fresh).1.log
lookup_with_retries-Asks_example = lookup_with_retries-Asks env (codes "a") 2 fresh refl

answers :
    (log : List Event) → 1 ≤ requests log → env.fetch log (codes "a") ≡ answered (integer (pos 1))
answers log h = positive (requests log) h
  where
    positive : (n : ℕ) → 1 ≤ n → reply n ≡ answered (integer (pos 1))
    positive zero h = absurd (omega (arith, h))
    positive (suc n) h = refl

lookup_with_retries-recovers_example :
    (j : ℤ) × ((lookup_with_retries env (codes "a") fresh).0 ≡ ok j)
lookup_with_retries-recovers_example =
    lookup_with_retries-recovers env (codes "a") (codes "2000") (pos 1) refl 2 1 fresh refl answers
      (omega arith)

get-set_cached_host_index_example :
    get_cached_host_index env (codes "a") (
      later env
        (codes "a")
        (pos 1)
        30000
        refl
        []
        (set_cached_host_index env (codes "a") (pos 1) fresh).1)
    ≡ (if ltb (5 + 30000) 5
        then (
          ok none,
          record fresh {
            cache =
                delete text_eq
                  (codes "a")
                  (remembered env (codes "a") (pos 1) 30000 refl fresh).cache;
          },
        )
        else (ok (some (pos 1)), remembered env (codes "a") (pos 1) 30000 refl fresh))
get-set_cached_host_index_example =
    get-set_cached_host_index env (codes "a") (pos 1) 30000 refl fresh []
