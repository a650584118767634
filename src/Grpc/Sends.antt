-- ===== src/Grpc/Sends.antt =====
-- What a query on a shard sends, and how often.
use mtdd.Prelude.{
  ℕ, zero, suc, ◌+◌, ◌≤◌, ◌≡◌, refl, sym, ap, ◌∙◌, subst, Bool-cases, inl, inr, List, [], ◌∷◌, ◌++◌,
  append_assoc, Option, none, some, get_elem?, set, if◌then◌else◌, arith,
}
use mtdd.Js.Effect.{Result, ok, err, handle, throw, ◌>>=◌, ◌>>◌, catch}
use mtdd.Routing.Executor.{Role}
use mtdd.Hosts.{Shard, resolve_shard_endpoint}
use mtdd.Grpc.{
  Endpoint, Failure, Event, connecting, warned, sent, waited, disconnecting, closed, State, Env,
  Action, emit, is_retryable_grpc_error, backoff, attempts, with_grpc_retries, query_endpoint,
}
use mtdd.Grpc.Hub.{query_found, query_shard}

module _ {Q : Type 0} (e : Endpoint) (request : Q) where
  -- Nothing but this request to this endpoint, and waits of up to a second.
  abbrev pub Only : List (Event Q) → Type 0
  Only [] = Unit
  Only (sent f q ∷ log) = (f ≡ e) × (q ≡ request) × Only log
  Only (waited ms ∷ log) = (ms ≤ 1000) × Only log
  Only (_ ∷ log) = ⊥

  abbrev pub requests : List (Event Q) → ℕ
  requests [] = 0
  requests (sent f q ∷ log) = suc (requests log)
  requests (_ ∷ log) = requests log

  -- The log went on by up to `most` requests.
  pub record Tries (most : ℕ) (before after : List (Event Q)) : Type 0 where
    pub more : List (Event Q)
    pub log : after ≡ more ++ before
    pub only : Only more
    pub count : requests more ≤ most

  Only-append : (xs ys : List (Event Q)) → Only xs → Only ys → Only (xs ++ ys)
  Only-append [] ys h k = k
  Only-append (sent f q ∷ xs) ys (a, b, h) k = (a, b, Only-append xs ys h k)
  Only-append (waited ms ∷ xs) ys (a, h) k = (a, Only-append xs ys h k)
  Only-append (connecting f ∷ xs) ys h k = absurd h
  Only-append (warned a i b ∷ xs) ys h k = absurd h
  Only-append (disconnecting f ∷ xs) ys h k = absurd h
  Only-append (closed f ∷ xs) ys h k = absurd h

  requests-append :
      (xs ys : List (Event Q)) → Only xs → requests (xs ++ ys) ≡ requests xs + requests ys
  requests-append [] ys h = omega arith
  requests-append (sent f q ∷ xs) ys (a, b, h) = omega (arith, requests-append xs ys h)
  requests-append (waited ms ∷ xs) ys (a, h) = omega (arith, requests-append xs ys h)
  requests-append (connecting f ∷ xs) ys h = absurd h
  requests-append (warned a i b ∷ xs) ys h = absurd h
  requests-append (disconnecting f ∷ xs) ys h = absurd h
  requests-append (closed f ∷ xs) ys h = absurd h

  then_Tries :
      (a b c : ℕ) (x y z : List (Event Q)) → c ≡ a + b → Tries a x y → Tries b y z → Tries c x z
  then_Tries a b c x y z sum first second = record {
    more = second.more ++ first.more;
    log =
        second.log
        ∙ (ap (λ t. second.more ++ t) first.log ∙ sym (append_assoc second.more first.more x));
    only = Only-append second.more first.more second.only first.only;
    count =
        omega (
          arith,
          sum,
          requests-append second.more first.more second.only,
          first.count,
          second.count,
        );
  }

  one_request : (log : List (Event Q)) → Tries 1 log (sent e request ∷ log)
  one_request log = record {
    more = sent e request ∷ [];
    log = refl;
    only = (refl, refl, tt);
    count = omega arith;
  }

  one_wait : (attempt : ℕ) (log : List (Event Q)) → Tries 0 log (waited (backoff attempt) ∷ log)
  one_wait attempt log = record {
    more = waited (backoff attempt) ∷ [];
    log = refl;
    only = (omega arith, tt);
    count = omega arith;
  }

  module _ {R : Type 0} (env : Env Q R) where
    -- the state after a request
    abbrev pub asked : State Q → State Q
    asked s = record s { log = sent e request ∷ s.log }

    abbrev pub wait : ℕ → State Q → State Q
    wait attempt s = record s { log = waited (backoff attempt) ∷ s.log }

    pub query_endpoint_lem :
        (s : State Q) → query_endpoint env e request s ≡ (env.query s.log e request, asked s)
    unfolding query_endpoint ◌>>=◌
    query_endpoint_lem s = refl

    abbrev pub again : ℕ → ℕ → Failure → Action Q R
    again left attempt f =
        if is_retryable_grpc_error f
        then emit Q (waited (backoff attempt))
          >> attempts (query_endpoint env e request) left (suc attempt)
        else throw f

    again-Tries :
        (left attempt : ℕ) (s : State Q) (r : Result Failure R)
        → ((c : State Q)
            → Tries
                (suc left)
                c.log
                (attempts (query_endpoint env e request) left (suc attempt) c).1.log)
        → Tries (suc (suc left)) s.log (handle r (again left attempt) (asked s)).1.log
    unfolding ◌>>=◌
    again-Tries left attempt s (ok a) ih =
        let none_else : Tries (suc left) (asked s).log (asked s).log = record {
          more = [];
          log = refl;
          only = tt;
          count = omega arith;
        } in
        then_Tries 1 (suc left) (suc (suc left)) s.log (asked s).log (asked s).log (omega arith)
          (one_request s.log) none_else
    again-Tries left attempt s (err f) ih = elim (Bool-cases (is_retryable_grpc_error f)) [
      | inl again_after ↦ rw again_after (
          then_Tries 1 (suc left) (suc (suc left)) s.log (asked s).log _ (omega arith)
            (one_request s.log)
            (then_Tries 0 (suc left) (suc left) (asked s).log (wait attempt (asked s)).log _
              (omega arith) (one_wait attempt (asked s).log) (ih (wait attempt (asked s)))))
      | inr last ↦
          let none_else : Tries (suc left) (asked s).log (asked s).log = record {
            more = [];
            log = refl;
            only = tt;
            count = omega arith;
          } in
          rw last (
            then_Tries 1 (suc left) (suc (suc left)) s.log (asked s).log (asked s).log (omega arith)
              (one_request s.log) none_else)
    ]

    pub attempts-Tries :
        (left attempt : ℕ) (s : State Q)
        → Tries (suc left) s.log (attempts (query_endpoint env e request) left attempt s).1.log
    unfolding attempts catch
    attempts-Tries zero attempt s =
        subst (λ r. Tries 1 s.log r.1.log) (sym (query_endpoint_lem s)) (one_request s.log)
    attempts-Tries (suc left) attempt s =
        subst (λ r. Tries (suc (suc left)) s.log (handle r.0 (again left attempt) r.1).1.log)
          (sym (query_endpoint_lem s))
          (again-Tries left attempt s (env.query s.log e request)
            (attempts-Tries left (suc attempt)))

module _ {Q R : Type 0} (env : Env Q R) (i : ℕ) (request : Q) (role : Role) where
  abbrev chosen : Shard Endpoint → Endpoint
  chosen shard = (resolve_shard_endpoint role shard).0

  found-Tries :
      (shards : List (Shard Endpoint)) (shard : Shard Endpoint) (o : Option (Shard Endpoint))
      (s : State Q)
      → o ≡ some shard
      → Tries
          (chosen shard)
          request
          (suc env.max_retries)
          s.log
          (query_found env i request role shards o s).1.log
  unfolding ◌>>=◌ with_grpc_retries
  found-Tries shards shard none s e = cc
  found-Tries shards shard (some found) s e =
      let same : found ≡ shard = cc in
      subst
        (λ x.
          Tries (chosen x) request (suc env.max_retries) s.log
            (query_found env i request role shards (some found) s).1.log)
        same
        (attempts-Tries (chosen found) request env env.max_retries 0
          (record s { shards = some (set shards i (resolve_shard_endpoint role found).1) }))

  -- A query on a connected host sends its request to the one endpoint of the host that its role
  -- chooses and to no other, at most once more than the number of retries, with waits of at most a
  -- second.
  pub query_shard-Tries :
      (s : State Q) (shards : List (Shard Endpoint)) (shard : Shard Endpoint)
      → s.shards ≡ some shards
      → get_elem? shards i ≡ some shard
      → Tries
          (chosen shard)
          request
          (suc env.max_retries)
          s.log
          (query_shard env i request role s).1.log
  unfolding query_shard ◌>>=◌
  query_shard-Tries s shards shard ready there =
      rw ready
        (found-Tries shards shard (get_elem? shards i) (record s { shards = some shards }) there)
