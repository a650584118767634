-- ===== src/Grpc/Resent.antt =====
-- A request that failed in a way that may pass is sent again, whatever it asks for.
use mtdd.Prelude.{
  ℕ, zero, suc, ◌≡◌, refl, sym, ap, ◌∙◌, subst, true, Bool-cases, inl, inr, List, [], ◌∷◌, ◌++◌,
  append_assoc,
}
use mtdd.Js.Effect.{Result, ok, err, handle, catch, ◌>>=◌}
use mtdd.Grpc.{
  Endpoint, Failure, Event, sent, waited, State, Env, is_retryable_grpc_error, backoff, attempts,
  with_grpc_retries, query_endpoint,
}
use mtdd.Grpc.Sends.{attempts-Tries, query_endpoint_lem, again, asked, wait}

module _ {Q R : Type 0} (env : Env Q R) (e : Endpoint) (request : Q) where
  -- The log goes on from `before`.
  abbrev After : List (Event Q) → List (Event Q) → Type 0
  After before log = (more : List (Event Q)) × (log ≡ more ++ before)

  again-After :
      (left attempt : ℕ) (s : State Q) (r : Result Failure R)
      → After
          (sent e request ∷ s.log)
          (handle r (again e request env left attempt) (asked e request env s)).1.log
  unfolding ◌>>=◌
  again-After left attempt s (ok a) = ([], refl)
  again-After left attempt s (err f) = elim (Bool-cases (is_retryable_grpc_error f)) [
    | inl more_tries ↦
        let t =
          attempts-Tries e request env left (suc attempt)
            (wait e request env attempt (asked e request env s)) in
        rw more_tries (
          t.more ++ waited (backoff attempt) ∷ [],
          t.log
              ∙ sym (append_assoc t.more (waited (backoff attempt) ∷ []) (sent e request ∷ s.log)),
        )
    | inr last ↦ rw last ([], refl)
  ]

  attempts-After :
      (left attempt : ℕ) (s : State Q)
      → After
          (sent e request ∷ s.log)
          (attempts (query_endpoint env e request) left attempt s).1.log
  unfolding attempts catch
  attempts-After zero attempt s =
      subst (λ r. After (sent e request ∷ s.log) r.1.log) (sym (query_endpoint_lem e request env s))
        ([], refl)
  attempts-After (suc left) attempt s =
      subst
        (λ r.
          After (sent e request ∷ s.log) (handle r.0 (again e request env left attempt) r.1).1.log)
        (sym (query_endpoint_lem e request env s))
        (again-After left attempt s (env.query s.log e request))

  -- The log went on from one where the request was sent twice.
  abbrev pub SentTwice : List (Event Q) → List (Event Q) → Type 0
  SentTwice before log = After (sent e request ∷ waited 100 ∷ sent e request ∷ before) log

  failed_once :
      (left : ℕ) (s : State Q) (f : Failure) (r : Result Failure R)
      → r ≡ err f
      → is_retryable_grpc_error f ≡ true
      → SentTwice s.log (handle r (again e request env left 0) (asked e request env s)).1.log
  unfolding ◌>>=◌
  failed_once left s f (ok a) h k = cc
  failed_once left s f (err g) h k =
      let same : f ≡ g = cc in
      let may_pass : is_retryable_grpc_error g ≡ true = ap is_retryable_grpc_error (sym same) ∙ k in
      rw may_pass (attempts-After left 1 (wait e request env 0 (asked e request env s)))

  -- If the first attempt of a query fails with a code that counts as transient, among them that of a
  -- deadline, and retries are allowed, the same request is sent to the endpoint a second time,
  -- whatever the request is.
  pub with_grpc_retries-SentTwice :
      (left : ℕ) (s : State Q) (f : Failure)
      → env.query s.log e request ≡ err f
      → is_retryable_grpc_error f ≡ true
      → SentTwice s.log (with_grpc_retries (query_endpoint env e request) (suc left) s).1.log
  unfolding with_grpc_retries attempts catch
  with_grpc_retries-SentTwice left s f h k =
      subst (λ r. SentTwice s.log (handle r.0 (again e request env left 0) r.1).1.log)
        (sym (query_endpoint_lem e request env s))
        (failed_once left s f (env.query s.log e request) h k)
