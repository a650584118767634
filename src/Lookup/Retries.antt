-- ===== src/Lookup/Retries.antt =====
-- How often the service is asked, and when it is enough.
use mtdd.Prelude.{ℕ, zero, suc, ◌+◌, ◌≤◌, ◌≡◌, refl, sym, subst, ap, ◌∙◌, List, [], ◌∷◌, arith}
use mtdd.Prelude.Int.{ℤ}
use mtdd.Js.Effect.{Result, ok, err, resume, modify, ◌>>=◌, ◌>>◌, catch, handle}
use mtdd.Js.Text.{Text}
use mtdd.Js.Buffer.{JsError}
use mtdd.Proxy.Lookup.{integer}
use mtdd.Lookup.{
  Env, Client, Event, fetched, waited, answered, checked, http_lookup, backoff, attempts,
  lookup_with_retries,
}

abbrev pub requests : List Event → ℕ
requests [] = 0
requests (fetched tid ∷ log) = suc (requests log)
requests (waited ms ∷ log) = requests log

-- Every wait is at most so long.
abbrev pub WaitsAtMost : ℕ → List Event → Type 0
WaitsAtMost most [] = Unit
WaitsAtMost most (fetched tid ∷ log) = WaitsAtMost most log
WaitsAtMost most (waited ms ∷ log) = (ms ≤ most) × WaitsAtMost most log

-- What so many attempts add to a log.
pub record Asks (most : ℕ) (before after : List Event) : Type 0 where
  pub enough : requests after ≤ requests before + most
  pub waits : WaitsAtMost 1000 before → WaitsAtMost 1000 after

module _ (env : Env) (tid : Text) where
  -- one request, if the timeout can be read
  asked : Result JsError Text → Client → Client
  asked (err e) s = s
  asked (ok timeout) s = record s { log = fetched tid ∷ s.log }

  one_answer : Result JsError Text → Client → Result JsError ℤ
  one_answer (err e) s = err e
  one_answer (ok timeout) s = checked env tid timeout (env.fetch s.log tid)

  http_if :
      (t : Result JsError Text) (s : Client)
      → resume t
          (λ timeout c.
            (checked env tid timeout (env.fetch c.log tid), record c { log = fetched tid ∷ c.log }))
          s
        ≡ (one_answer t s, asked t s)
  unfolding one_answer asked
  http_if (err e) s = refl
  http_if (ok timeout) s = refl

  http_lookup_lem :
      (s : Client) → http_lookup env tid s ≡ (one_answer env.timeout s, asked env.timeout s)
  unfolding http_lookup ◌>>=◌
  http_lookup_lem s = http_if env.timeout s

  asked-Asks : (t : Result JsError Text) (s : Client) → Asks 1 s.log (asked t s).log
  unfolding asked
  asked-Asks (err e) s = record { enough = omega arith; waits = λ h. h }
  asked-Asks (ok timeout) s = record { enough = omega arith; waits = λ h. h }

  abbrev wait : ℕ → Client → Client
  wait attempt c = record c { log = waited (backoff env attempt) ∷ c.log }

  backoff_lem : (attempt : ℕ) → backoff env attempt ≤ 1000
  backoff_lem attempt = omega arith

  wider : (a b c : ℕ) (x y z : List Event) → c ≡ a + b → Asks a x y → Asks b y z → Asks c x z
  wider a b c x y z e first second = record {
    enough = omega (arith, e, first.enough, second.enough);
    waits = λ h. second.waits (first.waits h);
  }

  again-Asks :
      (left attempt : ℕ) (s : Client) (r : Result JsError ℤ)
      → ((c : Client) → Asks (suc left) c.log (attempts env tid left (suc attempt) c).1.log)
      → Asks
          (suc (suc left))
          s.log
          (handle r
            (λ e. modify (wait attempt) >> attempts env tid left (suc attempt))
            (asked env.timeout s)).1.log
  unfolding ◌>>=◌
  again-Asks left attempt s (ok i) ih =
      let first = asked-Asks env.timeout s in
      record { enough = omega (arith, first.enough); waits = first.waits }
  again-Asks left attempt s (err e) ih =
      let next = wait attempt (asked env.timeout s) in
      let pause : Asks 0 (asked env.timeout s).log next.log = record {
        enough = omega arith;
        waits = λ h. (backoff_lem attempt, h);
      } in
      wider 1 (suc left) (suc (suc left)) s.log (asked env.timeout s).log _ (omega arith)
        (asked-Asks env.timeout s)
        (wider 0 (suc left) (suc left) (asked env.timeout s).log next.log _ (omega arith) pause
          (ih next))

  attempts-Asks :
      (left attempt : ℕ) (s : Client)
      → Asks (suc left) s.log (attempts env tid left attempt s).1.log
  unfolding attempts catch
  attempts-Asks zero attempt s =
      subst (λ r. Asks 1 s.log r.1.log) (sym (http_lookup_lem s)) (asked-Asks env.timeout s)
  attempts-Asks (suc left) attempt s =
      subst
        (λ r.
          Asks (suc (suc left)) s.log
            (handle r.0 (λ e. modify (wait attempt) >> attempts env tid left (suc attempt))
              r.1).1.log)
        (sym (http_lookup_lem s))
        (again-Asks left attempt s (one_answer env.timeout s) (attempts-Asks left (suc attempt)))

  counted_Asks :
      (r : Result JsError ℕ) (n : ℕ) (s : Client)
      → r ≡ ok n
      → Asks (suc n) s.log (resume r (λ retries. attempts env tid retries 0) s).1.log
  counted_Asks (ok m) n s e =
      let same : m ≡ n = cc in
      subst (λ k. Asks (suc k) s.log (attempts env tid m 0 s).1.log) same (attempts-Asks m 0 s)
  counted_Asks (err thrown) n s e = cc

  -- With a number of retries, a lookup asks the service at most once more than that, and no wait
  -- between two requests is longer than a second.
  pub lookup_with_retries-Asks :
      (n : ℕ) (s : Client)
      → env.retry_count ≡ ok n
      → Asks (suc n) s.log (lookup_with_retries env tid s).1.log
  unfolding lookup_with_retries ◌>>=◌
  lookup_with_retries-Asks n s e = counted_Asks env.retry_count n s e

  -- The service answers with this index once it was asked so often.
  module _ (timeout : Text) (i : ℤ) (readable : env.timeout ≡ ok timeout) where
    abbrev pub AnswersAfter : ℕ → Type 0
    AnswersAfter k =
        (log : List Event) → k ≤ requests log → env.fetch log tid ≡ answered (integer i)

    asks : (s : Client) → asked env.timeout s ≡ record s { log = fetched tid ∷ s.log }
    unfolding asked
    asks s = rw readable

    answers :
        (k : ℕ)
        → AnswersAfter k
        → (s : Client) → k ≤ requests s.log
        → one_answer env.timeout s ≡ ok i
    unfolding one_answer
    answers k h s enough = rw (readable, h s.log enough)

    Recovers : Result JsError ℤ × Client → Type 0
    Recovers r = (j : ℤ) × (r.0 ≡ ok j)

    retried :
        (left attempt : ℕ) (s : Client) (r : Result JsError ℤ)
        → ((c : Client)
            → c ≡ wait attempt (asked env.timeout s)
            → Recovers (attempts env tid left (suc attempt) c))
        → Recovers (
            handle r
              (λ e. modify (wait attempt) >> attempts env tid left (suc attempt))
              (asked env.timeout s))
    unfolding ◌>>=◌ Recovers
    retried left attempt s (ok j) ih = (j, refl)
    retried left attempt s (err e) ih = ih (wait attempt (asked env.timeout s)) refl

    recovered :
        (left attempt k : ℕ) (s : Client)
        → AnswersAfter k
        → k ≤ requests s.log + left
        → Recovers (attempts env tid left attempt s)
    unfolding attempts catch Recovers
    recovered zero attempt k s h enough =
        (i, ap (λ r. r.0) (http_lookup_lem s) ∙ answers k h s (omega (arith, enough)))
    recovered (suc left) attempt k s h enough =
        subst
          (λ r.
            Recovers
              (handle r.0 (λ e. modify (wait attempt) >> attempts env tid left (suc attempt)) r.1))
          (sym (http_lookup_lem s))
          (retried left attempt s (one_answer env.timeout s) (λ c e.
            recovered left (suc attempt) k c h (
              subst (λ d. k ≤ requests d.log + left) (sym (e ∙ ap (wait attempt) (asks s)))
                (omega (arith, enough)))))

    counted_Recovers :
        (r : Result JsError ℕ) (n k : ℕ) (s : Client)
        → r ≡ ok n
        → AnswersAfter k
        → k ≤ requests s.log + n
        → Recovers (resume r (λ retries. attempts env tid retries 0) s)
    counted_Recovers (ok m) n k s e h enough =
        let same : n ≡ m = cc in
        recovered m 0 k s h (subst (λ t. k ≤ requests s.log + t) same enough)
    counted_Recovers (err thrown) n k s e h enough = cc

    -- If the service answers with an index from some request on, and that request is among those
    -- that the retries allow, a lookup returns an index.
    pub lookup_with_retries-recovers :
        (n k : ℕ) (s : Client)
        → env.retry_count ≡ ok n
        → AnswersAfter k
        → k ≤ requests s.log + n
        → (j : ℤ) × ((lookup_with_retries env tid s).0 ≡ ok j)
    unfolding lookup_with_retries ◌>>=◌ Recovers
    lookup_with_retries-recovers n k s e h enough =
        counted_Recovers env.retry_count n k s e h enough
