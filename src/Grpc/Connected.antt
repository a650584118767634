-- ===== src/Grpc/Connected.antt =====
-- The shards that a hub of grpc-hub.ts keeps.
use mtdd.Prelude.{
  ◌≡◌, refl, sym, ap, ◌∙◌, subst, Bool, true, false, List, some, none, length, ◌==◌, if◌then◌else◌,
}
use mtdd.Js.Effect.{Result, ok, err, pure, throw, modify, resume, ◌>>=◌, ◌>>◌, catch}
use mtdd.Hosts.{Shard, HostEntry}
use mtdd.Grpc.{Endpoint, Failure, Env, State, connect_all}
use mtdd.Grpc.Grows.{Log, Leaves}
use mtdd.Grpc.ShardsOf.{ShardsOf, all-Grows}
use mtdd.Grpc.Hub.{init_if, keep_shards, init_grpc_hub}

module _ {Q R : Type 0} (env : Env Q R) where
  -- The hub has these shards, one for each host.
  pub record IsConnected (hosts : List HostEntry) (shards : List (Shard Endpoint)) (after : State Q)
      : Type 0 where
    pub stored : after.shards ≡ some shards
    pub connected : ShardsOf env after.log 0 hosts shards

  kept_lem :
      (hosts : List HostEntry) (found : List (Shard Endpoint)) (s : State Q)
      (shards : List (Shard Endpoint)) (b : Bool) (e : Failure)
      → ShardsOf env s.log 0 hosts found
      → ((if b then modify (λ s. record s { shards = some found }) >> pure found else throw e) s).0
        ≡ ok shards
      → IsConnected hosts shards
          ((if b then modify (λ s. record s { shards = some found }) >> pure found else throw e)
            s).1
  unfolding ◌>>=◌
  kept_lem hosts found s shards true e h k =
      let same : found ≡ shards = cc in
      record { stored = ap some same; connected = subst (ShardsOf env s.log 0 hosts) same h }
  kept_lem hosts found s shards false e h k = cc

  thrown_lem :
      (hosts : List HostEntry) (r : Result Failure (List (Shard Endpoint)) × State Q) (e : Failure)
      (shards : List (Shard Endpoint))
      → r.0 ≡ err e
      → (resume r.0 (keep_shards env hosts) r.1).0 ≡ ok shards
      → ⊥
  thrown_lem hosts (ok found, s) e shards h k = cc
  thrown_lem hosts (err thrown, s) e shards h k = cc

  initialized_lem :
      (hosts : List HostEntry) (old : Log Q) (r : Result Failure (List (Shard Endpoint)) × State Q)
      (h : Failure → mtdd.Grpc.Action Q (List (Shard Endpoint))) (shards : List (Shard Endpoint))
      → Leaves (λ found log. ShardsOf env log 0 hosts found) old r
      → ((e : Failure) (s : State Q) → (h e s).0 ≡ err e)
      → ((catch (λ _. r) h >>= keep_shards env hosts) r.1).0 ≡ ok shards
      → IsConnected hosts shards ((catch (λ _. r) h >>= keep_shards env hosts) r.1).1
  unfolding ◌>>=◌ catch
  initialized_lem hosts old (ok found, s) h shards l thrown k =
      kept_lem hosts found s shards (length found == length hosts) _ l.1 k
  initialized_lem hosts old (err e, s) h shards l thrown k =
      absurd (thrown_lem hosts (h e s) e shards (thrown e s) k)

  -- A hub that was not connected and is initialized without an error keeps one shard for each
  -- configured host, in their order. The write endpoint of a shard is the write host of its entry;
  -- its read endpoints are the read hosts of the entry, in their order, less those that a warning
  -- was written about; all have the index of the entry, and to each of them a Connect was sent, which
  -- was accepted.
  pub init_grpc_hub-IsConnected :
      (hosts : List HostEntry) (s : State Q) (shards : List (Shard Endpoint))
      → s.shards ≡ none
      → (init_grpc_hub env hosts s).0 ≡ ok shards
      → IsConnected hosts shards (init_grpc_hub env hosts s).1
  unfolding init_grpc_hub ◌>>=◌ catch
  init_grpc_hub-IsConnected hosts s shards idle h =
      subst (λ o. IsConnected hosts shards (init_if env hosts o s).1) (sym idle)
        (initialized_lem hosts s.log (connect_all env 0 hosts s) _ shards
          ((all-Grows env 0 hosts).at s tt) (λ e t. refl)
          (sym (ap (λ o. (init_if env hosts o s).0) idle) ∙ h))
