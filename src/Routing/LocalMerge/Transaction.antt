-- ===== src/Routing/LocalMerge/Transaction.antt =====
-- What the client is asked while the rows are merged: one transaction that is committed or rolled
-- back, and the client is given back.
use mtdd.Prelude.{◌≡◌, ◌⊎◌, refl, ap, inl, inr, List, [], ◌∷◌, ◌++◌, Option, none, some}
use mtdd.Js.Text.{Text}
use mtdd.Js.Buffer.{JsError}
use mtdd.Js.Effect.{Result, ok, err, pure, throw, ◌>>=◌, catch, resume, handle}
use mtdd.Routing.Merge.{QueryResult}
use mtdd.Routing.LocalMerge.{Field, Row, pick_fields_from_shard_results, collect_merged_rows}
use mtdd.Routing.LocalMerge.Load.{Call, connected, released, Reply, send}
use mtdd.Routing.LocalMerge.Run.{
  Job, begin, commit, rollback, in_transaction, roll_back, transaction, give_back, merge_fields,
  merge_select_results_on_local_postgres,
}
use mtdd.Routing.LocalMerge.Committed.{After, Committed, in_transaction-Committed}

-- The end of a merge that was begun with this log, and its result.
abbrev pub Ends : {A : Type 0} → List Call → Result JsError (Option A) × List Call → Type 0
Ends before (ok none, log) = log ≡ before
Ends before (ok (some a), log) =
    (during : List Call) × (log ≡ released ∷ commit ∷ during ++ begin ∷ connected ∷ before)
Ends before (err e, log) =
    (log ≡ before)
    ⊎ (log ≡ released ∷ begin ∷ connected ∷ before)
    ⊎ ((during : List Call) × (log ≡ released ∷ rollback ∷ during ++ begin ∷ connected ∷ before))

module _ {R : Type 0} (connect : Option JsError) (reply : Reply R) (job : Job) where
  -- A transaction, committed, rolled back, or not begun.
  Closed : {A : Type 0} → List Call → Result JsError A × List Call → Type 0
  Closed base (ok a, log) = (during : List Call) × (log ≡ commit ∷ during ++ begin ∷ base)
  Closed base (err e, log) =
      (log ≡ begin ∷ base) ⊎ ((during : List Call) × (log ≡ rollback ∷ during ++ begin ∷ base))

  -- the log behind a ROLLBACK with this answer
  abbrev undone : Result JsError R → List Call → Result JsError (Unit {0}) × List Call
  undone r log = catch (λ s. resume r (λ _. pure tt) (rollback ∷ s)) (λ ignored. pure tt) log

  rolled_if :
      (r : Result JsError R) (base s : List Call) (e : JsError)
      → After (begin ∷ base) s
      → Closed base (resume (undone r s).0 (λ _. throw {A = R × Text} e) (undone r s).1)
  unfolding ◌>>=◌ Closed catch
  rolled_if (ok a) base s e h = inr (h.0, ap (λ t. rollback ∷ t) h.1)
  rolled_if (err thrown) base s e h = inr (h.0, ap (λ t. rollback ∷ t) h.1)

  rolled_back :
      (base s : List Call) (e : JsError)
      → After (begin ∷ base) s
      → Closed base (roll_back connect reply job e s)
  unfolding roll_back ◌>>=◌ send catch
  rolled_back base s e h = rolled_if (reply s rollback) base s e h

  caught :
      (base : List Call) (r : Result JsError (R × Text) × List Call)
      → Committed reply (begin ∷ base) r
      → Closed base (handle r.0 (roll_back connect reply job) r.1)
  unfolding Committed Closed
  caught base (ok a, s) h = h
  caught base (err e, s) h = rolled_back base s e h

  begun_if :
      (r : Result JsError R) (fields : List Field) (rows : List Row) (base : List Call)
      → Closed base (
          resume r
            (λ _.
              catch (in_transaction connect reply job fields rows) (roll_back connect reply job))
            (begin ∷ base))
  unfolding Closed catch
  begun_if (ok a) fields rows base =
      caught base (in_transaction connect reply job fields rows (begin ∷ base)) (
        in_transaction-Committed reply (begin ∷ base) connect job fields rows (begin ∷ base)
          ([], refl))
  begun_if (err e) fields rows base = inl refl

  transaction-Closed :
      (fields : List Field) (rows : List Row) (base : List Call)
      → Closed base (transaction connect reply job fields rows base)
  unfolding transaction ◌>>=◌ send
  transaction-Closed fields rows base = begun_if (reply base begin) fields rows base

  given_back :
      (before : List Call) (r : Result JsError (R × Text) × List Call)
      → Closed (connected ∷ before) r
      → Ends before (
          resume
            (give_back connect reply job r).0
            (λ done. pure (some done))
            (give_back connect reply job r).1)
  unfolding Closed ◌>>=◌
  given_back before (ok a, log) h = (h.0, ap (λ t. released ∷ t) h.1)
  given_back before (err e, log) (inl h) = inr (inl (ap (λ t. released ∷ t) h))
  given_back before (err e, log) (inr h) = inr (inr (h.0, ap (λ t. released ∷ t) h.1))

module _ {R : Type 0} (reply : Reply R) (job : Job) where
  merged_Ends :
      (connect : Option JsError) (fields : List Field) (rows : List Row) (before : List Call)
      → Ends before (merge_fields connect reply job fields rows before)
  unfolding ◌>>=◌
  merged_Ends connect [] rows before = refl
  merged_Ends (some e) (field ∷ fields) rows before = inl refl
  merged_Ends none (field ∷ fields) rows before =
      given_back none reply job before
        (transaction none reply job (field ∷ fields) rows (connected ∷ before))
        (transaction-Closed none reply job (field ∷ fields) rows (connected ∷ before))

  -- Whatever PostgreSQL answers, a merge that took a client gives it back at the end, and before that
  -- the last query was COMMIT if the merge returns the result of the SELECT, and ROLLBACK if it
  -- throws; only if BEGIN itself failed nothing else was sent. Without any fields and without a
  -- connection nothing is sent at all.
  pub merge_Ends :
      (connect : Option JsError) (results : List (QueryResult Field Row)) (before : List Call)
      → Ends before (merge_select_results_on_local_postgres connect reply job results before)
  unfolding merge_select_results_on_local_postgres
  merge_Ends connect results before =
      merged_Ends connect (pick_fields_from_shard_results results) (collect_merged_rows results)
        before
