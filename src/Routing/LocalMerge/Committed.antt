-- ===== src/Routing/LocalMerge/Committed.antt =====
-- The statements between BEGIN and the end of a merge: the log goes on, and a body that went through has
-- committed last.
use mtdd.Prelude.{◌≡◌, ap, ◌&&◌, List, [], ◌∷◌, ◌++◌, Option, length, leb}
use mtdd.Js.Text.{Text, codes}
use mtdd.Js.Buffer.{JsError}
use mtdd.Js.Effect.{Result, ok, err, pure, lift, ◌>>=◌, resume}
use mtdd.Js.Effect.Hoare.{
  Hoare, Returns, Any, Hoare-if, Hoare-seq, Hoare-then, Hoare-pure-Any, Hoare-lift-Any,
}
use mtdd.Routing.LocalFanOut.Rename.{rewrite_query_table_name_ast, order_by_column_names}
use mtdd.Routing.LocalMerge.{Field, Row}
use mtdd.Routing.LocalMerge.Load.{
  Call, Reply, Action, Thresholds, insert_batch, batches, send, send_batches, insert_rows_batched,
  insert_at_once, load_rows_into_temp_table, copy_rows, insert_unnest,
}
use mtdd.Routing.LocalMerge.Run.{
  Job, commit, create_order_by_index, index_if_any, index_columns, session_table, is_ordered,
  in_transaction,
}

-- The log goes on from `base`.
abbrev pub After : List Call → List Call → Type 0
After base log = (more : List Call) × (log ≡ more ++ base)

module _ {R : Type 0} (reply : Reply R) (base : List Call) where
  send-After : (call : Call) → Hoare (After base) Any (send reply call)
  unfolding send
  send-After call = record { at = λ s h. sent (reply s call) s h }
    where
      sent :
          (r : Result JsError R) (s : List Call)
          → After base s
          → Returns (After base) Any (r, call ∷ s)
      sent (ok a) s h = (tt, (call ∷ h.0, ap (λ t. call ∷ t) h.1))
      sent (err e) s h = (call ∷ h.0, ap (λ t. call ∷ t) h.1)

  send_batches-After :
      (table : Text) (fields : List Field) (rest : List (List Row))
      → Hoare (After base) Any (send_batches reply table fields rest)
  unfolding send_batches
  send_batches-After table fields [] = Hoare-pure-Any tt
  send_batches-After table fields (batch ∷ rest) =
      Hoare-then (send-After (insert_batch table fields batch))
        (send_batches-After table fields rest)

  at_once_After :
      (way : Text → List Field → List Row → Call) (table : Text) (fields : List Field)
      (rows : List Row)
      → Hoare (After base) Any (insert_at_once reply way table fields rows)
  unfolding insert_at_once
  at_once_After way table fields [] = Hoare-pure-Any tt
  at_once_After way table fields (row ∷ rows) =
      Hoare-then (send-After (way table fields (row ∷ rows))) (Hoare-pure-Any tt)

  load_After :
      (thresholds : Thresholds) (table : Text) (fields : List Field) (rows : List Row)
      → Hoare (After base) Any (load_rows_into_temp_table reply thresholds table fields rows)
  unfolding load_rows_into_temp_table insert_rows_batched
  load_After thresholds table fields rows = Hoare-seq (Hoare-lift-Any thresholds.copy) (λ copy.
      Hoare-seq (Hoare-lift-Any thresholds.unnest) (λ unnest.
        Hoare-if (leb copy (length rows))
          (Hoare-then (at_once_After copy_rows table fields rows) (Hoare-pure-Any (codes "copy")))
          (Hoare-if (leb unnest (length rows))
            (Hoare-then (at_once_After insert_unnest table fields rows)
              (Hoare-pure-Any (codes "unnest")))
            (Hoare-then (send_batches-After table fields (batches (length rows) rows))
              (Hoare-pure-Any (codes "batch"))))))

  -- A body that went through has committed last.
  unfoldable pub Committed : {A : Type 0} → Result JsError A × List Call → Type 0
  Committed (ok a, log) = (more : List Call) × (log ≡ commit ∷ more ++ base)
  Committed (err e, log) = After base log

  resume-Committed :
      {A B : Type 0} (r : Result JsError A × List Call) (f : A → Action B)
      → Returns (After base) Any r
      → ((a : A) (t : List Call) → After base t → Committed (f a t))
      → Committed (resume r.0 f r.1)
  unfolding Committed
  resume-Committed (ok a, t) f p k = k a t p.1
  resume-Committed (err e, t) f p k = p

  then_Committed :
      {A B : Type 0} (m : Action A) (f : A → Action B) (s : List Call)
      → Hoare (After base) Any m
      → After base s
      → ((a : A) (t : List Call) → After base t → Committed (f a t))
      → Committed ((m >>= f) s)
  unfolding ◌>>=◌
  then_Committed m f s hm h k = resume-Committed (m s) f (hm.at s h) k

  commit_if :
      {B : Type 0} (r : Result JsError R) (b : B) (t : List Call)
      → After base t
      → Committed (resume r (λ _. pure b) (commit ∷ t))
  unfolding Committed ◌>>=◌
  commit_if (ok a) b t h = (h.0, ap (λ t. commit ∷ t) h.1)
  commit_if (err e) b t h = (commit ∷ h.0, ap (λ t. commit ∷ t) h.1)

  commit-Committed :
      {B : Type 0} (b : B) (t : List Call)
      → After base t
      → Committed ((send reply commit >>= λ _. pure b) t)
  unfolding ◌>>=◌ send
  commit-Committed b t h = commit_if (reply t commit) b t h

  module _ (connect : Option JsError) (job : Job) where
    index_After :
        (table : Text) (columns : List Text)
        → Hoare (After base) Any (index_if_any connect reply job table columns)
    index_After table [] = Hoare-pure-Any tt
    index_After table (column ∷ columns) = Hoare-then (send-After _) (Hoare-pure-Any tt)

    create_index_After :
        (table : Text) (fields : List Field)
        → Hoare (After base) Any (create_order_by_index connect reply job table fields)
    unfolding create_order_by_index
    create_index_After table fields =
        index_After table (index_columns (order_by_column_names job.order_by) fields)

    pub in_transaction-Committed :
        (fields : List Field) (rows : List Row) (s : List Call)
        → After base s
        → Committed (in_transaction connect reply job fields rows s)
    unfolding in_transaction
    in_transaction-Committed fields rows s h =
        let table = session_table connect reply job in
        then_Committed _ _ s (send-After _) h (λ created t1 h1.
          then_Committed _ _ t1 (load_After job.thresholds table fields rows) h1 (λ strategy t2 h2.
            then_Committed _ _ t2 (Hoare-lift-Any job.thresholds.index) h2 (λ threshold t3 h3.
              then_Committed _ _ t3
                (Hoare-if (leb threshold (length rows) && is_ordered job.order_by)
                  (create_index_After table fields) (Hoare-pure-Any tt))
                h3
                (λ indexed t4 h4.
                  then_Committed {A = Text}
                    (lift (
                      rewrite_query_table_name_ast job.parse job.to_sql job.full_text
                        job.temp_table_name table))
                    _ t4
                    (Hoare-lift-Any (
                      rewrite_query_table_name_ast job.parse job.to_sql job.full_text
                        job.temp_table_name table))
                    h4
                    (λ sql t5 h5.
                      then_Committed _ _ t5 (send-After _) h5
                        (λ result t6 h6. commit-Committed (result, strategy) t6 h6))))))
