-- ===== src/Proxy/TidSql/Examples.antt =====
-- Tests of proxy/tid-sql.ts, and the theorems at concrete inputs.
use mtdd.Prelude.{◌≡◌, refl, [], ◌∷◌}
use mtdd.Js.Text.{codes, trim, starts_with, replace_pair}
use mtdd.Js.Regex.{match, test, capture, word}
use mtdd.Proxy.TidSql.{
  split_statements, classify_statement, set_tid, rollback, set_tid_re, reset_tid_re, begin_re,
  commit_re, rollback_re, unquote,
}

split_quotes :
    split_statements (codes "SET mtdd.tid = 'a;b'; SELECT $$;$$ ;; -- x;\n COMMIT")
    ≡ codes "SET mtdd.tid = 'a;b'" ∷ codes "SELECT $$;$$" ∷ codes "COMMIT" ∷ []
unfolding split_statements trim starts_with match capture
split_quotes = refl

classify_set : classify_statement (codes " set  MTDD.tid TO \"x y\" ") ≡ set_tid (codes "x y")
unfolding classify_statement trim match capture set_tid_re word unquote replace_pair
classify_set = refl

classify_rollback : classify_statement (codes "ROLLBACK TO SAVEPOINT s1") ≡ rollback
unfolding classify_statement trim match test capture set_tid_re reset_tid_re begin_re commit_re
    rollback_re word unquote replace_pair
classify_rollback = refl

classify_bad : classify_statement (codes "SET mtdd.tid = 'o''brien'") ≡ set_tid (codes "'o'brien'")
unfolding classify_statement trim match capture set_tid_re word unquote replace_pair
classify_bad = refl
