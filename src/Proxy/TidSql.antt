-- ===== src/Proxy/TidSql.antt =====
-- proxy/tid-sql.ts: splitting a query text into statements, and telling `SET mtdd.tid` and the
-- transaction commands from the statements that are forwarded.
mod Examples
use mtdd.Prelude.{
  ℕ, zero, suc, ◌+◌, ◌-◌, Bool, true, false, ◌&&◌, ◌||◌, not, List, [], ◌∷◌, ◌++◌, Option, none,
  some, leb, ◌==◌, if◌then◌else◌, length, drop,
}
use mtdd.Js.Text.{Text, is_space, trim, starts_with, replace_pair}
use mtdd.Js.Regex.{
  Regex, chars, seq, alt, star, group, stop, match, test, capture, is_char, is_letter, not_space,
  dot, word, spaces, plus, optional,
}

-- The variables of the loop in `splitStatements`; `rest` is `sql.slice(i)`.
pub record Scan : Type 0 where
  pub rest : Text
  pub buf : Text
  pub out : List Text
  pub quote : Option ℕ
  pub dollar : Option Text

-- `sql.slice(j + 1)` for the first line feed at `j`, or the end of the text
unfoldable pub after_newline : Text → Text
after_newline [] = []
after_newline (c ∷ s) = let more = after_newline s in if c == 10 then s else more

-- the text behind the first `*/`, or the end of the text
unfoldable pub after_comment : Text → Text
after_comment [] = []
after_comment (c ∷ []) = []
after_comment (c ∷ d ∷ s) =
    let more = after_comment (d ∷ s) in if c == b'*' && d == b'/' then s else more

abbrev is_tag_char : ℕ → Bool
is_tag_char c =
    (leb b'A' c && leb c b'Z')
    || (leb b'a' c && leb c b'z')
    || (leb b'0' c && leb c b'9')
    || c == b'_'

-- /^\$[A-Za-z0-9_]*\$/
abbrev dollar_tag : Regex
dollar_tag =
    group 0 (seq (chars (is_char b'$')) (seq (star (chars is_tag_char)) (chars (is_char b'$'))))

-- `const piece = buf.trim(); if (piece) out.push(piece);`
unfoldable pub push_piece : List Text → Text → List Text
push_piece out buf = elim (trim buf) [ [] ↦ out | c ∷ s ↦ out ++ (c ∷ s) ∷ [] ]

-- One character that no other branch takes.
abbrev take_char : ℕ → Text → Scan → Scan
take_char c s st = record st { rest = s; buf = st.buf ++ c ∷ [] }

-- Inside `$$ … $$`
unfoldable pub step_dollar : Text → ℕ → Text → Scan → Scan
step_dollar d c s st =
    if starts_with (c ∷ s) d
    then record st { rest = drop (length d) (c ∷ s); buf = st.buf ++ d; dollar = none }
    else take_char c s st

-- Inside `'…'` or `"…"`
unfoldable pub step_quote : ℕ → ℕ → Text → Scan → Scan
step_quote q c [] st =
    if c == q
    then record st { rest = []; buf = st.buf ++ c ∷ []; quote = none }
    else take_char c [] st
step_quote q c (d ∷ s) st =
    if c == q
    then (if q == b'\'' && d == b'\''
        then record st { rest = s; buf = st.buf ++ c ∷ b'\'' ∷ [] }
        else record st { rest = d ∷ s; buf = st.buf ++ c ∷ []; quote = none })
    else take_char c (d ∷ s) st

abbrev next_is : ℕ → Text → Bool
next_is a [] = false
next_is a (d ∷ s) = d == a

-- Outside quotes, behind the test for a dollar quote.
unfoldable pub step_open : ℕ → Text → Scan → Scan
step_open c s st =
    if c == b'\'' || c == b'"'
    then record st { rest = s; buf = st.buf ++ c ∷ []; quote = some c }
    else if c == b'-' && next_is b'-' s
    then record st { rest = after_newline (c ∷ s) }
    else if c == b'/' && next_is b'*' s
    then record st { rest = after_comment (drop 1 s) }
    else if c == b';'
    then record st { rest = s; buf = []; out = push_piece st.out st.buf }
    else take_char c s st

abbrev dollar_match : Text → Option Text
dollar_match s = elim (match dollar_tag s) [ none ↦ none | some caps ↦ capture 0 caps ]

abbrev open_dollar : Option Text → ℕ → Text → Scan → Scan
open_dollar none c s st = step_open c s st
open_dollar (some d) c s st = record st {
  rest = drop (length d) (c ∷ s);
  buf = st.buf ++ d;
  dollar = some d;
}

unfoldable pub step_plain : ℕ → Text → Scan → Scan
step_plain c s st =
    if c == b'$' && next_is b'$' s
    then open_dollar (dollar_match (c ∷ s)) c s st
    else step_open c s st

abbrev step_by : Option Text → Option ℕ → ℕ → Text → Scan → Scan
step_by (some d) q c s st = step_dollar d c s st
step_by none (some q) c s st = step_quote q c s st
step_by none none c s st = step_plain c s st

-- The body of the loop.
unfoldable pub step : ℕ → Text → Scan → Scan
step c s st = step_by st.dollar st.quote c s st

-- The loop. Every round shortens `rest`, so the length of the text is enough fuel.
unfoldable pub scan : ℕ → Scan → Scan
scan zero st = st
scan (suc fuel) st = elim st.rest [ [] ↦ st | c ∷ s ↦ scan fuel (step c s st) ]

abbrev pub start_scan : Text → Scan
start_scan sql = record { rest = sql; buf = []; out = []; quote = none; dollar = none }

unfoldable pub split_statements : Text → List Text
unfolding scan step step_dollar step_quote step_plain step_open push_piece after_newline
    after_comment
split_statements sql = let st = scan (length sql) (start_scan sql) in push_piece st.out st.buf

-- `(?:\\'|[^'])*` between quotes `q`, as group `n`
abbrev quoted : ℕ → ℕ → Regex
quoted n q = seq (chars (is_char q)) (
    seq
      (group n
        (star (alt (seq (chars (is_char b'\\')) (chars (is_char q))) (chars (λ c. not (c == q))))))
      (chars (is_char q)))

-- the patterns of the file; each begins with `^`
unfoldable pub set_tid_re : Regex
unfolding word
set_tid_re = seq spaces (
    seq (word "SET") (
      seq (plus (chars is_space)) (
        seq (word "mtdd") (
          seq (chars (is_char b'.')) (
            seq (word "tid") (
              seq spaces (
                seq (alt (chars (is_char b'=')) (word "TO")) (
                  seq spaces (
                    seq
                      (alt (quoted 1 b'\'')
                        (alt (quoted 2 b'"') (group 3 (plus (chars not_space)))))
                      (seq spaces stop))))))))))

unfoldable pub reset_tid_re : Regex
unfolding word
reset_tid_re = seq spaces (
    seq (word "RESET") (
      seq (plus (chars is_space))
        (seq (word "mtdd") (seq (chars (is_char b'.')) (seq (word "tid") (seq spaces stop))))))

unfoldable pub begin_re : Regex
unfolding word
begin_re = seq spaces (
    seq (alt (word "BEGIN") (seq (word "START") (seq (plus (chars is_space)) (word "TRANSACTION"))))
      (seq (optional (seq (plus (chars is_space)) (star (chars dot)))) stop))

unfoldable pub commit_re : Regex
unfolding word
commit_re = seq spaces (
    seq (word "COMMIT")
      (seq (optional (seq (plus (chars is_space)) (word "TRANSACTION"))) (seq spaces stop)))

unfoldable pub rollback_re : Regex
unfolding word
rollback_re = seq spaces (
    seq (word "ROLLBACK") (
      seq (optional (seq (plus (chars is_space)) (word "TRANSACTION"))) (
        seq
          (optional (
            seq (plus (chars is_space)) (
              seq (word "TO") (
                seq (plus (chars is_space)) (
                  seq (word "SAVEPOINT") (seq (plus (chars is_space)) (plus (chars not_space))))))))
          (seq spaces stop))))

unfoldable pub unquote : Text → Text
unquote raw =
    replace_pair b'\\' b'"' b'"'
      (replace_pair b'\'' b'\'' b'\'' (replace_pair b'\\' b'\'' b'\'' raw))

-- What `classifyStatement` returns.
pub data Kind : Type 0 where
  set_tid : Text → Kind
  reset_tid begin commit rollback : Kind
  forward : Text → Kind

abbrev pub first_capture : Option Text → Option Text → Option Text → Text
first_capture (some a) b c = a
first_capture none (some b) c = b
first_capture none none (some c) = c
first_capture none none none = []

unfoldable pub classify_command : Text → Kind
classify_command text =
    if test reset_tid_re text
    then reset_tid
    else if test begin_re text
    then begin
    else if test commit_re text
    then commit
    else if test rollback_re text
    then rollback
    else forward text

abbrev classify_text : Text → Kind
classify_text [] = forward []
classify_text (c ∷ s) = elim (match set_tid_re (c ∷ s)) [
  | none ↦ classify_command (c ∷ s)
  | some caps ↦ set_tid (unquote (first_capture (capture 1 caps) (capture 2 caps) (capture 3 caps)))
]

unfoldable pub classify_statement : Text → Kind
unfolding classify_command
classify_statement sql = classify_text (trim sql)
