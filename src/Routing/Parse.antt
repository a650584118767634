-- ===== src/Routing/Parse.antt =====
-- sql-parse.ts and listen-notify-parse.ts: the kind of a statement. The parser of SQL is that of
-- pgsql-ast-parser, a parameter, as is the error that it throws.
use mtdd.Prelude.{
  ℕ, ◌-◌, Bool, true, false, ◌&&◌, ◌||◌, not, List, [], ◌∷◌, Option, none, some, leb, ltb, ◌==◌,
  if◌then◌else◌, length, take, drop,
}
use mtdd.Js.Text.{Text, codes, trim, starts_with, is_space}
use mtdd.Js.Regex.{
  Regex, Captures, chars, seq, alt, star, group, stop, lazy, word_end, match, test, capture,
  is_char, word, spaces, plus, optional, upper,
}
use mtdd.Js.Buffer.{JsError}
use mtdd.Js.Effect.{Result, ok, err}
use mtdd.Js.Fallible.{◌>>=◌}

pub data CommandType : Type 0 where
  select insert update delete call function listen unlisten notify unknown : CommandType

pub record Classification : Type 0 where
  pub command_type : CommandType
  pub has_returning : Bool

abbrev pub plain : CommandType → Classification
plain c = record { command_type = c; has_returning = false }

-- What the classifier reads of an entry of FROM and of a column: whether it is a call.
abbrev Calls : Type 0
Calls = Option (List Bool)

-- The statements of the parser, as far as they are read. `returning`, `from` and `columns` are
-- `none` where they are no arrays; of `returning` only the length is read.
pub data Statement : Type 0 where
  delete_stmt update_stmt insert_stmt : Option ℕ → Statement
  select_stmt : Calls → Calls → Statement
  with_stmt : Statement → Statement
  other_stmt : Statement
  -- no object
  missing : Statement

-- `Array.isArray(r) && r.length > 0`
abbrev returns_rows : Option ℕ → Bool
returns_rows none = false
returns_rows (some n) = ltb 0 n

unfoldable pub any_call : List Bool → Bool
any_call [] = false
any_call (b ∷ bs) = b || any_call bs

unfoldable pub all_calls : List Bool → Bool
all_calls [] = true
all_calls (b ∷ bs) = b && all_calls bs

unfoldable pub select_from_has_function_call : Calls → Bool
unfolding any_call
select_from_has_function_call none = false
select_from_has_function_call (some from) = any_call from

abbrev no_from : Calls → Bool
no_from (some (b ∷ bs)) = false
no_from _ = true

abbrev only_calls : Calls → Bool
only_calls (some (b ∷ bs)) = all_calls (b ∷ bs)
only_calls _ = false

unfoldable pub select_is_scalar_function : Calls → Calls → Bool
unfolding all_calls
select_is_scalar_function from columns = no_from from && only_calls columns

unfoldable pub classify_select_statement : Calls → Calls → Classification
unfolding select_from_has_function_call select_is_scalar_function
classify_select_statement from columns =
    if select_from_has_function_call from || select_is_scalar_function from columns
    then plain function
    else plain select

unfoldable pub classify_from_statement : Statement → Classification
unfolding classify_select_statement
classify_from_statement missing = plain unknown
classify_from_statement (with_stmt s) = classify_from_statement s
classify_from_statement (delete_stmt r) = record {
  command_type = delete;
  has_returning = returns_rows r;
}
classify_from_statement (update_stmt r) = record {
  command_type = update;
  has_returning = returns_rows r;
}
classify_from_statement (insert_stmt r) = record {
  command_type = insert;
  has_returning = returns_rows r;
}
classify_from_statement (select_stmt from columns) = classify_select_statement from columns
classify_from_statement other_stmt = plain unknown

-- the message of the error, up to the preview of the statement
abbrev multi_statement : JsError
multi_statement = record {
  name = codes "MtddSqlParseError";
  message = codes "@advcomm/mtdd: multi-statement SQL is not supported for routing.";
}

unfoldable pub classify_from_ast : List Statement → Result JsError Classification
unfolding classify_from_statement
classify_from_ast [] = ok (plain unknown)
classify_from_ast (s ∷ []) = ok (classify_from_statement s)
classify_from_ast (s ∷ t ∷ more) = err multi_statement

-- /^\s*(?:WITH\s+[\s\S]+?\s+)?CALL\b/i
unfoldable pub call_statement_pattern : Regex
unfolding word
call_statement_pattern = seq spaces (
    seq
      (optional (
        seq (word "WITH") (
          seq (plus (chars is_space))
            (seq (chars (λ c. true)) (seq (lazy (chars (λ c. true))) (plus (chars is_space)))))))
      (seq (word "CALL") word_end))

unfoldable pub is_call_statement_text : Text → Bool
unfolding call_statement_pattern
is_call_statement_text text = test call_statement_pattern (trim text)

abbrev letter : ℕ → Bool
letter c = leb b'A' (upper c) && leb (upper c) b'Z'

abbrev name_start : ℕ → Bool
name_start c = letter c || c == b'_'

abbrev name_char : ℕ → Bool
name_char c = letter c || (leb b'0' c && leb c b'9') || c == b'_' || c == b'$'

-- `"([^"]+)"` as group `n`, for the quote `q`
abbrev quoted : ℕ → ℕ → Regex
quoted n q =
    seq (chars (is_char q)) (seq (group n (plus (chars (λ c. not (c == q))))) (chars (is_char q)))

abbrev channel : Regex
channel =
    alt (quoted 1 b'"')
      (alt (quoted 2 b'\'') (group 3 (seq (chars name_start) (star (chars name_char)))))

abbrev semicolon : Regex
semicolon = seq spaces (seq (optional (chars (is_char b';'))) (seq spaces stop))

unfoldable pub listen_pattern : Regex
unfolding word
listen_pattern =
    seq spaces (seq (word "LISTEN") (seq (plus (chars is_space)) (seq channel semicolon)))

unfoldable pub unlisten_star_pattern : Regex
unfolding word
unlisten_star_pattern =
    seq spaces
      (seq (word "UNLISTEN") (seq (plus (chars is_space)) (seq (chars (is_char b'*')) semicolon)))

unfoldable pub unlisten_pattern : Regex
unfolding word
unlisten_pattern =
    seq spaces (seq (word "UNLISTEN") (seq (plus (chars is_space)) (seq channel semicolon)))

unfoldable pub notify_pattern : Regex
unfolding word
notify_pattern = seq spaces (
    seq (word "NOTIFY") (
      seq (plus (chars is_space)) (
        seq channel (
          seq
            (optional (
              seq spaces
                (seq (chars (is_char b',')) (seq spaces (group 4 (plus (chars (λ c. true))))))))
            semicolon))))

pub data ListenNotify : Type 0 where
  listens : Text → ListenNotify
  unlistens_all : ListenNotify
  unlistens : Text → ListenNotify
  notifies : Text → Text → ListenNotify

abbrev first_group : Option Text → Option Text → Option Text → Option Text
first_group (some a) b c = some a
first_group none (some b) c = some b
first_group none none c = c

unfoldable pub pick_channel : Captures → Option Text
pick_channel caps = first_group (capture 1 caps) (capture 2 caps) (capture 3 caps)

abbrev ends_with : ℕ → Text → Bool
ends_with q [] = false
ends_with q (c ∷ []) = c == q
ends_with q (c ∷ d ∷ s) = ends_with q (d ∷ s)

abbrev quoted_by : ℕ → Text → Bool
quoted_by q t = starts_with t (q ∷ []) && ends_with q t

-- `trimmed.slice(1, -1)`
abbrev inner : Text → Text
inner t = take (length t - 2) (drop 1 t)

unfoldable pub parse_notify_payload : Option Text → Text
parse_notify_payload none = []
parse_notify_payload (some raw) =
    let t = trim raw in if quoted_by b'\'' t || quoted_by b'"' t then inner t else t

-- a match whose channel is missing or empty ends the parse
abbrev with_channel : (Text → ListenNotify) → Option Text → Option ListenNotify
with_channel f (some (c ∷ s)) = some (f (c ∷ s))
with_channel f _ = none

abbrev parse_notify : Text → Option ListenNotify
parse_notify sql = elim (match notify_pattern sql) [
  | none ↦ none
  | some caps ↦
      with_channel (λ c. notifies c (parse_notify_payload (capture 4 caps))) (pick_channel caps)
]

abbrev parse_unlisten : Text → Option ListenNotify
parse_unlisten sql = elim (match unlisten_pattern sql) [
  | none ↦ parse_notify sql
  | some caps ↦ with_channel unlistens (pick_channel caps)
]

abbrev parse_listen : Text → Option ListenNotify
parse_listen sql = elim (match listen_pattern sql) [
  | none ↦ parse_unlisten sql
  | some caps ↦ with_channel listens (pick_channel caps)
]

unfoldable pub parse_listen_notify_statement : Text → Option ListenNotify
unfolding pick_channel parse_notify_payload
parse_listen_notify_statement text =
    let sql = trim text in
    if test unlisten_star_pattern sql then some unlistens_all else parse_listen sql

abbrev command_of : ListenNotify → CommandType
command_of (listens c) = listen
command_of unlistens_all = unlisten
command_of (unlistens c) = unlisten
command_of (notifies c p) = notify

unfoldable pub is_listen_notify_command_type : CommandType → Bool
is_listen_notify_command_type listen = true
is_listen_notify_command_type unlisten = true
is_listen_notify_command_type notify = true
is_listen_notify_command_type _ = false

-- the third-party parser, with the error that `parseStatements` makes of its error
abbrev pub Parser : Type 0
Parser = Text → Result JsError (List Statement)

abbrev classify_parsed : Parser → Text → Option ListenNotify → Result JsError Classification
classify_parsed parse text (some l) = ok (plain (command_of l))
classify_parsed parse text none =
    if is_call_statement_text text then ok (plain call) else parse text >>= classify_from_ast

unfoldable pub compute_classification : Parser → Text → Result JsError Classification
compute_classification parse text = classify_parsed parse text (parse_listen_notify_statement text)
