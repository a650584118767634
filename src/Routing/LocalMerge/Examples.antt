-- ===== src/Routing/LocalMerge/Examples.antt =====
-- The theorems on the local merge at concrete inputs.
use mtdd.Prelude.{◌≡◌, refl, [], ◌∷◌, ◌++◌, none, some}
use mtdd.Js.Text.{codes}
use mtdd.Js.Buffer.{error}
use mtdd.Js.Effect.{ok, err}
use mtdd.Routing.Merge.{QueryResult}
use mtdd.Routing.LocalFanOut.{unordered}
use mtdd.Routing.LocalMerge.{Field, Row, shown, quote_ident, format_csv_cell}
use mtdd.Routing.LocalMerge.Load.{Reply}
use mtdd.Routing.LocalMerge.Run.{Job, merge_select_results_on_local_postgres}
use mtdd.Routing.LocalMerge.Quote.{read_quoted, read-quote_ident}
use mtdd.Routing.LocalMerge.Csv.{read_cell, read-format_csv_cell}
use mtdd.Routing.LocalMerge.Transaction.{Ends, merge_Ends}

abbrev name_field : Field
name_field = record { name = codes "n"; data_type_id = some 25 }

abbrev row : Row
row = (codes "n", shown (codes "a,b")) ∷ []

abbrev result : QueryResult Field Row
result = record {
  command = some (codes "SELECT");
  row_count = some 1;
  oid = none;
  fields = some (name_field ∷ []);
  rows = some (row ∷ []);
}

abbrev job : Job
job = record {
  parse = λ text. err (error (codes "no parser"));
  to_sql = λ statement. [];
  thresholds = record { copy = ok 1000; unnest = ok 100; index = ok 5000 };
  random = codes "0a1b2c3d";
  temp_table_name = codes "t";
  full_text = codes "SELECT n FROM t";
  values = [];
  order_by = unordered;
}

abbrev answers : Reply Unit
answers log call = ok tt

merge_Ends_example :
    Ends [] (merge_select_results_on_local_postgres none answers job (result ∷ []) [])
merge_Ends_example = merge_Ends answers job none (result ∷ []) []

read-quote_ident_example :
    read_quoted (quote_ident (codes "a\"b") ++ codes " (") ≡ some (codes "a\"b", codes " (")
read-quote_ident_example = read-quote_ident (codes " (") refl (codes "a\"b")

read-format_csv_cell_example :
    read_cell (format_csv_cell (shown (codes "a,b")) ++ codes ",x")
    ≡ some (some (codes "a,b"), codes ",x")
read-format_csv_cell_example =
    read-format_csv_cell b',' refl (codes "x") b'a' (codes ",b") (λ e. cc)

-- An empty text is read back as NULL.
empty_text : read_cell (format_csv_cell (shown []) ++ codes ",x") ≡ some (none, codes ",x")
unfolding read_cell format_csv_cell mtdd.Js.Text.text_eq
empty_text = refl

-- The marker `\.` is written without quotes, and is not read back.
marker_text : read_cell (format_csv_cell (shown (codes "\\.")) ++ codes "\n") ≡ none
unfolding read_cell format_csv_cell mtdd.Js.Text.text_eq
marker_text = refl
