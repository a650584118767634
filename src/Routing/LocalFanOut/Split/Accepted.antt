-- ===== src/Routing/LocalFanOut/Split/Accepted.antt =====
-- The SELECTs that are fanned out.
use mtdd.Prelude.{◌≡◌, true, false, ◌||◌, List, [], ◌∷◌, some}
use mtdd.Js.Text.{Text}
use mtdd.Js.Buffer.{JsError}
use mtdd.Js.Effect.{Result, ok}
use mtdd.Routing.LocalFanOut.{
  Select, Statement, resolve_select_node, select_has_order_by, select_has_offset,
  get_primary_from_table,
}
use mtdd.Routing.LocalFanOut.Support.{select_has_supported_aggregates}
use mtdd.Routing.LocalFanOut.Split.{
  Plan, direct, local_merge, LocalMerge, fan_out_select, change_select,
}
use mtdd.Routing.LocalFanOut.Split.Shardable.{AllShardable}

-- What is done with a SELECT: it is sent as it is if it has no ORDER BY and no aggregates, and
-- otherwise its rows are merged in a table that is named for the one table of FROM.
module _ (to_sql : Statement → Text) (text : Text) (statement : Statement) (select : Select) where
  pub record Merges (m : LocalMerge) : Type 0 where
    pub sorted_or_aggregated :
        (select_has_order_by select || select_has_supported_aggregates select) ≡ true
    pub table : get_primary_from_table select ≡ some m.temp_table_name
    pub offset : select_has_offset select ≡ false
    pub sent : m.fan_out_text ≡ to_sql (change_select fan_out_select statement)
    pub run : m.full_text ≡ text
    pub aggregates : m.has_aggregates ≡ select_has_supported_aggregates select

  abbrev pub Carries : Plan → Type 0
  Carries direct = (select_has_order_by select || select_has_supported_aggregates select) ≡ false
  Carries (local_merge m) = Merges m

-- The text is one statement with a SELECT, the result of every call that occurs in it can be made of
-- the rows of all shards, and the plan is made for it.
pub record IsFannedOut (parse : Text → Result JsError (List Statement)) (to_sql : Statement → Text)
    (text : Text) (plan : Plan) : Type 0 where
  pub statement : Statement
  pub select : Select
  pub parses : parse text ≡ ok (statement ∷ [])
  pub resolves : resolve_select_node statement ≡ some select
  pub shardable : AllShardable select
  pub carries : Carries to_sql text statement select plan
