-- ===== src/Routing/LocalFanOut/Split/Shardable.antt =====
-- The calls whose result can be made of the rows of all shards, stated on the node of the parser and
-- apart from the checks of select-local-fanout.ts and postgres-aggregate-functions.ts.
use mtdd.Prelude.{
  ◌≡◌, ◌≢◌, refl, subst, Bool, true, false, List, [], ◌∷◌, ◌++◌, Option, none, some, Bool-cases,
  inl, inr, arith,
}
use mtdd.Js.Text.{Text, text_eq, to_lower_case}
use mtdd.Js.Map.{has}
use mtdd.Routing.LocalFanOut.{
  call, subquery, Exprs, Part, Orders, unordered, order, Group, ungrouped, within, Callee, Select,
}
use mtdd.Routing.LocalFanOut.Aggregates.{
  is_window_call, is_there, lowered, aggregate_function_name, has_aggregate_order_specification,
  is_rejected_fan_out_aggregate, is_scatter_gather_aggregate, has_name, rejected_fanout_aggregates,
  order_sensitive_aggregates, ordered_set_aggregates, associative_aggregates,
  postgres_scatter_gather_aggregates, validate_scatter_gather_aggregate_call,
}
use mtdd.Routing.LocalFanOut.Walk.{collect_all_calls_from_select}
use mtdd.Routing.LocalFanOut.Walk.Occurs.{Occurs, OccursIn, OccursIn-All, Occurs-subquery}
use mtdd.Routing.LocalFanOut.Split.Supported.{IsSupported, AllSupported}

-- The name of the call is in the list, in lower case.
abbrev pub Named : Callee → List Text → Type 0
Named callee names = has_name (to_lower_case callee.function) names ≡ true

-- No window function and no refused aggregate. An aggregate that depends on the order of its rows
-- has an ORDER BY or WITHIN GROUP, an ordered-set aggregate has WITHIN GROUP, and what has a name
-- and WITHIN GROUP is a known aggregate. No subquery occurs in a known aggregate.
pub record IsShardable (callee : Callee) (args : Exprs) (filter : Part) (orders : Orders)
    (group : Group) : Type 0 where
  pub no_window : callee.over ≡ none
  pub not_refused : ¬ Named callee rejected_fanout_aggregates
  pub sorted : Named callee order_sensitive_aggregates → orders ≡ unordered → group ≢ ungrouped
  pub grouped : Named callee ordered_set_aggregates → group ≢ ungrouped
  pub known :
      callee.function ≢ [] → group ≢ ungrouped → Named callee postgres_scatter_gather_aggregates
  pub no_subquery :
      Named callee postgres_scatter_gather_aggregates
      → (text : Text) → ¬ Occurs (subquery text) (call callee args filter orders group)

has-left :
    (name : Text) (xs ys : List Text) → has_name name xs ≡ true → has_name name (xs ++ ys) ≡ true
unfolding has
has-left name [] ys h = cc
has-left name (x ∷ xs) ys h = ground (arith, has-left name xs ys)

has-right :
    (name : Text) (xs ys : List Text) → has_name name ys ≡ true → has_name name (xs ++ ys) ≡ true
unfolding has
has-right name [] ys h = h
has-right name (x ∷ xs) ys h = ground (arith, has-right name xs ys h)

lowered_lem : (t : Text) → t ≢ [] → lowered t ≡ some (to_lower_case t)
lowered_lem [] h = absurd (h refl)
lowered_lem (c ∷ t) h = refl

there_lem : (o : Option Text) → is_there o ≡ false → o ≡ none
there_lem none h = refl
there_lem (some t) h = cc

empty_lem : (names : List Text) → has_name [] names ≡ true → (has_name [] names ≡ false) → ⊥
empty_lem names h k = cc

module _ (callee : Callee) (args : Exprs) (filter : Part) where
  abbrev named : List Text → Bool
  named names = has_name (to_lower_case callee.function) names

  module _ (full : callee.function ≢ []) where
    refused_lem :
        (orders : Orders) (group : Group)
        → IsSupported (call callee args filter orders group)
        → named rejected_fanout_aggregates ≡ false
    unfolding is_rejected_fan_out_aggregate aggregate_function_name
    refused_lem orders group s = let h = s.rejected in rw (lowered_lem callee.function full) at h

    scatter_lem :
        (orders : Orders) (group : Group)
        → IsSupported (call callee args filter orders group)
        → named postgres_scatter_gather_aggregates ≡ true
        → is_scatter_gather_aggregate (call callee args filter orders group) ≡ true
    unfolding is_scatter_gather_aggregate aggregate_function_name
    scatter_lem orders group s h =
        rw (s.window, lowered_lem callee.function full, refused_lem orders group s, h) refl

    -- an aggregate that depends on the order of its rows
    sorted_lem :
        (orders : Orders) (group : Group)
        → IsSupported (call callee args filter orders group)
        → named order_sensitive_aggregates ≡ true
        → orders ≡ unordered
        → group ≢ ungrouped
    unfolding validate_scatter_gather_aggregate_call aggregate_function_name
        has_aggregate_order_specification
    sorted_lem (order by rest more) group s h o = cc
    sorted_lem unordered (within by rest) s h o = λ e. cc
    sorted_lem unordered ungrouped s h o = λ e.
        let form = s.form (
          scatter_lem unordered ungrouped s (
            has-right _ associative_aggregates
              (order_sensitive_aggregates ++ ordered_set_aggregates)
              (has-left _ order_sensitive_aggregates ordered_set_aggregates h))) in
        let none_left =
          rw (lowered_lem callee.function full, refused_lem unordered ungrouped s, h) at form in
        cc

    -- an ordered-set aggregate
    grouped_lem :
        (orders : Orders) (group : Group)
        → IsSupported (call callee args filter orders group)
        → named ordered_set_aggregates ≡ true
        → group ≢ ungrouped
    unfolding validate_scatter_gather_aggregate_call aggregate_function_name
        has_aggregate_order_specification
    grouped_lem orders (within by rest) s h = λ e. cc
    grouped_lem orders ungrouped s h = λ e.
        let form = s.form (
          scatter_lem orders ungrouped s (
            has-right _ associative_aggregates
              (order_sensitive_aggregates ++ ordered_set_aggregates)
              (has-right _ order_sensitive_aggregates ordered_set_aggregates h))) in
        let none_left =
          rw (lowered_lem callee.function full, refused_lem orders ungrouped s, h) at form in
        ground arith

    -- what has WITHIN GROUP
    known_lem :
        (orders : Orders) (group : Group)
        → IsSupported (call callee args filter orders group)
        → group ≢ ungrouped
        → named postgres_scatter_gather_aggregates ≡ true
    unfolding validate_scatter_gather_aggregate_call aggregate_function_name
        is_scatter_gather_aggregate has_aggregate_order_specification
    known_lem orders ungrouped s h = absurd (h refl)
    known_lem orders (within by rest) s h =
        elim (Bool-cases (named postgres_scatter_gather_aggregates)) [
          | inl e ↦ e
          | inr e ↦
              let refused = refused_lem orders (within by rest) s in
              let scatter : is_scatter_gather_aggregate
                    (call callee args filter orders (within by rest))
                  ≡ true =
                rw (s.window, lowered_lem callee.function full, refused, e) refl in
              let form = s.form scatter in
              let none_left = rw (lowered_lem callee.function full, refused, e) at form in
              let some_set =
                has-right (to_lower_case callee.function) associative_aggregates
                  (order_sensitive_aggregates ++ ordered_set_aggregates) in
              let ordered_set =
                has-right (to_lower_case callee.function) order_sensitive_aggregates
                  ordered_set_aggregates in
              elim (Bool-cases (named ordered_set_aggregates)) [
                | inl f ↦ let found = some_set (ordered_set f) in cc
                | inr f ↦ ground arith
              ]
        ]

    -- a known aggregate
    no_subquery_lem :
        (orders : Orders) (group : Group)
        → IsSupported (call callee args filter orders group)
        → named postgres_scatter_gather_aggregates ≡ true
        → (text : Text) → Occurs (subquery text) (call callee args filter orders group)
        → ⊥
    no_subquery_lem orders group s h text o =
        let found = Occurs-subquery text o in
        let clear = s.subquery (scatter_lem orders group s h) in cc

  window_lem :
      (orders : Orders) (group : Group)
      → IsSupported (call callee args filter orders group)
      → callee.over ≡ none
  unfolding is_window_call
  window_lem orders group s = there_lem callee.over s.window

  full_of :
      (names : List Text) → has_name [] names ≡ false → named names ≡ true → callee.function ≢ []
  unfolding to_lower_case
  full_of names h k e = let same = subst (λ t. has_name (to_lower_case t) names ≡ true) e k in cc

  shardable :
      (orders : Orders) (group : Group)
      → IsSupported (call callee args filter orders group)
      → IsShardable callee args filter orders group
  unfolding has text_eq
  shardable orders group s = record {
    no_window = window_lem orders group s;
    not_refused = λ h.
        let refused = refused_lem (full_of rejected_fanout_aggregates refl h) orders group s in cc;
    sorted = λ h. sorted_lem (full_of order_sensitive_aggregates refl h) orders group s h;
    grouped = λ h. grouped_lem (full_of ordered_set_aggregates refl h) orders group s h;
    known = λ full. known_lem full orders group s;
    no_subquery =
        λ h. no_subquery_lem (full_of postgres_scatter_gather_aggregates refl h) orders group s h;
  }

-- Every call that occurs in the SELECT gives a result that can be made of the rows of all shards.
abbrev pub AllShardable : Select → Type 0
AllShardable select =
    (callee : Callee) (args : Exprs) (filter : Part) (orders : Orders) (group : Group)
    → OccursIn (call callee args filter orders group) select
    → IsShardable callee args filter orders group

pub AllSupported-AllShardable :
    (select : Select) → AllSupported (collect_all_calls_from_select select) → AllShardable select
AllSupported-AllShardable select h callee args filter orders group o =
    shardable callee args filter orders group
      (OccursIn-All IsSupported callee args filter orders group select o h)
