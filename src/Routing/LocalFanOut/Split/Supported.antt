-- ===== src/Routing/LocalFanOut/Split/Supported.antt =====
-- The calls that the walk finds in a SELECT that passes the checks of a fan-out.
use mtdd.Prelude.{
  ◌≡◌, refl, Bool, true, false, ◌||◌, List, [], ◌∷◌, Bool-cases, inl, inr, if◌then◌else◌,
}
use mtdd.Js.Text.{Text}
use mtdd.Js.Buffer.{JsError}
use mtdd.Js.Effect.{ok, err}
use mtdd.Routing.LocalFanOut.{Expr, Select, select_has_order_by}
use mtdd.Routing.LocalFanOut.Aggregates.{
  is_window_call, is_rejected_fan_out_aggregate, is_scatter_gather_aggregate,
  validate_scatter_gather_aggregate_call,
}
use mtdd.Routing.LocalFanOut.Walk.Occurs.{All}
use mtdd.Routing.LocalFanOut.Walk.{expr_contains_subquery, collect_all_calls_from_select}
use mtdd.Routing.LocalFanOut.Support.{
  Check, both, relabelled, refuse_calls, check_call, check_calls, check_grouped,
  assert_fan_out_aggregate_support, select_has_supported_aggregates,
  select_has_group_by_with_column_calls, select_requires_fan_out_validation, some_aggregate,
}
use mtdd.Routing.LocalFanOut.Split.{validated}

-- What the checks establish of a call that the walk finds.
pub record IsSupported (e : Expr) : Type 0 where
  pub window : is_window_call e ≡ false
  pub rejected : is_rejected_fan_out_aggregate e ≡ false
  pub form : is_scatter_gather_aggregate e ≡ true → validate_scatter_gather_aggregate_call e ≡ ok tt
  pub subquery : is_scatter_gather_aggregate e ≡ true → expr_contains_subquery e ≡ false

abbrev pub AllSupported : List Expr → Type 0
AllSupported = All IsSupported

both_ok : (a b : Check) → both a b ≡ ok tt → (a ≡ ok tt) × (b ≡ ok tt)
both_ok (err e) b h = cc
both_ok (ok tt) b h = (refl, h)

relabelled_ok : (text : Text) (c : Check) → relabelled text c ≡ ok tt → c ≡ ok tt
relabelled_ok text (ok tt) h = refl
relabelled_ok text (err e) h = cc

or_false : (a b : Bool) → (a || b) ≡ false → (a ≡ false) × (b ≡ false)
or_false true b h = cc
or_false false b h = (refl, h)

if_ok :
    (b : Bool) (e : JsError) (rest : Check)
    → (if b then err e else rest) ≡ ok tt
    → (b ≡ false) × (rest ≡ ok tt)
if_ok true e rest h = cc
if_ok false e rest h = (refl, h)

chosen : (b : Bool) (c : Check) → b ≡ true → (if b then c else ok tt) ≡ ok tt → c ≡ ok tt
chosen true c b h = h
chosen false c b h = cc

checked_call :
    (text : Text) (e : Expr)
    → check_call text e ≡ ok tt
    → is_scatter_gather_aggregate e ≡ true
    → (validate_scatter_gather_aggregate_call e ≡ ok tt) × (expr_contains_subquery e ≡ false)
checked_call text e h s =
    let parts = both_ok _ _ (chosen (is_scatter_gather_aggregate e) _ s h) in
    (
      relabelled_ok text (validate_scatter_gather_aggregate_call e) parts.0,
      (if_ok (expr_contains_subquery e) _ (ok tt) parts.1).0,
    )

calls_supported :
    (text : Text) (calls : List Expr)
    → refuse_calls text calls ≡ ok tt
    → check_calls text calls ≡ ok tt
    → AllSupported calls
unfolding refuse_calls check_calls
calls_supported text [] r c = tt
calls_supported text (e ∷ calls) r c =
    let window = if_ok (is_window_call e) _ _ r in
    let rejected = if_ok (is_rejected_fan_out_aggregate e) _ _ window.1 in
    let checks = both_ok (check_call text e) (check_calls text calls) c in
    (
      record {
        window = window.0;
        rejected = rejected.0;
        form = λ s. (checked_call text e checks.0 s).0;
        subquery = λ s. (checked_call text e checks.0 s).1;
      },
      calls_supported text calls rejected.1 checks.1,
    )

asserted :
    (text : Text) (select : Select)
    → assert_fan_out_aggregate_support select text ≡ ok tt
    → AllSupported (collect_all_calls_from_select select)
unfolding assert_fan_out_aggregate_support
asserted text select h =
    let calls = collect_all_calls_from_select select in
    let first = both_ok (refuse_calls text calls) _ h in
    calls_supported text calls first.0
      (both_ok (check_calls text calls) (check_grouped text select select.group_by) first.1).0

plain_calls : (calls : List Expr) → some_aggregate calls ≡ false → AllSupported calls
plain_calls [] h = tt
plain_calls (e ∷ calls) h =
    let parts =
      or_false
        (is_window_call e || is_rejected_fan_out_aggregate e || is_scatter_gather_aggregate e)
        (some_aggregate calls) h in
    let named =
      or_false (is_window_call e || is_rejected_fan_out_aggregate e) (is_scatter_gather_aggregate e)
        parts.0 in
    let window = or_false (is_window_call e) (is_rejected_fan_out_aggregate e) named.0 in
    (
      record { window = window.0; rejected = window.1; form = λ s. cc; subquery = λ s. cc },
      plain_calls calls parts.1,
    )

unchecked :
    (select : Select)
    → select_requires_fan_out_validation select ≡ false
    → some_aggregate (collect_all_calls_from_select select) ≡ false
unfolding select_requires_fan_out_validation
unchecked select h =
    (or_false (select_has_group_by_with_column_calls select)
      (some_aggregate (collect_all_calls_from_select select))
      (or_false (select_has_order_by select || select_has_supported_aggregates select) _ h).1).1

pub validated-AllSupported :
    (text : Text) (select : Select)
    → validated text select ≡ ok tt
    → AllSupported (collect_all_calls_from_select select)
validated-AllSupported text select h =
    elim (Bool-cases (select_requires_fan_out_validation select)) [
      | inl e ↦ asserted text select (chosen (select_requires_fan_out_validation select) _ e h)
      | inr e ↦ plain_calls (collect_all_calls_from_select select) (unchecked select e)
    ]
