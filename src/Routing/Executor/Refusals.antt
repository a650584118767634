-- ===== src/Routing/Executor/Refusals.antt =====
-- The statements that query-executor.ts refuses for want of a tid.
use mtdd.Prelude.{some, ◌≡◌, refl, ap, ◌∙◌, Bool, true, false}
use mtdd.Js.Text.{Text}
use mtdd.Js.Buffer.{error}
use mtdd.Js.Effect.{ok, err, ◌>>=◌}
use mtdd.Routing.Parse.{
  CommandType, insert, call, function, Classification, is_listen_notify_command_type,
}
use mtdd.Routing.Cache.Transparency.{classification}
use mtdd.Routing.Executor.{
  absent, Meta, Env, State, is, insert_message, call_message, function_message, has_tenant_tid,
}
use mtdd.Routing.Executor.Checks.{
  is_query, refuse_if, assert_insert_requires_tid, assert_call_tid, assert_function_requires_tid,
}
use mtdd.Routing.Executor.Route.{execute_routed_query, query_routed, is_looked_up}
use mtdd.Routing.Executor.Paths.{attached, is_query-classified, refuse_if-passes, execute-attached}

-- the message for a statement that needs a tid
abbrev pub refusal : CommandType → Text
refusal insert = insert_message
refusal call = call_message
refusal _ = function_message

module _ {F R : Type 0} (env : Env F R) where
  refuse_if-throws :
      (d : CommandType) (test : Bool) (m : Text) (s : State F R)
      → is_query env d s.req ≡ ok true
      → test ≡ true
      → refuse_if env d test m s ≡ (err (error m), s)
  unfolding ◌>>=◌
  refuse_if-throws d test m s h k = rw (h, k)

  module _ (meta : Meta) (s : State F R) (none_given : s.req.tid ≡ absent) (c : CommandType)
      (tests : (d : CommandType) → is_query env d s.req ≡ ok (is c d)) where
    insert_refused :
        is c insert ≡ true
        → assert_insert_requires_tid env s.req.tid s ≡ (err (error insert_message), s)
    unfolding assert_insert_requires_tid
    insert_refused h = refuse_if-throws insert _ _ s (tests insert ∙ ap ok h) (rw none_given)

    insert_passes : is c insert ≡ false → assert_insert_requires_tid env s.req.tid s ≡ (ok tt, s)
    unfolding assert_insert_requires_tid
    insert_passes h = refuse_if-passes env insert _ _ s false (tests insert ∙ ap ok h) refl

    call_refused :
        is c call ≡ true → assert_call_tid env s.req.tid s ≡ (err (error call_message), s)
    unfolding assert_call_tid
    call_refused h = refuse_if-throws call _ _ s (tests call ∙ ap ok h) (rw none_given)

    call_passes : is c call ≡ false → assert_call_tid env s.req.tid s ≡ (ok tt, s)
    unfolding assert_call_tid
    call_passes h = refuse_if-passes env call _ _ s false (tests call ∙ ap ok h) refl

    function_refused :
        is c function ≡ true
        → assert_function_requires_tid env s.req.tid s ≡ (err (error function_message), s)
    unfolding assert_function_requires_tid has_tenant_tid
    function_refused h = refuse_if-throws function _ _ s (tests function ∙ ap ok h) (rw none_given)

  query_routed-refused :
      (meta : Meta) (s : State F R) (c : CommandType)
      → s.req.tid ≡ absent
      → ((d : CommandType) → is_query env d s.req ≡ ok (is c d))
      → is_looked_up env (some c) ≡ true
      → query_routed env meta s ≡ (err (error (refusal c)), s)
  unfolding ◌>>=◌
  query_routed-refused meta s insert n tests h = rw (insert_refused meta s n insert tests refl)
  query_routed-refused meta s call n tests h =
      rw (insert_passes meta s n call tests refl, call_refused meta s n call tests refl)
  query_routed-refused meta s function n tests h = rw (
    insert_passes meta s n function tests refl,
    call_passes meta s n function tests refl,
    function_refused meta s n function tests refl,
  )
  query_routed-refused meta s _ n tests h = cc

  not_notification :
      (c : CommandType) → is_looked_up env (some c) ≡ true → is_listen_notify_command_type c ≡ false
  unfolding is_listen_notify_command_type
  not_notification insert h = refl
  not_notification call h = refl
  not_notification function h = refl
  not_notification _ h = cc

  -- An INSERT, a CALL or a call of a stored function without a tid is refused with the message for
  -- its type, on a target of any kind, pinned or not, and with one host too. Nothing is looked up
  -- and nothing is sent: only the classification of the request is kept.
  pub execute-without_tid :
      (meta : Meta) (s : State F R) (c : Classification)
      → classification env.parse s.req.text ≡ ok c
      → s.req.tid ≡ absent
      → is_looked_up env (some c.command_type) ≡ true
      → execute_routed_query env (some meta) s
        ≡ (err (error (refusal c.command_type)), attached env c s)
  execute-without_tid meta s c known n h =
      execute-attached env meta s known (not_notification c.command_type h)
      ∙ query_routed-refused meta (attached env c s) c.command_type n
          (λ d. is_query-classified env s known d) h
