-- ===== src/Notify/Examples.antt =====
-- The theorems on notifications at concrete inputs: two clients of the tenant "a" that listen to
-- the channel "jobs", of which one is then released, and a notification.
use mtdd.Prelude.{◌≡◌, ◌⊎◌, ◌↔◌, refl, List, [], ◌∷◌}
use mtdd.Js.Text.{Text, codes, text_eq}
use mtdd.Js.Effect.{ok}
use mtdd.Routing.Executor.{tenant, absent, checkout}
use mtdd.Notify.{Hub, empty_hub, channel_key, split_key}
use mtdd.Notify.Transport.{Limits, publish, subscribe}
use mtdd.Notify.Key.{ColonFree, channel_key-injective}
use mtdd.Notify.Crosstalk.{publish-subscribe_crosses}
use mtdd.Notify.Delivery.{Among, Subscribed, note, publish_iff}
use mtdd.Notify.Agree.{IsConsistent}
use mtdd.Notify.Agree.Commands.{Step, command, teardown, run_steps, run_steps-IsConsistent}

abbrev limits : Limits
limits = record { channel_bytes = ok 63; payload_bytes = ok 8000 }

abbrev steps : List Step
steps =
    command limits 3 (tenant (codes "a")) (codes "LISTEN jobs")
    ∷ command limits 5 (tenant (codes "a")) (codes "LISTEN jobs")
    ∷ command limits 6 absent (codes "LISTEN jobs")
    ∷ teardown checkout 5
    ∷ []

abbrev hub : Hub
hub = run_steps Unit Unit steps empty_hub

run_steps-IsConsistent_example : IsConsistent hub
run_steps-IsConsistent_example = run_steps-IsConsistent Unit Unit steps

publish_iff_example :
    Among
      (3, note (codes "jobs") (codes "7"))
      (publish (codes "jobs") (codes "7") (codes "a") hub).emitted
    ↔ (Among (3, note (codes "jobs") (codes "7")) hub.emitted
        ⊎ Subscribed
            (channel_key (codes "jobs") (codes "a"))
            (note (codes "jobs") (codes "7"))
            hub
            (3, note (codes "jobs") (codes "7")))
publish_iff_example =
    publish_iff (codes "jobs") (codes "7") (codes "a") hub (run_steps-IsConsistent Unit Unit steps)
      (3, note (codes "jobs") (codes "7"))

emitted_to_the_listener :
    (publish (codes "jobs") (codes "7") (codes "a") hub).emitted
    ≡ (3, note (codes "jobs") (codes "7")) ∷ []
unfolding publish run_steps mtdd.Notify.Handler.teardown_notify_subscriptions
    mtdd.Notify.Handler.execute_listen_notify_command
    mtdd.Routing.Parse.parse_listen_notify_statement mtdd.Js.Regex.test
    mtdd.Routing.Parse.unlisten_star_pattern mtdd.Js.Text.trim mtdd.Routing.Parse.listen_pattern
    mtdd.Js.Regex.capture mtdd.Js.Utf8.encode empty_hub text_eq
emitted_to_the_listener = refl

a_ColonFree : ColonFree (codes "a")
a_ColonFree = ((λ e. cc), tt)

channel_key-injective_example : (codes "a" ≡ codes "a") × (codes "x" ≡ codes "x")
channel_key-injective_example =
    channel_key-injective (codes "x") (codes "x") (codes "a") (codes "a") a_ColonFree a_ColonFree
      refl

-- one client of the tenant "a:b" that listens to nothing yet
abbrev registered : Hub
registered = record empty_hub {
  clients = (1, record { target = 3; channels = [] }) ∷ [];
  next_id = 2;
}

publish-subscribe_crosses_example :
    Among
      (3, note (codes "b:c") (codes "7"))
      (publish
        (codes "b:c")
        (codes "7")
        (codes "a")
        (subscribe 1 (codes "c") (codes "a:b") registered)).emitted
unfolding empty_hub mtdd.Js.Map.get
publish-subscribe_crosses_example =
    publish-subscribe_crosses 1 (record { target = 3; channels = [] }) (codes "a") (codes "b")
      (codes "c") (codes "7") registered refl
