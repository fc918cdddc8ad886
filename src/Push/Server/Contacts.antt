-- ===== src/Push/Server/Contacts.antt =====
-- Which endpoints the server contacts over any sequence of calls.
mod Browser
use sub_etha.Prelude.{
  ℕ, ◌≡◌, ◌||◌, not, text_eq, Text, codes, Bool, true, false, List, [], ◌∷◌, Option, none, some,
  if◌then◌else◌, ltb, length, All, map, arith,
}
use sub_etha.Json.{Json, get, get?, string_of}
use sub_etha.Push.Tables.{PushSubscriptionSnapshot, RegistrationStartOutcome}
use sub_etha.Push.Exec.{World, Dependencies}
use sub_etha.Push.Exec.Preserves.{
  Preserves, preserving, Preserves-if, Preserves-option, Preserves-bind, Preserves-then,
  Preserves-catch, Preserves-query, Preserves-random_capability, Preserves-read_clock,
  Preserves-pure, Preserves-throw, Preserves-bind_yield, Yields, Yields-bind, Yields-if,
  Yields-option, Yields-pure, Yields-throw, IsFramed,
}
use sub_etha.Push.Server.{property, read_json, Request, allowed_endpoint, push_key}
use sub_etha.Push.Server.Destinations.{
  ContactsAllowed, frame, send-Preserves, budget-Preserves, deliver-Preserves, read_json-Preserves,
  property-Preserves, assert_same_origin-Preserves, configured-Preserves, cleanup-Preserves,
  guarded-ContactsAllowed,
}
use sub_etha.Push.Server.Deliver.{ResolvedPushDevice, event_of, deliver, DeviceDeliveryResult}
use sub_etha.Push.Server.Subscriptions.{
  Asked, confirm_keyed, remove_keyed, confirm, remove, checked, checked?, asked, send_challenge,
  started, register, change_subscription, invalid, valid_generation,
}
use sub_etha.Push.Server.TestSend.{
  attempt, after_failure, send_test, drop_invalid, test_found, test_keyed, test_notification,
}
use sub_etha.Push.Server.Notify.{
  summarize, deliver_all, finish, notify_event, notify_devices, accepted_devices, notify, resolve,
  valid_devices, is_push_device,
}
use sub_etha.Push.Server.Handlers.{
  Call, vapid_key, subscriptions, test, matrix_notify, get_vapid_key, serve, serve_all,
}
use sub_etha.Push.Server.Contacts.Browser.{
  test_notification-Preserves, change_subscription-Preserves,
}

module _ {S : Type 0} (deps : Dependencies S) where
  summarize-Preserves :
      (is_event : Bool) (devices : List Json) (results : List DeviceDeliveryResult)
      → Preserves (ContactsAllowed deps) (summarize deps is_event devices results)
  unfolding summarize
  summarize-Preserves is_event devices results = search (preserving, frame deps)

  deliver_all-Preserves :
      (notification : Json) (rs : List ResolvedPushDevice)
      → Preserves (ContactsAllowed deps) (deliver_all deps notification rs)
  unfolding deliver_all
  deliver_all-Preserves notification [] = search preserving
  deliver_all-Preserves notification (r ∷ rs) =
      Preserves-bind (deliver deps notification r) _ (deliver-Preserves deps notification r)
        (λ result.
          Preserves-bind (deliver_all deps notification rs) _
            (deliver_all-Preserves notification rs) (λ results. Preserves-pure _))

  finish-Preserves :
      (devices : List Json) (results : List DeviceDeliveryResult)
      → Preserves (ContactsAllowed deps) (finish deps devices results)
  unfolding finish
  finish-Preserves devices results =
      search (preserving, frame deps, summarize-Preserves, cleanup-Preserves) depth 10

  notify_event-Preserves :
      (notification : Json) (devices : List Json) (snapshots : List PushSubscriptionSnapshot)
      → Preserves (ContactsAllowed deps) (notify_event deps notification devices snapshots)
  unfolding notify_event
  notify_event-Preserves notification devices [] =
      search (preserving, configured-Preserves, summarize-Preserves)
  notify_event-Preserves notification devices (s ∷ snapshots) =
      search
        (
          preserving, configured-Preserves, budget-Preserves, deliver_all-Preserves,
          finish-Preserves,
        )
        depth 9

  notify_devices-Preserves :
      (notification : Json) (devices : List Json)
      → Preserves (ContactsAllowed deps) (notify_devices deps notification devices)
  unfolding notify_devices
  notify_devices-Preserves notification devices =
      search (preserving, frame deps, notify_event-Preserves, summarize-Preserves) depth 9

  accepted-Preserves :
      (notification : Option Json) (devices : Option (List Json))
      → Preserves (ContactsAllowed deps) (accepted_devices deps notification devices)
  accepted-Preserves (some notification) (some devices) =
      notify_devices-Preserves notification devices
  accepted-Preserves none devices = search preserving
  accepted-Preserves (some notification) none = search preserving

  notify-Preserves : (request : Request) → Preserves (ContactsAllowed deps) (notify deps request)
  unfolding notify
  notify-Preserves request =
      search (preserving, read_json-Preserves, property-Preserves, accepted-Preserves) depth 8

  get_vapid_key-Preserves : Preserves (ContactsAllowed deps) (get_vapid_key deps)
  unfolding get_vapid_key
  get_vapid_key-Preserves = search (preserving, configured-Preserves)

  serve-ContactsAllowed :
      (c : Call) (w : World S) → ContactsAllowed deps w → ContactsAllowed deps (serve deps c w).1
  unfolding serve
  serve-ContactsAllowed vapid_key w h = guarded-ContactsAllowed deps _ _ w get_vapid_key-Preserves h
  serve-ContactsAllowed (subscriptions request) w h =
      guarded-ContactsAllowed deps _ _ w (change_subscription-Preserves deps request) h
  serve-ContactsAllowed (test request) w h =
      guarded-ContactsAllowed deps _ _ w (test_notification-Preserves deps request) h
  serve-ContactsAllowed (matrix_notify request) w h =
      guarded-ContactsAllowed deps _ _ w (notify-Preserves request) h

  -- Over any sequence of calls, from a server that has contacted nobody or only allowed endpoints,
  -- every endpoint that is contacted passes `validPushEndpoint`: whatever the clients ask, whatever
  -- the store holds and whatever the push service, the clock and the database answer.
  pub serve_all-ContactsAllowed :
      (cs : List Call) (w : World S)
      → ContactsAllowed deps w
      → ContactsAllowed deps (serve_all deps cs w)
  unfolding serve_all
  serve_all-ContactsAllowed [] w h = h
  serve_all-ContactsAllowed (c ∷ cs) w h =
      serve_all-ContactsAllowed cs (serve deps c w).1 (serve-ContactsAllowed c w h)
