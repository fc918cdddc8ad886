-- ===== src/Push/Server/TestSend.antt =====
-- `testNotification` of lib/push-server.ts.
use sub_etha.Prelude.{ℕ, Text, codes, ◌||◌, ◌++◌, Option, none, some, ◌==◌, if◌then◌else◌, decimal}
use sub_etha.Json.{Json, obj, num, str, end, field}
use sub_etha.Prelude.{false}
use sub_etha.Push.Tables.{PushSubscriptionSnapshot}
use sub_etha.Push.Gateway.{PushNotificationKind, generic_notification_payload}
use sub_etha.Push.Exec.{
  Body, Message, Response, Dependencies, Exec, pure, catch, query, read_clock, send_notification,
  ◌>>=◌, ◌>>◌,
}
use sub_etha.Push.Server.{
  Request, json, json_retry, budget_outbound_deliveries, budget_test_sends, one_minute_seconds,
  rate_window_seconds, rate_limit, push_key, property, read_json, assert_same_origin, configured,
  consume_budget, allowed_endpoint,
}

-- `{ event_id: "test-…", counts: { unread: 0 } }`
abbrev pub test_event : ℕ → Json
test_event timestamp = obj (
    field (codes "event_id") (str (codes "test-" ++ decimal timestamp))
      (field (codes "counts") (obj (field (codes "unread") (num false 0) end)) end))

module _ {S : Type 0} (deps : Dependencies S) where
  open deps use {repository, limits, hash_capability}

  abbrev changed : Exec S Response
  changed =
      pure (json_retry (Body.error "The push subscription changed while it was being tested.") 503)

  unfoldable pub attempt : PushSubscriptionSnapshot → ℕ → Exec S Response
  attempt snapshot timestamp = do
    send_notification deps snapshot.stored (
        Message.notification (
          generic_notification_payload (test_event timestamp) PushNotificationKind.test
            snapshot.delivery_key_hash))
    marked ← query (repository.mark snapshot none timestamp)
    if marked then pure (json Body.sent 200) else changed

  unfoldable pub after_failure : PushSubscriptionSnapshot → ℕ → Exec S Response
  after_failure snapshot status =
      if status == 404 || status == 410
      then (do
        removed ← query (repository.delete_if_current snapshot)
        if removed then pure (json (Body.error "Push subscription expired.") 410) else changed)
      else pure (json (Body.error "The test notification could not be sent.") 502)

  unfoldable pub send_test : PushSubscriptionSnapshot → Exec S Response
  send_test snapshot = do
    allowed ← consume_budget deps budget_test_sends one_minute_seconds limits.tests_per_minute
    if allowed
        then (do
          timestamp ← read_clock deps
          within_rate ← query (
              repository.consume snapshot.delivery_key_hash timestamp rate_window_seconds
                rate_limit)
          if within_rate
              then (do
                free ←
                    consume_budget deps budget_outbound_deliveries one_minute_seconds
                      limits.deliveries_per_minute
                if free
                    then catch (attempt snapshot timestamp) (after_failure snapshot)
                    else pure (json (Body.error "Push delivery rate limit exceeded.") 429))
              else pure (json (Body.error "Push rate limit exceeded.") 429))
        else pure (json (Body.error "Push test rate limit exceeded.") 429)

  unfoldable pub drop_invalid : PushSubscriptionSnapshot → Exec S Response
  drop_invalid snapshot = do
    removed ← query (repository.delete_if_current snapshot)
    pure (
        if removed
        then json (Body.error "Push subscription is no longer valid.") 410
        else json_retry (Body.error "The push subscription changed while it was being checked.")
            503)

  abbrev pub test_found : Option PushSubscriptionSnapshot → Exec S Response
  test_found none = pure (json (Body.error "Push subscription was not found.") 404)
  test_found (some snapshot) =
      if allowed_endpoint deps snapshot.endpoint then send_test snapshot else drop_invalid snapshot

  abbrev pub test_keyed : Option Text → Exec S Response
  test_keyed none = pure (json (Body.error "Invalid push management key.") 400)
  test_keyed (some key) = do
    found ← query (repository.managed (hash_capability key))
    test_found found

  -- The operation that `testNotification` guards.
  unfoldable pub test_notification : Request → Exec S Response
  test_notification request = do
    configured deps
    assert_same_origin deps request
    body ← read_json deps request
    management_key ← property body (codes "managementKey")
    test_keyed (push_key management_key)
