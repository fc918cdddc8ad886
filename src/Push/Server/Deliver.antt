-- ===== src/Push/Server/Deliver.antt =====
-- `deliver` of lib/push-server.ts: one device of a Matrix notification.
use sub_etha.Prelude.{
  ℕ, Text, codes, text_eq, ◌||◌, [], ◌∷◌, Option, none, some, ◌==◌, if◌then◌else◌, holds,
}
use sub_etha.Json.{Json, get, string_of}
use sub_etha.Push.Tables.{PushSubscriptionSnapshot}
use sub_etha.Push.Gateway.{PushNotificationKind, generic_notification_payload}
use sub_etha.Push.Exec.{
  Message, Dependencies, Exec, pure, catch, query, read_clock, send_notification, ◌>>=◌, ◌>>◌,
}
use sub_etha.Push.Server.{
  app_id, budget_outbound_deliveries, one_minute_seconds, pending_delivery_timeout_seconds,
  rate_window_seconds, rate_limit, push_key, consume_budget, allowed_endpoint,
}

pub data DeviceDeliveryResult : Type 0 where
  sent suppressed rejected transient : DeviceDeliveryResult

pub record ResolvedPushDevice : Type 0 where
  pub device : Json
  pub key_hash : Option Text
  pub snapshot : Option PushSubscriptionSnapshot

-- `device.app_id === APP_ID && validPushKey(device.pushkey)`, with the key.
abbrev pub own_push_key : Json → Option Text
own_push_key device =
    if holds (λ app. text_eq app app_id) (string_of (get device (codes "app_id")))
    then push_key (get device (codes "pushkey"))
    else none

abbrev nonempty : Text → Option Text
nonempty [] = none
nonempty (c ∷ s) = some (c ∷ s)

-- The event's identifier, if it is a text that is not empty.
abbrev pub event_of : Json → Option Text
event_of notification = elim (string_of (get notification (codes "event_id"))) [
  | none ↦ none
  | some s ↦ nonempty s
]

module _ {S : Type 0} (deps : Dependencies S) where
  open deps use {repository, limits}

  abbrev pub release_then : {A : Type 0} → Text → Text → A → Exec S A
  release_then key event result = do query (repository.release key event); pure result

  -- The `try` block.
  unfoldable pub attempt :
      Json → Text → Text → ℕ → PushSubscriptionSnapshot → Exec S DeviceDeliveryResult
  attempt notification key event timestamp snapshot = do
    send_notification deps snapshot.stored (
        Message.notification (
          generic_notification_payload notification PushNotificationKind.matrix
            snapshot.delivery_key_hash))
    marked ← query (repository.mark snapshot (some event) timestamp)
    if marked then pure sent else release_then key event transient

  -- The `catch` block, with the status code of the error.
  unfoldable pub after_failure :
      Text → Text → PushSubscriptionSnapshot → ℕ → Exec S DeviceDeliveryResult
  after_failure key event snapshot status =
      if status == 404 || status == 410
      then (do
        removed ← query (repository.delete_if_current snapshot)
        if removed then pure rejected else release_then key event transient)
      else release_then key event transient

  unfoldable pub send_claimed :
      Json → Text → Text → ℕ → PushSubscriptionSnapshot → Exec S DeviceDeliveryResult
  send_claimed notification key event timestamp snapshot = do
    allowed ←
        consume_budget deps budget_outbound_deliveries one_minute_seconds
          limits.deliveries_per_minute
    if allowed
        then catch (attempt notification key event timestamp snapshot)
            (after_failure key event snapshot)
        else release_then key event transient

  unfoldable pub deliver_event :
      Json → Text → Text → PushSubscriptionSnapshot → Exec S DeviceDeliveryResult
  deliver_event notification key event snapshot = do
    timestamp ← read_clock deps
    within_rate ← query (repository.consume key timestamp rate_window_seconds rate_limit)
    if within_rate
        then (do
          claimed ← query (repository.claim key event timestamp pending_delivery_timeout_seconds)
          if claimed
              then send_claimed notification key event timestamp snapshot
              else pure suppressed)
        else pure suppressed

  unfoldable pub deliver_to : Json → Text → PushSubscriptionSnapshot → Exec S DeviceDeliveryResult
  deliver_to notification key snapshot =
      if allowed_endpoint deps snapshot.endpoint
      then elim (event_of notification) [
        | none ↦ pure suppressed
        | some event ↦ deliver_event notification key event snapshot
      ]
      else do
        removed ← query (repository.delete_if_current snapshot)
        pure (if removed then rejected else transient)

  abbrev pub resolved_to :
      Json → Option Text → Option PushSubscriptionSnapshot → Exec S DeviceDeliveryResult
  resolved_to notification (some key) (some snapshot) = deliver_to notification key snapshot
  resolved_to notification _ _ = pure rejected

  -- `deliver`; a digest is never the empty text, so that `!keyHash` is its absence.
  unfoldable pub deliver : Json → ResolvedPushDevice → Exec S DeviceDeliveryResult
  deliver notification resolved = elim (own_push_key resolved.device) [
    | none ↦ pure rejected
    | some pushkey ↦ resolved_to notification resolved.key_hash resolved.snapshot
  ]
