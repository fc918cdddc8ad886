-- ===== src/Push/Server/Notify.antt =====
-- `notify` of lib/push-server.ts. `mapWithConcurrency` is run here with one delivery after the other,
-- in the order of the devices: that is one of its schedules.
use sub_etha.Prelude.{
  ℕ, suc, Text, codes, text_eq, Bool, true, false, ◌&&◌, ◌||◌, not, List, [], ◌∷◌, Option, none,
  some, ltb, length, all, find, filter_by, map, is_some, if◌then◌else◌,
}
use sub_etha.Json.{Json, obj, arr, get, get?, string_of, items}
use sub_etha.Push.Tables.{PushSubscriptionSnapshot}
use sub_etha.Push.Exec.{
  Body, Response, LogEntry, Dependencies, Exec, pure, catch, query, read_clock, write_log, ◌>>=◌,
  ◌>>◌,
}
use sub_etha.Push.Server.{
  Request, json, json_retry, budget_matrix_notify, one_minute_seconds, max_devices_per_request,
  delivery_retention_seconds, property, read_json, configured, consume_budget,
  cleanup_stale_subscriptions,
}
use sub_etha.Push.Server.Deliver.{
  DeviceDeliveryResult, sent, suppressed, rejected, transient, ResolvedPushDevice, own_push_key,
  event_of, deliver,
}

-- `isPushDevice`
abbrev pub is_push_device : Json → Bool
is_push_device (obj fs) = true
is_push_device _ = false

-- `Array.isArray(devices)`, with the elements.
abbrev pub array_of : Option Json → Option (List Json)
array_of (some (arr vs)) = some (items vs)
array_of _ = none

-- The devices of a notification that is accepted.
unfoldable pub valid_devices : Option Json → Option (List Json)
valid_devices notification = elim (array_of (get? notification (codes "devices"))) [
  | none ↦ none
  | some ds ↦
      if ltb max_devices_per_request (length ds) || not (all is_push_device ds)
      then none
      else some ds
]

-- `result === r`
abbrev pub is_result : DeviceDeliveryResult → DeviceDeliveryResult → Bool
is_result sent sent = true
is_result suppressed suppressed = true
is_result rejected rejected = true
is_result transient transient = true
is_result _ _ = false

unfoldable pub count_results : DeviceDeliveryResult → List DeviceDeliveryResult → ℕ
count_results r [] = 0
count_results r (q ∷ qs) = if is_result r q then suc (count_results r qs) else count_results r qs

-- The push keys of the rejected devices.
unfoldable pub rejected_keys : List Json → List DeviceDeliveryResult → List Text
rejected_keys (d ∷ ds) (r ∷ rs) = elim (string_of (get d (codes "pushkey"))) [
  | none ↦ rejected_keys ds rs
  | some key ↦ if is_result rejected r then key ∷ rejected_keys ds rs else rejected_keys ds rs
]
rejected_keys _ _ = []

-- `new Set` keeps the first of equal texts.
unfoldable pub distinct : List Text → List Text
distinct [] = []
distinct (s ∷ ss) = s ∷ filter_by (λ t. not (text_eq s t)) (distinct ss)

abbrev present : List (Option Text) → List Text
present [] = []
present (none ∷ hs) = present hs
present (some h ∷ hs) = h ∷ present hs

abbrev pub snapshot_for :
    List PushSubscriptionSnapshot → Option Text → Option PushSubscriptionSnapshot
snapshot_for snapshots none = none
snapshot_for snapshots (some h) = find (λ s. text_eq s.delivery_key_hash h) snapshots

module _ {S : Type 0} (deps : Dependencies S) where
  open deps use {repository, limits, hash_capability}

  abbrev pub hash_of : Json → Option Text
  hash_of device = elim (own_push_key device) [
    | none ↦ none
    | some key ↦ some (hash_capability key)
  ]

  unfoldable pub resolve : List PushSubscriptionSnapshot → Json → ResolvedPushDevice
  resolve snapshots device = record {
    device = device;
    key_hash = hash_of device;
    snapshot = snapshot_for snapshots (hash_of device);
  }

  -- The answer to a device of a callback that has counts only.
  unfoldable pub counts_only_result : ResolvedPushDevice → DeviceDeliveryResult
  counts_only_result r =
      if is_some (own_push_key r.device) && is_some r.key_hash && is_some r.snapshot
      then suppressed
      else rejected

  abbrev pub summary_of : Bool → List Json → List DeviceDeliveryResult → LogEntry
  summary_of is_event devices results =
      LogEntry.summary is_event (count_results sent results) (count_results suppressed results)
        (count_results rejected results) (count_results transient results) (length devices)

  -- `summarize`, with the rejected keys.
  unfoldable pub summarize : Bool → List Json → List DeviceDeliveryResult → Exec S (List Text)
  summarize is_event devices results = do
    write_log (summary_of is_event devices results)
    pure (rejected_keys devices results)

  unfoldable pub deliver_all : Json → List ResolvedPushDevice → Exec S (List DeviceDeliveryResult)
  deliver_all notification [] = pure []
  deliver_all notification (r ∷ rs) = do
    result ← deliver deps notification r
    results ← deliver_all notification rs
    pure (result ∷ results)

  abbrev ignore : {A : Type 0} → Exec S A → Exec S Unit
  ignore m = catch (do m; pure tt) (λ status. pure tt)

  unfoldable pub finish : List Json → List DeviceDeliveryResult → Exec S Response
  finish devices results = do
    keys ← summarize true devices results
    now ← read_clock deps
    ignore (query (repository.clean_deliveries now delivery_retention_seconds))
    ignore (cleanup_stale_subscriptions deps)
    pure (
        if ltb 0 (count_results transient results)
        then json_retry (Body.matrix_error "M_UNKNOWN" "Some push deliveries failed temporarily.")
            503
        else json (Body.rejected keys) 200)

  abbrev pub all_rejected : List Json → List DeviceDeliveryResult
  all_rejected = map (λ d. rejected)

  -- A callback that has an event.
  unfoldable pub notify_event : Json → List Json → List PushSubscriptionSnapshot → Exec S Response
  notify_event notification devices [] = do
    configured deps
    keys ← summarize true devices (all_rejected devices)
    pure (json (Body.rejected keys) 200)
  notify_event notification devices (s ∷ snapshots) = do
    configured deps
    allowed ← consume_budget deps budget_matrix_notify one_minute_seconds limits.notify_per_minute
    if allowed
        then (do
          results ← deliver_all notification (map (resolve (s ∷ snapshots)) devices)
          finish devices results)
        else pure
            (json_retry (Body.matrix_error "M_UNKNOWN" "Push gateway is temporarily busy.") 503)

  unfoldable pub notify_devices : Json → List Json → Exec S Response
  notify_devices notification devices = do
    snapshots ← query (repository.snapshots (distinct (present (map hash_of devices))))
    if is_some (event_of notification) then notify_event notification devices snapshots else (do
      keys ← summarize false devices (map (λ d. counts_only_result (resolve snapshots d)) devices)
      pure (json (Body.rejected keys) 200))

  abbrev pub accepted_devices : Option Json → Option (List Json) → Exec S Response
  accepted_devices (some notification) (some devices) = notify_devices notification devices
  accepted_devices _ _ =
      pure (json (Body.matrix_error "M_BAD_JSON" "Invalid Matrix notification.") 400)

  -- The operation that `notify` guards.
  unfoldable pub notify : Request → Exec S Response
  notify request = do
    body ← read_json deps request
    notification ← property body (codes "notification")
    accepted_devices notification (valid_devices notification)
