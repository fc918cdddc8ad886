-- ===== src/Push/Delivery.antt =====
-- The delivery leases of lib/push-repository.ts: `claimDelivery`, `markDelivered` with the SQL function
-- `subetha_mark_push_delivery_if_current`, `releaseDelivery` and `cleanupDeliveries`. A row's primary
-- key is the pair of its subscription's hash and the event.
pub mod Leases
pub mod Exclusive
use sub_etha.Prelude.{
  ℕ, ◌+◌, Text, Bool, true, false, ◌&&◌, not, List, [], ◌∷◌, ◌++◌, Option, none, some, leb, text_eq,
  any, filter_by, update_where, if◌then◌else◌,
}
use sub_etha.Push.Tables.{
  StoredPushSubscription, PushSubscriptionSnapshot, PushSubscription, PushDelivery, DeliveryStatus,
  Database,
}

abbrev pub is_pending : DeliveryStatus → Bool
is_pending DeliveryStatus.pending = true
is_pending DeliveryStatus.sent = false

unfoldable pub is_delivery : Text → Text → PushDelivery → Bool
is_delivery key event d = text_eq d.push_key_hash key && text_eq d.event_id event

abbrev pub is_stale : Text → Text → ℕ → ℕ → PushDelivery → Bool
is_stale key event now stale_after d =
    is_delivery key event d && is_pending d.status && leb (d.updated_at + stale_after) now

abbrev pub fresh_delivery : Text → Text → ℕ → PushDelivery
fresh_delivery key event now = record {
  push_key_hash = key;
  event_id = event;
  status = DeliveryStatus.pending;
  updated_at = now;
}

-- `INSERT … ON CONFLICT DO NOTHING`, and where that inserts nothing, the renewal of a stale lease.
unfoldable pub claim_delivery : Text → Text → ℕ → ℕ → Database → Bool × Database
claim_delivery key event now stale_after db =
    if any (is_delivery key event) db.deliveries
    then (
      any (is_stale key event now stale_after) db.deliveries,
      record db {
        deliveries =
            update_where (is_stale key event now stale_after) (λ d. record d { updated_at = now })
              db.deliveries;
      },
    )
    else (true, record db { deliveries = db.deliveries ++ fresh_delivery key event now ∷ [] })

unfoldable pub stored_eq : StoredPushSubscription → StoredPushSubscription → Bool
stored_eq a b = text_eq a.endpoint b.endpoint && text_eq a.p256dh b.p256dh && text_eq a.auth b.auth

-- The row is still the one that the snapshot was read from.
unfoldable pub is_current : PushSubscriptionSnapshot → PushSubscription → Bool
is_current snapshot s =
    text_eq s.push_key_hash snapshot.delivery_key_hash && stored_eq s.stored snapshot.stored

abbrev pub is_event : Text → Option Text → PushDelivery → Bool
is_event key none d = false
is_event key (some event) d = is_delivery key event d

unfoldable pub mark_delivered :
    PushSubscriptionSnapshot → Option Text → ℕ → Database → Bool × Database
mark_delivered snapshot event now db =
    if any (is_current snapshot) db.subscriptions
    then (
      true,
      record db {
        subscriptions =
            update_where (is_current snapshot)
              (λ s. record s { last_success_at = some now; updated_at = now }) db.subscriptions;
        deliveries =
            update_where (is_event snapshot.delivery_key_hash event)
              (λ d. record d { status = DeliveryStatus.sent; updated_at = now }) db.deliveries;
      },
    )
    else (false, db)

unfoldable pub release_delivery : Text → Text → Database → Database
release_delivery key event db = record db {
  deliveries = filter_by (λ d. not (is_delivery key event d && is_pending d.status)) db.deliveries;
}

-- `updatedAt <= cutoff` for the cutoff `now - age`.
unfoldable pub cleanup_deliveries : ℕ → ℕ → Database → Database
cleanup_deliveries now age db = record db {
  deliveries = filter_by (λ d. not (leb (d.updated_at + age) now)) db.deliveries;
}
