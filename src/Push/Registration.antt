-- ===== src/Push/Registration.antt =====
-- The life of a subscription in lib/push-repository.ts: what the transactions of the modules `Begin`,
-- `Confirm` and `Delete` share, and the queries. A call runs in one transaction: `none` is an exception, after which
-- the database is as it was. The triggers of drizzle/0001 and 0003 keep the counts of
-- `push_gateway_state`.
pub mod Begin
pub mod Confirm
pub mod Delete
pub mod Rows
pub mod Pendings
pub mod Integrity
pub mod Transactions
pub mod Confirmation
pub mod Revocation
pub mod History
pub mod Intact
pub mod Capacity
use sub_etha.Prelude.{
  ℕ, ◌+◌, ◌-◌, Text, Bool, true, false, ◌&&◌, ◌||◌, not, List, ◌∷◌, Option, none, some, leb, ◌==◌,
  text_eq, any, find, filter_by, update_where, length, map, if◌then◌else◌,
}
use sub_etha.Push.Tables.{
  StoredPushSubscription, PushSubscriptionSnapshot, PushSubscription, PendingSubscription,
  RevokedManagementKey, Database, RegistrationStartOutcome, ConfirmationOutcome, DeletionOutcome,
}
use sub_etha.Push.Delivery.{stored_eq, is_current}

abbrev pub has_key : Text → PushSubscription → Bool
has_key key s = text_eq s.push_key_hash key

abbrev pub has_endpoint : Text → PushSubscription → Bool
has_endpoint endpoint s = text_eq s.endpoint endpoint

-- `=` on the nullable column is not true where a side is null.
unfoldable pub manager_eq : Option Text → Option Text → Bool
manager_eq none n = false
manager_eq (some m) none = false
manager_eq (some m) (some n) = text_eq m n

abbrev pub has_manager : Text → PushSubscription → Bool
has_manager manager s = manager_eq s.management_key_hash (some manager)

abbrev pub is_revoked : Text → List RevokedManagementKey → Bool
is_revoked manager rs = any (λ r. text_eq r.management_key_hash manager) rs

-- `DELETE FROM "push_subscriptions"`, with its trigger on every deleted row.
unfoldable pub delete_subscriptions : (PushSubscription → Bool) → Database → Database
delete_subscriptions p db = record db {
  subscriptions = filter_by (λ s. not (p s)) db.subscriptions;
  gateway = record db.gateway {
    subscription_count = db.gateway.subscription_count - length (filter_by p db.subscriptions);
  };
}

unfoldable pub delete_deliveries : Text → Database → Database
delete_deliveries key db = record db {
  deliveries = filter_by (λ d. not (text_eq d.push_key_hash key)) db.deliveries;
}

unfoldable pub delete_pendings : (PendingSubscription → Bool) → Database → Database
delete_pendings p db = record db { pendings = filter_by (λ w. not (p w)) db.pendings }

-- Another row than the one of `key` holds the manager or the endpoint: a unique index is violated.
unfoldable pub clashes : Text → Text → Text → PushSubscription → Bool
clashes key manager endpoint s =
    not (has_key key s) && (has_manager manager s || has_endpoint endpoint s)

abbrev pub rivals : Text → Text → Text → PendingSubscription → Bool
rivals key manager endpoint w =
    text_eq w.delivery_key_hash key
    || text_eq w.management_key_hash manager
    || text_eq w.endpoint endpoint

abbrev pub manages : Text → PendingSubscription → Bool
manages manager w = text_eq w.management_key_hash manager

-- The row of another subscription that has the endpoint, and its deliveries, are deleted.
unfoldable pub evict : Text → Text → Database → Database
unfolding delete_subscriptions delete_deliveries
evict key endpoint db =
    elim (find (λ s. has_endpoint endpoint s && not (has_key key s)) db.subscriptions) [
      | none ↦ db
      | some s ↦
          delete_subscriptions (has_key s.push_key_hash) (delete_deliveries s.push_key_hash db)
    ]

-- What a registration asks for: the two capabilities' hashes and the browser's subscription.
pub record Registration : Type 0 where
  pub delivery_key_hash : Text
  pub management_key_hash : Text
  pub subscription : StoredPushSubscription
  pub open subscription use *

abbrev pub reassign : Registration → ℕ → PushSubscription → PushSubscription
reassign r now s = record s {
  management_key_hash = some r.management_key_hash;
  stored = r.subscription;
  updated_at = now;
}

abbrev pub snapshot_of : PushSubscription → PushSubscriptionSnapshot
snapshot_of s = record { delivery_key_hash = s.push_key_hash; stored = s.stored }

unfoldable pub get_subscriptions : List Text → Database → List PushSubscriptionSnapshot
get_subscriptions keys db =
    map snapshot_of (filter_by (λ s. any (text_eq s.push_key_hash) keys) db.subscriptions)

unfoldable pub get_managed_subscription : Text → Database → Option PushSubscriptionSnapshot
get_managed_subscription manager db = elim (find (has_manager manager) db.subscriptions) [
  | none ↦ none
  | some s ↦ some (snapshot_of s)
]
