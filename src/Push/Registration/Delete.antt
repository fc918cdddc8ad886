-- ===== src/Push/Registration/Delete.antt =====
-- `deleteSubscription` and `deleteSubscriptionByDeliveryKeyIfCurrent` of lib/push-repository.ts, with
-- the SQL functions of drizzle/0003 that they call.
use sub_etha.Prelude.{
  ℕ, ◌+◌, Text, Bool, true, false, ◌&&◌, not, ◌∷◌, Option, none, some, leb, ◌==◌, any, find,
  if◌then◌else◌,
}
use sub_etha.Push.Tables.{PushSubscriptionSnapshot, Database, DeletionOutcome}
use sub_etha.Push.Delivery.{is_current}
use sub_etha.Push.Registration.{
  has_manager, is_revoked, delete_subscriptions, delete_deliveries, delete_pendings, manages,
}

-- The tombstone of a management key, with the trigger on an inserted row.
unfoldable pub revoke : Text → ℕ → Database → Database
revoke manager now db = if is_revoked manager db.revoked then db else record db {
  revoked = record { management_key_hash = manager; revoked_at = now } ∷ db.revoked;
  gateway = record db.gateway {
    revoked_management_key_count = db.gateway.revoked_management_key_count + 1;
  };
}

abbrev pub revocation_limit : ℕ → Database → ℕ
revocation_limit maximum_revoked db = elim db.gateway.revoked_management_key_limit [
  | none ↦ maximum_revoked
  | some n ↦ n
]

-- The deletions of `subetha_delete_push_subscription`, once the tombstone stands.
unfoldable pub remove_managed : Text → Database → DeletionOutcome × Database
unfolding delete_pendings delete_deliveries delete_subscriptions
remove_managed manager db = elim (find (has_manager manager) db.subscriptions) [
  | none ↦
      if any (manages manager) db.pendings
      then (DeletionOutcome.removed, delete_pendings (manages manager) db)
      else (DeletionOutcome.not_found, db)
  | some s ↦ (
    DeletionOutcome.removed,
    delete_subscriptions (has_manager manager)
        (delete_deliveries s.push_key_hash (delete_pendings (manages manager) db)),
  )
]

-- `subetha_delete_push_subscription`
unfoldable pub delete_subscription :
    Text → (now maximum_revoked : ℕ) → Database → Option (DeletionOutcome × Database)
unfolding revoke remove_managed
delete_subscription manager now maximum_revoked db =
    let limit = revocation_limit maximum_revoked db in
    let db' = record db {
      gateway = record db.gateway { revoked_management_key_limit = some limit };
    } in
    if maximum_revoked == 0
    then none
    else if not (is_revoked manager db.revoked) && leb limit db.gateway.revoked_management_key_count
    then some (DeletionOutcome.capacity_exceeded, db')
    else some (remove_managed manager (revoke manager now db'))

-- `subetha_delete_push_subscription_if_current`
unfoldable pub delete_subscription_if_current :
    PushSubscriptionSnapshot → Database → Bool × Database
unfolding delete_subscriptions delete_deliveries
delete_subscription_if_current snapshot db =
    if any (is_current snapshot) db.subscriptions
    then (
      true,
      delete_subscriptions (is_current snapshot) (delete_deliveries snapshot.delivery_key_hash db),
    )
    else (false, db)
