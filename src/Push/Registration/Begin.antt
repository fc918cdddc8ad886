-- ===== src/Push/Registration/Begin.antt =====
-- `beginSubscriptionRegistration` of lib/push-repository.ts, with the SQL function
-- `subetha_begin_push_subscription_registration` of drizzle/0002.
use sub_etha.Prelude.{
  ℕ, Text, Bool, not, ◌∷◌, Option, none, some, leb, text_eq, any, find, update_where, length,
  if◌then◌else◌,
}
use sub_etha.Push.Tables.{PushSubscription, PendingSubscription, Database, RegistrationStartOutcome}
use sub_etha.Push.Delivery.{stored_eq}
use sub_etha.Push.Registration.{
  has_key, has_manager, is_revoked, delete_pendings, clashes, rivals, evict, Registration, reassign,
}

-- The registration of a delivery key that has a row: `UPDATE`, then `DELETE` of the rivals.
unfoldable pub refresh_existing : Registration → ℕ → Database → Option Database
unfolding evict clashes delete_pendings
refresh_existing r now db =
    let db' = evict r.delivery_key_hash r.endpoint db in
    if any (clashes r.delivery_key_hash r.management_key_hash r.endpoint) db'.subscriptions
    then none
    else some (
        delete_pendings (rivals r.delivery_key_hash r.management_key_hash r.endpoint) (record db' {
          subscriptions =
              update_where (has_key r.delivery_key_hash) (reassign r now) db'.subscriptions;
        }))

-- Another capability manages the row, or none does and the subscription is not the row's own.
unfoldable pub conflicts : Registration → PushSubscription → Bool
unfolding stored_eq
conflicts r s = elim s.management_key_hash [
  | none ↦ not (stored_eq s.stored r.subscription)
  | some m ↦ not (text_eq m r.management_key_hash)
]

abbrev pub new_pending : Registration → Text → ℕ → ℕ → PendingSubscription
new_pending r challenge_hash now expires_at = record {
  management_key_hash = r.management_key_hash;
  delivery_key_hash = r.delivery_key_hash;
  challenge_hash = challenge_hash;
  stored = r.subscription;
  created_at = now;
  expires_at = expires_at;
}

-- The registration of a new delivery key: a row that waits for the challenge. The index on challenge
-- hashes refuses one that is taken.
unfoldable pub open_challenge :
    Registration → Text → ℕ → ℕ → ℕ → Database → Option (RegistrationStartOutcome × Database)
unfolding delete_pendings
open_challenge r challenge_hash now expires_at maximum_pending db =
    let db' = delete_pendings (rivals r.delivery_key_hash r.management_key_hash r.endpoint) db in
    if leb maximum_pending (length db'.pendings)
    then some (RegistrationStartOutcome.pending_capacity_exceeded, db')
    else if any (λ w. text_eq w.challenge_hash challenge_hash) db'.pendings
    then none
    else some (
      RegistrationStartOutcome.challenge_required,
      record db' { pendings = new_pending r challenge_hash now expires_at ∷ db'.pendings },
    )

unfoldable pub start_new :
    Registration
    → Text
    → (now expires_at maximum maximum_pending : ℕ) → Database
    → Option (RegistrationStartOutcome × Database)
unfolding open_challenge
start_new r challenge_hash now expires_at maximum maximum_pending db =
    if any (has_manager r.management_key_hash) db.subscriptions
    then some (RegistrationStartOutcome.management_conflict, db)
    else if leb maximum db.gateway.subscription_count
    then some (RegistrationStartOutcome.capacity_exceeded, db)
    else open_challenge r challenge_hash now expires_at maximum_pending db

abbrev pub as_active : Option Database → Option (RegistrationStartOutcome × Database)
as_active none = none
as_active (some db) = some (RegistrationStartOutcome.active, db)

-- `subetha_begin_push_subscription_registration`
unfoldable pub begin_registration :
    Registration
    → Text
    → (now expires_at maximum maximum_pending : ℕ) → Database
    → Option (RegistrationStartOutcome × Database)
unfolding start_new refresh_existing conflicts delete_pendings
begin_registration r challenge_hash now expires_at maximum maximum_pending db =
    let db' = delete_pendings (λ w. leb w.expires_at now) db in
    if is_revoked r.management_key_hash db'.revoked
    then some (RegistrationStartOutcome.revoked, db')
    else elim (find (has_key r.delivery_key_hash) db'.subscriptions) [
      | none ↦ start_new r challenge_hash now expires_at maximum maximum_pending db'
      | some s ↦
          if conflicts r s
          then some (RegistrationStartOutcome.management_conflict, db')
          else as_active (refresh_existing r now db')
    ]
