-- ===== src/Push/Registration/Confirm.antt =====
-- `confirmSubscription` and `cancelPendingRegistration` of lib/push-repository.ts, with the SQL
-- function `subetha_confirm_push_subscription` of drizzle/0002.
use sub_etha.Prelude.{
  ℕ, ◌+◌, Text, Bool, ◌&&◌, not, ◌∷◌, Option, none, some, leb, text_eq, any, find, filter_by,
  update_where, if◌then◌else◌,
}
use sub_etha.Push.Tables.{PushSubscription, PendingSubscription, Database, ConfirmationOutcome}
use sub_etha.Push.Registration.{
  has_key, has_endpoint, is_revoked, delete_pendings, clashes, manages, evict, Registration,
  reassign,
}

abbrev pub of_pending : PendingSubscription → Registration
of_pending w = record {
  delivery_key_hash = w.delivery_key_hash;
  management_key_hash = w.management_key_hash;
  subscription = w.stored;
}

abbrev pub new_subscription : Registration → ℕ → PushSubscription
new_subscription r now = record {
  push_key_hash = r.delivery_key_hash;
  management_key_hash = some r.management_key_hash;
  stored = r.subscription;
  created_at = now;
  updated_at = now;
  last_success_at = none;
  rate_window_start = now;
  rate_count = 0;
}

-- `INSERT … ON CONFLICT ("push_key_hash") DO UPDATE`, with the trigger on an inserted row.
unfoldable pub upsert : Registration → ℕ → Database → Option Database
unfolding clashes
upsert r now db =
    if any (clashes r.delivery_key_hash r.management_key_hash r.endpoint) db.subscriptions
    then none
    else if any (has_key r.delivery_key_hash) db.subscriptions
    then some (record db {
      subscriptions = update_where (has_key r.delivery_key_hash) (reassign r now) db.subscriptions;
    })
    else some (record db {
      subscriptions = new_subscription r now ∷ db.subscriptions;
      gateway = record db.gateway { subscription_count = db.gateway.subscription_count + 1 };
    })

abbrev pub settle :
    ConfirmationOutcome → Text → Option Database → Option (ConfirmationOutcome × Database)
settle outcome manager none = none
settle outcome manager (some db) =
    some (outcome, record db { pendings = filter_by (λ w. not (manages manager w)) db.pendings })

-- The endpoint belongs to another row: the index on endpoints leaves at most one row to look at.
abbrev pub is_taken : Registration → Database → Bool
is_taken r db =
    any (λ s. has_endpoint r.endpoint s && not (has_key r.delivery_key_hash s)) db.subscriptions

-- The confirmation of a challenge that stands.
unfoldable pub admit :
    Registration → (now maximum : ℕ) → Database → Option (ConfirmationOutcome × Database)
unfolding evict upsert
admit r now maximum db =
    let taken = is_taken r db in
    if not taken && leb maximum db.gateway.subscription_count
    then some (ConfirmationOutcome.capacity_exceeded, db)
    else settle (if taken then ConfirmationOutcome.reassigned else ConfirmationOutcome.created)
        r.management_key_hash (upsert r now (evict r.delivery_key_hash r.endpoint db))

-- `subetha_confirm_push_subscription`
unfoldable pub confirm_subscription :
    Text → (now maximum : ℕ) → Database → Option (ConfirmationOutcome × Database)
unfolding admit delete_pendings
confirm_subscription challenge_hash now maximum db =
    elim (find (λ w. text_eq w.challenge_hash challenge_hash) db.pendings) [
      | none ↦ some (ConfirmationOutcome.invalid_challenge, db)
      | some w ↦
          if leb w.expires_at now
          then some (
            ConfirmationOutcome.expired_challenge,
            delete_pendings (manages w.management_key_hash) db,
          )
          else if is_revoked w.management_key_hash db.revoked
          then some
              (ConfirmationOutcome.revoked, delete_pendings (manages w.management_key_hash) db)
          else admit (of_pending w) now maximum db
    ]

unfoldable pub cancel_pending_registration : Text → Database → Database
unfolding delete_pendings
cancel_pending_registration challenge_hash db =
    delete_pendings (λ w. text_eq w.challenge_hash challenge_hash) db
