-- ===== src/Push/Registration/Pendings/Kept.antt =====
-- The pending registrations after each transaction of `sub_etha.Push.Registration`.
use sub_etha.Prelude.{
  ℕ, ◌≡◌, Text, text_eq, Bool, not, ◌&&◌, Option, some, any, find, filter_by, length, leb, ◌==◌,
  arith, if_intro, option_intro,
}
use sub_etha.Push.Tables.{PushSubscriptionSnapshot, Database, ConfirmationOutcome, DeletionOutcome}
use sub_etha.Push.Delivery.{is_current}
use sub_etha.Push.Registration.{
  Registration, has_key, has_manager, is_revoked, delete_subscriptions, delete_deliveries,
  delete_pendings, clashes, rivals, manages, evict,
}
use sub_etha.Push.Registration.Begin.{
  refresh_existing, open_challenge, start_new, begin_registration, conflicts, as_active,
}
use sub_etha.Push.Registration.Confirm.{
  upsert, of_pending, settle, is_taken, admit, confirm_subscription, cancel_pending_registration,
}
use sub_etha.Push.Registration.Delete.{
  revoke, revocation_limit, remove_managed, delete_subscription, delete_subscription_if_current,
}
use sub_etha.Push.Registration.Pendings.{
  HasUniquePending, LeavesPending, IsUniquePending-filter_by, delete_pendings-HasUniquePending,
  evict-HasUniquePending, no_rivals, IsUniquePending-new,
}

refresh_existing-LeavesPending :
    (r : Registration) (now : ℕ) (db : Database)
    → HasUniquePending db
    → LeavesPending (as_active (refresh_existing r now db))
unfolding refresh_existing delete_pendings
refresh_existing-LeavesPending r now db h =
    let db' = evict r.delivery_key_hash r.endpoint db in
    if_intro (λ (o : Option Database). LeavesPending (as_active o))
      (any (clashes r.delivery_key_hash r.management_key_hash r.endpoint) db'.subscriptions) _ _
      (λ _. tt)
      (λ _.
        IsUniquePending-filter_by _ db'.pendings
          (evict-HasUniquePending r.delivery_key_hash r.endpoint db h))

start_new-LeavesPending :
    (r : Registration) (challenge : Text) (now expires_at maximum maximum_pending : ℕ)
    (db : Database)
    → HasUniquePending db
    → LeavesPending (start_new r challenge now expires_at maximum maximum_pending db)
unfolding start_new open_challenge delete_pendings
start_new-LeavesPending r challenge now expires_at maximum maximum_pending db h =
    let rival = rivals r.delivery_key_hash r.management_key_hash r.endpoint in
    let left = filter_by (λ w. not (rival w)) db.pendings in
    let cleared = IsUniquePending-filter_by (λ w. not (rival w)) db.pendings h in
    if_intro LeavesPending (any (has_manager r.management_key_hash) db.subscriptions) _ _ (λ _. h)
      λ _.
        if_intro LeavesPending (leb maximum db.gateway.subscription_count) _ _ (λ _. h)
          λ _.
            if_intro LeavesPending (leb maximum_pending (length left)) _ _ (λ _. cleared)
              λ _.
                if_intro LeavesPending (any (λ w. text_eq w.challenge_hash challenge) left) _ _
                  (λ _. tt)
                  λ fresh.
                    IsUniquePending-new r challenge now expires_at left
                      (no_rivals rival db.pendings) fresh cleared

pub begin_registration-LeavesPending :
    (r : Registration) (challenge : Text) (now expires_at maximum maximum_pending : ℕ)
    (db : Database)
    → HasUniquePending db
    → LeavesPending (begin_registration r challenge now expires_at maximum maximum_pending db)
unfolding begin_registration
begin_registration-LeavesPending r challenge now expires_at maximum maximum_pending db h =
    let db' = delete_pendings (λ w. leb w.expires_at now) db in
    let h' = delete_pendings-HasUniquePending (λ w. leb w.expires_at now) db h in
    if_intro LeavesPending (is_revoked r.management_key_hash db'.revoked) _ _ (λ _. h')
      λ _.
        option_intro LeavesPending (find (has_key r.delivery_key_hash) db'.subscriptions) _ _
          (λ _. start_new-LeavesPending r challenge now expires_at maximum maximum_pending db' h')
          λ s _.
            if_intro LeavesPending (conflicts r s) _ _ (λ _. h')
              λ _. refresh_existing-LeavesPending r now db' h'

upsert-LeavesPending :
    (r : Registration) (now : ℕ) (outcome : ConfirmationOutcome) (db : Database)
    → HasUniquePending db
    → LeavesPending (settle outcome r.management_key_hash (upsert r now db))
unfolding upsert
upsert-LeavesPending r now outcome db h =
    let left =
      IsUniquePending-filter_by (λ w. not (manages r.management_key_hash w)) db.pendings h in
    if_intro (λ (o : Option Database). LeavesPending (settle outcome r.management_key_hash o))
      (any (clashes r.delivery_key_hash r.management_key_hash r.endpoint) db.subscriptions) _ _
      (λ _. tt)
      λ _.
        if_intro (λ (o : Option Database). LeavesPending (settle outcome r.management_key_hash o))
          (any (has_key r.delivery_key_hash) db.subscriptions) _ _ (λ _. left) (λ _. left)

pub confirm_subscription-LeavesPending :
    (challenge : Text) (now maximum : ℕ) (db : Database)
    → HasUniquePending db
    → LeavesPending (confirm_subscription challenge now maximum db)
unfolding confirm_subscription admit
confirm_subscription-LeavesPending challenge now maximum db h =
    option_intro LeavesPending (find (λ w. text_eq w.challenge_hash challenge) db.pendings) _ _
      (λ _. h)
      λ w _.
        let left = delete_pendings-HasUniquePending (manages w.management_key_hash) db h in
        if_intro LeavesPending (leb w.expires_at now) _ _ (λ _. left)
          λ _.
            if_intro LeavesPending (is_revoked w.management_key_hash db.revoked) _ _ (λ _. left)
              λ _.
                if_intro LeavesPending
                  (not (is_taken (of_pending w) db) && leb maximum db.gateway.subscription_count) _
                  _ (λ _. h)
                  λ _.
                    upsert-LeavesPending (of_pending w) now _
                      (evict w.delivery_key_hash w.endpoint db)
                      (evict-HasUniquePending w.delivery_key_hash w.endpoint db h)

pub cancel_pending_registration-HasUniquePending :
    (challenge : Text) (db : Database)
    → HasUniquePending db
    → HasUniquePending (cancel_pending_registration challenge db)
unfolding cancel_pending_registration
cancel_pending_registration-HasUniquePending challenge db h =
    delete_pendings-HasUniquePending (λ w. text_eq w.challenge_hash challenge) db h

pub delete_subscription_if_current-HasUniquePending :
    (snapshot : PushSubscriptionSnapshot) (db : Database)
    → HasUniquePending db
    → HasUniquePending (delete_subscription_if_current snapshot db).1
unfolding delete_subscription_if_current delete_subscriptions delete_deliveries
delete_subscription_if_current-HasUniquePending snapshot db h =
    if_intro (λ (o : Bool × Database). HasUniquePending o.1)
      (any (is_current snapshot) db.subscriptions) _ _ (λ _. h) (λ _. h)

remove_managed-HasUniquePending :
    (manager : Text) (db : Database)
    → HasUniquePending db
    → HasUniquePending (remove_managed manager db).1
unfolding remove_managed delete_subscriptions delete_deliveries delete_pendings
remove_managed-HasUniquePending manager db h =
    let left = IsUniquePending-filter_by (λ w. not (manages manager w)) db.pendings h in
    option_intro (λ (r : DeletionOutcome × Database). HasUniquePending r.1)
      (find (has_manager manager) db.subscriptions) _ _
      (λ _.
        if_intro (λ (r : DeletionOutcome × Database). HasUniquePending r.1)
          (any (manages manager) db.pendings) _ _ (λ _. left) (λ _. h))
      (λ s _. left)

revoke-pendings :
    (manager : Text) (now : ℕ) (db : Database) → (revoke manager now db).pendings ≡ db.pendings
unfolding revoke
revoke-pendings manager now db = ground arith

pub delete_subscription-LeavesPending :
    (manager : Text) (now maximum_revoked : ℕ) (db : Database)
    → HasUniquePending db
    → LeavesPending (delete_subscription manager now maximum_revoked db)
unfolding delete_subscription
delete_subscription-LeavesPending manager now maximum_revoked db h =
    let limit = revocation_limit maximum_revoked db in
    let db' : Database = record db {
      gateway = record db.gateway { revoked_management_key_limit = some limit };
    } in
    if_intro LeavesPending (maximum_revoked == 0) _ _ (λ _. tt)
      λ _.
        if_intro LeavesPending
          (not (is_revoked manager db.revoked) && leb limit db.gateway.revoked_management_key_count)
          _ _ (λ _. h)
          λ _.
            remove_managed-HasUniquePending manager (revoke manager now db') (rw revoke-pendings h)
