-- ===== src/Push/Registration/Transactions.antt =====
-- The tables after registrations, cancellations and deletions of a current row.
use sub_etha.Prelude.{
  ℕ, ◌≡◌, refl, Text, text_eq, Bool, false, Option, none, some, any, find, length, leb, arith,
  if_intro, option_intro,
}
use sub_etha.Push.Tables.{PendingSubscription, PushSubscriptionSnapshot, Database}
use sub_etha.Push.Delivery.{is_current}
use sub_etha.Push.Registration.{
  Registration, has_key, has_manager, is_revoked, delete_subscriptions, delete_deliveries,
  delete_pendings, clashes, rivals, evict,
}
use sub_etha.Push.Registration.Begin.{
  refresh_existing, open_challenge, start_new, begin_registration, conflicts, as_active,
}
use sub_etha.Push.Registration.Confirm.{cancel_pending_registration}
use sub_etha.Push.Registration.Delete.{delete_subscription_if_current}
use sub_etha.Push.Registration.Integrity.{
  WellFormed, delete_subscriptions-WellFormed, delete_pendings-WellFormed,
  delete_deliveries-WellFormed, evict-WellFormed, reassigned-WellFormed,
}

-- What a transaction leaves, if it does not fail, is well-formed.
abbrev pub Leaves {ℓ} : {A : Type ℓ} → Option (A × Database) → Type 0
Leaves none = Unit
Leaves (some r) = WellFormed r.1

pub evict-revoked :
    (key endpoint : Text) (db : Database) → (evict key endpoint db).revoked ≡ db.revoked
unfolding evict delete_subscriptions delete_deliveries
evict-revoked key endpoint db = ground arith

refresh_existing-Leaves :
    (r : Registration) (now : ℕ) (db : Database)
    → WellFormed db
    → is_revoked r.management_key_hash db.revoked ≡ false
    → Leaves (as_active (refresh_existing r now db))
unfolding refresh_existing
refresh_existing-Leaves r now db h allowed =
    if_intro (λ (o : Option Database). Leaves (as_active o))
      (any (clashes r.delivery_key_hash r.management_key_hash r.endpoint)
        (evict r.delivery_key_hash r.endpoint db).subscriptions)
      _ _ (λ _. tt)
      (λ free.
        reassigned-WellFormed r now (evict r.delivery_key_hash r.endpoint db)
          (evict-WellFormed r.delivery_key_hash r.endpoint db h) (rw evict-revoked allowed) free
          (rivals r.delivery_key_hash r.management_key_hash r.endpoint) (λ w k. ground arith))

pub delete_pendings-subscriptions :
    (t : PendingSubscription → Bool) (db : Database)
    → (delete_pendings t db).subscriptions ≡ db.subscriptions
unfolding delete_pendings
delete_pendings-subscriptions t db = refl

start_new-Leaves :
    (r : Registration) (challenge : Text) (now expires_at maximum maximum_pending : ℕ)
    (db : Database)
    → WellFormed db
    → Leaves (start_new r challenge now expires_at maximum maximum_pending db)
unfolding start_new open_challenge
start_new-Leaves r challenge now expires_at maximum maximum_pending db h =
    if_intro Leaves (any (has_manager r.management_key_hash) db.subscriptions) _ _ (λ _. h)
      λ unmanaged.
        if_intro Leaves (leb maximum db.gateway.subscription_count) _ _ (λ _. h)
          λ _.
            let t = rivals r.delivery_key_hash r.management_key_hash r.endpoint in
            let cleared = delete_pendings-WellFormed t db h in
            if_intro Leaves (leb maximum_pending (length (delete_pendings t db).pendings)) _ _
              (λ _. cleared)
              λ _.
                if_intro Leaves
                  (any (λ w. text_eq w.challenge_hash challenge) (delete_pendings t db).pendings) _
                  _ (λ _. tt)
                  λ _. record {
                    rows = cleared.rows;
                    counted = cleared.counted;
                    unrevoked = cleared.unrevoked;
                    waiting = ground (arith, cleared.waiting, delete_pendings-subscriptions t db);
                  }

-- A registration leaves the tables well-formed on every outcome.
pub begin_registration-WellFormed :
    (r : Registration) (challenge : Text) (now expires_at maximum maximum_pending : ℕ)
    (db : Database)
    → WellFormed db
    → Leaves (begin_registration r challenge now expires_at maximum maximum_pending db)
unfolding begin_registration
begin_registration-WellFormed r challenge now expires_at maximum maximum_pending db h =
    let db' = delete_pendings (λ w. leb w.expires_at now) db in
    let h' = delete_pendings-WellFormed (λ w. leb w.expires_at now) db h in
    if_intro Leaves (is_revoked r.management_key_hash db'.revoked) _ _ (λ _. h')
      λ allowed.
        option_intro Leaves (find (has_key r.delivery_key_hash) db'.subscriptions) _ _
          (λ _. start_new-Leaves r challenge now expires_at maximum maximum_pending db' h')
          λ s _.
            if_intro Leaves (conflicts r s) _ _ (λ _. h')
              λ _. refresh_existing-Leaves r now db' h' allowed

pub cancel_pending_registration-WellFormed :
    (challenge : Text) (db : Database)
    → WellFormed db
    → WellFormed (cancel_pending_registration challenge db)
unfolding cancel_pending_registration
cancel_pending_registration-WellFormed challenge db h =
    delete_pendings-WellFormed (λ w. text_eq w.challenge_hash challenge) db h

pub delete_subscription_if_current-WellFormed :
    (snapshot : PushSubscriptionSnapshot) (db : Database)
    → WellFormed db
    → WellFormed (delete_subscription_if_current snapshot db).1
unfolding delete_subscription_if_current
delete_subscription_if_current-WellFormed snapshot db h =
    if_intro (λ (o : Bool × Database). WellFormed o.1) (any (is_current snapshot) db.subscriptions)
      _ _
      (λ _.
        delete_subscriptions-WellFormed (is_current snapshot)
          (delete_deliveries snapshot.delivery_key_hash db)
          (delete_deliveries-WellFormed snapshot.delivery_key_hash db h))
      (λ _. h)
