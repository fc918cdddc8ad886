-- ===== src/Push/Registration/History.antt =====
-- Any sequence of the repository's transactions on subscriptions.
use sub_etha.Prelude.{
  ℕ, ◌≡◌, ◌≢◌, Text, text_eq_iff, text_eq_refl, true, false, List, [], ◌∷◌, Option, none, some, any,
  arith, any-implied,
}
use sub_etha.Push.Tables.{
  PushSubscriptionSnapshot, RevokedManagementKey, Database, DeletionOutcome,
  RegistrationStartOutcome,
}
use sub_etha.Push.Registration.{
  Registration, manager_eq, has_manager, is_revoked, delete_subscriptions, delete_deliveries,
}
use sub_etha.Push.Registration.Begin.{begin_registration}
use sub_etha.Push.Registration.Confirm.{confirm_subscription, cancel_pending_registration}
use sub_etha.Push.Registration.Delete.{delete_subscription, delete_subscription_if_current}
use sub_etha.Push.Registration.Integrity.{WellFormed, names_revoked, revoked_row}
use sub_etha.Push.Registration.Transactions.{
  Leaves, begin_registration-WellFormed, cancel_pending_registration-WellFormed,
  delete_subscription_if_current-WellFormed,
}
use sub_etha.Push.Registration.Confirmation.{confirm_subscription-WellFormed}
use sub_etha.Push.Registration.Revocation.{delete_subscription-WellFormed}

pub data Transaction : Type 0 where
  begin : Registration → Text → (now expires_at maximum maximum_pending : ℕ) → Transaction
  confirm : Text → (now maximum : ℕ) → Transaction
  cancel : Text → Transaction
  delete : Text → (now maximum_revoked : ℕ) → Transaction
  delete_if_current : PushSubscriptionSnapshot → Transaction

-- A transaction that fails is rolled back.
abbrev pub committed {ℓ} : {A : Type ℓ} → Database → Option (A × Database) → Database
committed db none = db
committed db (some r) = r.1

unfoldable pub perform : Transaction → Database → Database
perform (begin r challenge now expires_at maximum maximum_pending) db =
    committed db (begin_registration r challenge now expires_at maximum maximum_pending db)
perform (confirm challenge now maximum) db =
    committed db (confirm_subscription challenge now maximum db)
perform (cancel challenge) db = cancel_pending_registration challenge db
perform (delete manager now maximum_revoked) db =
    committed db (delete_subscription manager now maximum_revoked db)
perform (delete_if_current snapshot) db = (delete_subscription_if_current snapshot db).1

unfoldable pub perform_all : List Transaction → Database → Database
perform_all [] db = db
perform_all (t ∷ ts) db = perform_all ts (perform t db)

committed-WellFormed {ℓ} :
    {A : Type ℓ} (db : Database) (o : Option (A × Database))
    → WellFormed db
    → Leaves o
    → WellFormed (committed db o)
committed-WellFormed db none h k = h
committed-WellFormed db (some r) h k = k

pub perform-WellFormed :
    (t : Transaction) (db : Database) → WellFormed db → WellFormed (perform t db)
unfolding perform
perform-WellFormed (begin r challenge now expires_at maximum maximum_pending) db h =
    committed-WellFormed db _ h
      (begin_registration-WellFormed r challenge now expires_at maximum maximum_pending db h)
perform-WellFormed (confirm challenge now maximum) db h =
    committed-WellFormed db _ h (confirm_subscription-WellFormed challenge now maximum db h)
perform-WellFormed (cancel challenge) db h = cancel_pending_registration-WellFormed challenge db h
perform-WellFormed (delete manager now maximum_revoked) db h =
    committed-WellFormed db _ h (delete_subscription-WellFormed manager now maximum_revoked db h)
perform-WellFormed (delete_if_current snapshot) db h =
    delete_subscription_if_current-WellFormed snapshot db h

-- Any sequence keeps the tables well-formed.
pub perform_all-WellFormed :
    (ts : List Transaction) (db : Database) → WellFormed db → WellFormed (perform_all ts db)
unfolding perform_all
perform_all-WellFormed [] db h = h
perform_all-WellFormed (t ∷ ts) db h =
    perform_all-WellFormed ts (perform t db) (perform-WellFormed t db h)

-- A tombstone stays.
perform-is_revoked :
    (t : Transaction) (manager : Text) (db : Database)
    → is_revoked manager db.revoked ≡ true
    → is_revoked manager (perform t db).revoked ≡ true
unfolding perform
perform-is_revoked (begin r challenge now expires_at maximum maximum_pending) manager db h =
    unfold begin_registration delete_subscriptions delete_deliveries in ground arith
perform-is_revoked (confirm challenge now maximum) manager db h =
    unfold confirm_subscription delete_subscriptions delete_deliveries in ground arith
perform-is_revoked (cancel challenge) manager db h = unfold cancel_pending_registration in h
perform-is_revoked (delete m now maximum_revoked) manager db h =
    unfold delete_subscription in ground arith
perform-is_revoked (delete_if_current snapshot) manager db h =
    unfold delete_subscription_if_current in ground arith

perform_all-is_revoked :
    (ts : List Transaction) (manager : Text) (db : Database)
    → is_revoked manager db.revoked ≡ true
    → is_revoked manager (perform_all ts db).revoked ≡ true
unfolding perform_all
perform_all-is_revoked [] manager db h = h
perform_all-is_revoked (t ∷ ts) manager db h =
    perform_all-is_revoked ts manager (perform t db) (perform-is_revoked t manager db h)

-- The database after a deletion that was not refused has the tombstone.
delete_subscription-is_revoked :
    (manager : Text) (now maximum_revoked : ℕ) (db : Database) (r : DeletionOutcome × Database)
    → delete_subscription manager now maximum_revoked db ≡ some r
    → r.0 ≢ DeletionOutcome.capacity_exceeded
    → is_revoked manager r.1.revoked ≡ true
unfolding delete_subscription
delete_subscription-is_revoked manager now maximum_revoked db r e ne =
    ground (arith, text_eq_refl manager)

names_revoked-manager :
    (manager : Text) (rs : List RevokedManagementKey) (m : Option Text)
    → is_revoked manager rs ≡ true
    → manager_eq m (some manager) ≡ true
    → names_revoked rs m ≡ true
unfolding names_revoked manager_eq
names_revoked-manager manager rs none h k = cc
names_revoked-manager manager rs (some m) h k =
    let e : m ≡ manager = (text_eq_iff m manager).0 k in rw e h

abbrev pub start_answer :
    Option (RegistrationStartOutcome × Database) → Option RegistrationStartOutcome
start_answer none = none
start_answer (some r) = some r.0

begin_registration-revoked :
    (r : Registration) (challenge : Text) (now expires_at maximum maximum_pending : ℕ)
    (db : Database)
    → is_revoked r.management_key_hash db.revoked ≡ true
    → start_answer (begin_registration r challenge now expires_at maximum maximum_pending db)
      ≡ some RegistrationStartOutcome.revoked
unfolding begin_registration
begin_registration-revoked r challenge now expires_at maximum maximum_pending db h = ground arith

-- Once `deleteSubscription` on well-formed tables has answered other than `capacity_exceeded` for a
-- management key, then after any sequence of further registrations, confirmations, cancellations and
-- deletions, failing ones included, no subscription is managed by the key, and a registration with the
-- key is answered `revoked`.
pub revocation_is_final :
    (reg : Registration) (now maximum_revoked : ℕ) (db : Database) (r : DeletionOutcome × Database)
    (ts : List Transaction) (challenge : Text) (now' expires_at maximum maximum_pending : ℕ)
    → WellFormed db
    → delete_subscription reg.management_key_hash now maximum_revoked db ≡ some r
    → r.0 ≢ DeletionOutcome.capacity_exceeded
    → (any (has_manager reg.management_key_hash) (perform_all ts r.1).subscriptions ≡ false)
      × (start_answer (
            begin_registration reg challenge now' expires_at maximum maximum_pending
              (perform_all ts r.1))
          ≡ some RegistrationStartOutcome.revoked)
revocation_is_final reg now maximum_revoked db r ts challenge now' expires_at maximum
      maximum_pending h e ne =
    let manager = reg.management_key_hash in
    let db' = perform_all ts r.1 in
    let tombstone =
      perform_all-is_revoked ts manager r.1
        (delete_subscription-is_revoked manager now maximum_revoked db r e ne) in
    let left : WellFormed r.1 =
      rw e at (delete_subscription-WellFormed manager now maximum_revoked db h) in
    (
      any-implied (has_manager manager) (revoked_row db'.revoked) db'.subscriptions
          (λ s. names_revoked-manager manager db'.revoked s.management_key_hash tombstone)
          (perform_all-WellFormed ts r.1 left).unrevoked,
      begin_registration-revoked reg challenge now' expires_at maximum maximum_pending db'
          tombstone,
    )
