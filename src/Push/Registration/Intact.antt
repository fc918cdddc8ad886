-- ===== src/Push/Registration/Intact.antt =====
-- Every unique column of the tables of subscriptions and of pending registrations, after any sequence of
-- the repository's transactions.
use sub_etha.Prelude.{List, [], ◌∷◌, Option, none, some}
use sub_etha.Push.Tables.{Database}
use sub_etha.Push.Registration.Integrity.{WellFormed}
use sub_etha.Push.Registration.Pendings.{HasUniquePending, LeavesPending}
use sub_etha.Push.Registration.Pendings.Kept.{
  begin_registration-LeavesPending, confirm_subscription-LeavesPending,
  cancel_pending_registration-HasUniquePending, delete_subscription-LeavesPending,
  delete_subscription_if_current-HasUniquePending,
}
use sub_etha.Push.Registration.History.{
  Transaction, begin, confirm, cancel, delete, delete_if_current, committed, perform, perform_all,
  perform_all-WellFormed,
}

committed-HasUniquePending {ℓ} :
    {A : Type ℓ} (db : Database) (o : Option (A × Database))
    → HasUniquePending db
    → LeavesPending o
    → HasUniquePending (committed db o)
committed-HasUniquePending db none h k = h
committed-HasUniquePending db (some r) h k = k

perform-HasUniquePending :
    (t : Transaction) (db : Database) → HasUniquePending db → HasUniquePending (perform t db)
unfolding perform
perform-HasUniquePending (begin r challenge now expires_at maximum maximum_pending) db h =
    committed-HasUniquePending db _ h
      (begin_registration-LeavesPending r challenge now expires_at maximum maximum_pending db h)
perform-HasUniquePending (confirm challenge now maximum) db h =
    committed-HasUniquePending db _ h
      (confirm_subscription-LeavesPending challenge now maximum db h)
perform-HasUniquePending (cancel challenge) db h =
    cancel_pending_registration-HasUniquePending challenge db h
perform-HasUniquePending (delete manager now maximum_revoked) db h =
    committed-HasUniquePending db _ h
      (delete_subscription-LeavesPending manager now maximum_revoked db h)
perform-HasUniquePending (delete_if_current snapshot) db h =
    delete_subscription_if_current-HasUniquePending snapshot db h

perform_all-HasUniquePending :
    (ts : List Transaction) (db : Database)
    → HasUniquePending db
    → HasUniquePending (perform_all ts db)
unfolding perform_all
perform_all-HasUniquePending [] db h = h
perform_all-HasUniquePending (t ∷ ts) db h =
    perform_all-HasUniquePending ts (perform t db) (perform-HasUniquePending t db h)

abbrev pub IsIntact : Database → Type 0
IsIntact db = WellFormed db × HasUniquePending db

-- After any sequence of registrations, confirmations, cancellations and deletions on tables of which the
-- same holds, failing ones included: no two subscriptions share a delivery key, an endpoint or a
-- management key, no two pending registrations share a management key, a delivery key, a challenge or an
-- endpoint, the gateway's count is the number of subscriptions, no subscription is managed by a revoked
-- key, and no pending registration names a management key that manages a subscription.
pub perform_all-IsIntact :
    (ts : List Transaction) (db : Database) → IsIntact db → IsIntact (perform_all ts db)
perform_all-IsIntact ts db h =
    (perform_all-WellFormed ts db h.0, perform_all-HasUniquePending ts db h.1)
