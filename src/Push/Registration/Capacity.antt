-- ===== src/Push/Registration/Capacity.antt =====
-- The number of subscriptions over any sequence of transactions.
use sub_etha.Prelude.{
  ℕ, ◌+◌, ◌≤◌, Text, text_eq, text_eq_refl, ◌&&◌, not, List, [], ◌∷◌, Option, none, some, find, leb,
  arith, is_some-find, if_intro, option_intro, length, length-filter_by, length-filter_by_lt,
  length-update_where, All, if◌then◌else◌, find-of_any,
}
use sub_etha.Push.Tables.{PushSubscription, Database, ConfirmationOutcome}
use sub_etha.Push.Delivery.{is_current}
use sub_etha.Push.Registration.{
  Registration, has_key, has_endpoint, has_manager, is_revoked, delete_subscriptions,
  delete_deliveries, delete_pendings, evict, reassign,
}
use sub_etha.Push.Registration.Begin.{begin_registration, refresh_existing, as_active}
use sub_etha.Push.Registration.Confirm.{
  confirm_subscription, cancel_pending_registration, admit, upsert, settle, is_taken, of_pending,
}
use sub_etha.Push.Registration.Delete.{delete_subscription, delete_subscription_if_current}
use sub_etha.Push.Registration.Integrity.{WellFormed}
use sub_etha.Push.Registration.History.{
  Transaction, begin, confirm, cancel, delete, delete_if_current, committed, perform, perform_all,
  perform-WellFormed,
}

abbrev size : Database → ℕ
size db = length db.subscriptions

-- A transaction leaves at most so many subscriptions.
abbrev Fits {ℓ} : {A : Type ℓ} → ℕ → Option (A × Database) → Type 0
Fits cap none = Unit
Fits cap (some r) = size r.1 ≤ cap

size-evict :
    (r : Registration) (db : Database)
    → size (evict r.delivery_key_hash r.endpoint db) + (if is_taken r db then 1 else 0) ≤ size db
unfolding evict delete_subscriptions delete_deliveries
size-evict r db =
    let p =
      λ (s : PushSubscription). has_endpoint r.endpoint s && not (has_key r.delivery_key_hash s) in
    option_intro (λ (d : Database). size d + (if is_taken r db then 1 else 0) ≤ size db)
      (find p db.subscriptions) _ _ (λ e. ground (arith, is_some-find p db.subscriptions))
      λ s e. ground (
        arith,
        text_eq_refl s.push_key_hash,
        find-of_any p (has_key s.push_key_hash) db.subscriptions s e,
        length-filter_by_lt (has_key s.push_key_hash) (λ t. not (has_key s.push_key_hash t))
            db.subscriptions (λ t k. ground arith),
      )

size-refresh_existing :
    (r : Registration) (now : ℕ) (db : Database)
    → Fits (size db) (as_active (refresh_existing r now db))
unfolding refresh_existing
size-refresh_existing r now db = ground (
  arith,
  size-evict r db,
  length-update_where (has_key r.delivery_key_hash) (reassign r now)
      (evict r.delivery_key_hash r.endpoint db).subscriptions,
)

size-begin :
    (r : Registration) (challenge : Text) (now expires_at maximum maximum_pending : ℕ)
    (db : Database)
    → Fits (size db) (begin_registration r challenge now expires_at maximum maximum_pending db)
unfolding begin_registration
size-begin r challenge now expires_at maximum maximum_pending db =
    ground (arith, size-refresh_existing r now (delete_pendings (λ w. leb w.expires_at now) db))

size-upsert :
    (r : Registration) (now bound : ℕ) (outcome : ConfirmationOutcome) (db : Database)
    → size db + 1 ≤ bound
    → Fits bound (settle outcome r.management_key_hash (upsert r now db))
unfolding upsert
size-upsert r now bound outcome db h =
    ground
      (arith, length-update_where (has_key r.delivery_key_hash) (reassign r now) db.subscriptions)

size-admit :
    (r : Registration) (now maximum cap : ℕ) (db : Database)
    → WellFormed db
    → size db ≤ cap
    → maximum ≤ cap
    → Fits cap (admit r now maximum db)
unfolding admit
size-admit r now maximum cap db h small limit =
    if_intro (Fits cap) (not (is_taken r db) && leb maximum db.gateway.subscription_count) _ _
      (λ _. small)
      λ room.
        size-upsert r now cap _ (evict r.delivery_key_hash r.endpoint db)
          (ground (arith, size-evict r db, h.counted))

size-confirm :
    (challenge : Text) (now maximum cap : ℕ) (db : Database)
    → WellFormed db
    → size db ≤ cap
    → maximum ≤ cap
    → Fits cap (confirm_subscription challenge now maximum db)
unfolding confirm_subscription
size-confirm challenge now maximum cap db h small limit =
    option_intro (Fits cap) (find (λ w. text_eq w.challenge_hash challenge) db.pendings) _ _
      (λ _. small)
      λ w _.
        if_intro (Fits cap) (leb w.expires_at now) _ _ (λ _. small)
          λ _.
            if_intro (Fits cap) (is_revoked w.management_key_hash db.revoked) _ _ (λ _. small)
              λ _. size-admit (of_pending w) now maximum cap db h small limit

size-delete :
    (manager : Text) (now maximum_revoked : ℕ) (db : Database)
    → Fits (size db) (delete_subscription manager now maximum_revoked db)
unfolding delete_subscription
size-delete manager now maximum_revoked db =
    ground (arith, length-filter_by (λ s. not (has_manager manager s)) db.subscriptions)

-- The limit that a confirmation is called with.
abbrev pub Limited : ℕ → Transaction → Type 0
Limited cap (confirm challenge now maximum) = maximum ≤ cap
Limited cap t = Unit

size-committed {ℓ} :
    {A : Type ℓ} (cap : ℕ) (db : Database) (o : Option (A × Database))
    → size db ≤ cap
    → Fits cap o
    → size (committed db o) ≤ cap
size-committed cap db none h k = h
size-committed cap db (some r) h k = k

Fits-mono {ℓ} : {A : Type ℓ} (a b : ℕ) (o : Option (A × Database)) → a ≤ b → Fits a o → Fits b o
Fits-mono a b none h k = tt
Fits-mono a b (some r) h k = omega arith

size-perform :
    (cap : ℕ) (t : Transaction) (db : Database)
    → WellFormed db
    → Limited cap t
    → size db ≤ cap
    → size (perform t db) ≤ cap
unfolding perform
size-perform cap (begin r challenge now expires_at maximum maximum_pending) db h l small =
    size-committed cap db _ small (
      Fits-mono (size db) cap _ small
        (size-begin r challenge now expires_at maximum maximum_pending db))
size-perform cap (confirm challenge now maximum) db h l small =
    size-committed cap db _ small (size-confirm challenge now maximum cap db h small l)
size-perform cap (cancel challenge) db h l small = unfold cancel_pending_registration in small
size-perform cap (delete manager now maximum_revoked) db h l small =
    size-committed cap db _ small
      (Fits-mono (size db) cap _ small (size-delete manager now maximum_revoked db))
size-perform cap (delete_if_current snapshot) db h l small =
    unfold delete_subscription_if_current in
    ground (arith, length-filter_by (λ s. not (is_current snapshot s)) db.subscriptions)

-- From well-formed tables with at most `cap` subscriptions, any sequence of registrations,
-- confirmations, cancellations and deletions in which every confirmation is called with a limit of at
-- most `cap` leaves at most `cap` subscriptions.
pub perform_all-capacity :
    (cap : ℕ) (ts : List Transaction) (db : Database)
    → WellFormed db
    → All (Limited cap) ts
    → length db.subscriptions ≤ cap
    → length (perform_all ts db).subscriptions ≤ cap
unfolding perform_all
perform_all-capacity cap [] db h l small = small
perform_all-capacity cap (t ∷ ts) db h l small =
    perform_all-capacity cap ts (perform t db) (perform-WellFormed t db h) l.1
      (size-perform cap t db h l.0 small)
