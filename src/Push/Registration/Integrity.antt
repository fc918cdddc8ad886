-- ===== src/Push/Registration/Integrity.antt =====
-- What holds of the tables between two transactions, and the steps of `sub_etha.Push.Registration`.
use sub_etha.Prelude.{
  ℕ, ◌+◌, ◌≡◌, refl, sym, ◌∙◌, Text, text_eq, text_eq_comm, Bool, true, false, ◌&&◌, not, List, [],
  ◌∷◌, Option, none, some, any, find, filter_by, update_where, length, arith, any-implied,
  any-filter_by_le, any-update_away, length-filter_not, length-update_where,
}
use sub_etha.Push.Tables.{PushSubscription, PendingSubscription, RevokedManagementKey, Database}
use sub_etha.Push.Registration.{
  Registration, manager_eq, has_key, has_endpoint, has_manager, is_revoked, delete_subscriptions,
  delete_deliveries, delete_pendings, clashes, manages, evict, reassign,
}
use sub_etha.Push.Registration.Confirm.{new_subscription}
use sub_etha.Push.Registration.Rows.{IsUnique, IsUnique-filter_by, IsUnique-reassign, IsUnique-new}

unfoldable pub names_revoked : List RevokedManagementKey → Option Text → Bool
names_revoked rs none = false
names_revoked rs (some m) = is_revoked m rs

abbrev pub revoked_row : List RevokedManagementKey → PushSubscription → Bool
revoked_row rs s = names_revoked rs s.management_key_hash

-- A pending row's manager already manages a subscription.
abbrev pub is_settled : List PushSubscription → PendingSubscription → Bool
is_settled subs w = any (has_manager w.management_key_hash) subs

pub record WellFormed (db : Database) : Type 0 where
  pub rows : IsUnique db.subscriptions
  pub counted : db.gateway.subscription_count ≡ length db.subscriptions
  pub unrevoked : any (revoked_row db.revoked) db.subscriptions ≡ false
  pub waiting : any (is_settled db.subscriptions) db.pendings ≡ false

pub delete_subscriptions-WellFormed :
    (p : PushSubscription → Bool) (db : Database)
    → WellFormed db
    → WellFormed (delete_subscriptions p db)
unfolding delete_subscriptions
delete_subscriptions-WellFormed p db h = record {
  rows = IsUnique-filter_by (λ s. not (p s)) db.subscriptions h.rows;
  counted = omega (arith, h.counted, length-filter_not p db.subscriptions);
  unrevoked =
      any-filter_by_le (revoked_row db.revoked) (λ s. not (p s)) db.subscriptions h.unrevoked;
  waiting =
      any-implied (is_settled (filter_by (λ s. not (p s)) db.subscriptions))
        (is_settled db.subscriptions) db.pendings
        (λ w k. ground (
          arith,
          any-filter_by_le (has_manager w.management_key_hash) (λ s. not (p s)) db.subscriptions,
        ))
        h.waiting;
}

pub delete_pendings-WellFormed :
    (p : PendingSubscription → Bool) (db : Database)
    → WellFormed db
    → WellFormed (delete_pendings p db)
unfolding delete_pendings
delete_pendings-WellFormed p db h = record {
  rows = h.rows;
  counted = h.counted;
  unrevoked = h.unrevoked;
  waiting = any-filter_by_le (is_settled db.subscriptions) (λ w. not (p w)) db.pendings h.waiting;
}

pub delete_deliveries-WellFormed :
    (key : Text) (db : Database) → WellFormed db → WellFormed (delete_deliveries key db)
unfolding delete_deliveries
delete_deliveries-WellFormed key db h = record {
  rows = h.rows;
  counted = h.counted;
  unrevoked = h.unrevoked;
  waiting = h.waiting;
}

pub evict-WellFormed :
    (key endpoint : Text) (db : Database) → WellFormed db → WellFormed (evict key endpoint db)
unfolding evict
evict-WellFormed key endpoint db h =
    elim (find (λ s. has_endpoint endpoint s && not (has_key key s)) db.subscriptions)
      as (λ o. WellFormed (elim o [
        | none ↦ db
        | some s ↦
            delete_subscriptions (has_key s.push_key_hash) (delete_deliveries s.push_key_hash db)
      ])) [
        | none ↦ h
        | some s ↦
            delete_subscriptions-WellFormed (has_key s.push_key_hash)
              (delete_deliveries s.push_key_hash db)
              (delete_deliveries-WellFormed s.push_key_hash db h)
      ]

-- The rows with the one of `r` written, and what is then left to wait.
module _ (r : Registration) (now : ℕ) where
  abbrev assigned : List PushSubscription → List PushSubscription
  assigned = update_where (has_key r.delivery_key_hash) (reassign r now)

  still_free :
      (m : Text) (subs : List PushSubscription)
      → text_eq m r.management_key_hash ≡ false
      → any (has_manager m) subs ≡ false
      → any (has_manager m) (assigned subs) ≡ false
  unfolding manager_eq
  still_free m subs other h =
      any-update_away (has_manager m) (has_key r.delivery_key_hash) (reassign r now) subs
        (λ s. ground (arith, text_eq_comm r.management_key_hash m)) h

  -- The pending rows of another manager wait on.
  waiting_after :
      (t : PendingSubscription → Bool) (subs subs' : List PushSubscription)
      (ws : List PendingSubscription)
      → ((w : PendingSubscription) → manages r.management_key_hash w ≡ true → t w ≡ true)
      → ((m : Text)
          → text_eq m r.management_key_hash ≡ false
          → any (has_manager m) subs ≡ false
          → any (has_manager m) subs' ≡ false)
      → any (is_settled subs) ws ≡ false
      → any (is_settled subs') (filter_by (λ w. not (t w)) ws) ≡ false
  waiting_after t subs subs' [] sub free h = refl
  waiting_after t subs subs' (w ∷ ws) sub free h =
      ground (arith, sub w, free w.management_key_hash, waiting_after t subs subs' ws sub free)

  module _ (db : Database) (h : WellFormed db)
      (allowed : is_revoked r.management_key_hash db.revoked ≡ false)
      (free : any (clashes r.delivery_key_hash r.management_key_hash r.endpoint) db.subscriptions
        ≡ false)
      (t : PendingSubscription → Bool)
      (sub : (w : PendingSubscription) → manages r.management_key_hash w ≡ true → t w ≡ true) where
    pub reassigned-WellFormed : WellFormed (
        delete_pendings t (record db {
          subscriptions =
              update_where (has_key r.delivery_key_hash) (reassign r now) db.subscriptions;
        }))
    unfolding delete_pendings names_revoked
    reassigned-WellFormed = record {
      rows = IsUnique-reassign r now db.subscriptions free h.rows;
      counted =
          h.counted
          ∙ sym
              (length-update_where (has_key r.delivery_key_hash) (reassign r now) db.subscriptions);
      unrevoked =
          any-update_away (revoked_row db.revoked) (has_key r.delivery_key_hash) (reassign r now)
            db.subscriptions (λ s. allowed) h.unrevoked;
      waiting =
          waiting_after t db.subscriptions (assigned db.subscriptions) db.pendings sub
            (λ m. still_free m db.subscriptions) h.waiting;
    }

    pub inserted-WellFormed :
        any (has_key r.delivery_key_hash) db.subscriptions ≡ false
        → WellFormed (
            delete_pendings t (record db {
              subscriptions = new_subscription r now ∷ db.subscriptions;
              gateway = record db.gateway {
                subscription_count = db.gateway.subscription_count + 1;
              };
            }))
    unfolding delete_pendings names_revoked manager_eq
    inserted-WellFormed fresh = record {
      rows = IsUnique-new r now db.subscriptions free fresh h.rows;
      counted = omega (arith, h.counted);
      unrevoked = ground (arith, h.unrevoked);
      waiting =
          waiting_after t db.subscriptions (new_subscription r now ∷ db.subscriptions) db.pendings
            sub (λ m other k. ground (arith, text_eq_comm r.management_key_hash m)) h.waiting;
    }
