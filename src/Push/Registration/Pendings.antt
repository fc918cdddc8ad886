-- ===== src/Push/Registration/Pendings.antt =====
-- The rows of `push_pending_subscriptions` under the changes of `sub_etha.Push.Registration`: the primary
-- key and the three unique indexes of a pending registration's row.
pub mod Kept
use sub_etha.Prelude.{
  ℕ, ◌≡◌, refl, Text, text_eq, text_eq_comm, Bool, false, not, List, [], ◌∷◌, Option, none, some,
  any, filter_by, arith, Keyed, Keyed-filter_by, any-implied,
}
use sub_etha.Push.Tables.{PendingSubscription, Database}
use sub_etha.Push.Registration.{
  Registration, delete_subscriptions, delete_deliveries, delete_pendings, rivals, evict,
}
use sub_etha.Push.Registration.Begin.{new_pending}

abbrev pub same_pending_manager : PendingSubscription → PendingSubscription → Bool
same_pending_manager v w = text_eq v.management_key_hash w.management_key_hash

abbrev pub same_pending_key : PendingSubscription → PendingSubscription → Bool
same_pending_key v w = text_eq v.delivery_key_hash w.delivery_key_hash

abbrev pub same_challenge : PendingSubscription → PendingSubscription → Bool
same_challenge v w = text_eq v.challenge_hash w.challenge_hash

abbrev pub same_pending_endpoint : PendingSubscription → PendingSubscription → Bool
same_pending_endpoint v w = text_eq v.endpoint w.endpoint

pub record IsUniquePending (ws : List PendingSubscription) : Type 0 where
  pub managers : Keyed same_pending_manager ws
  pub keys : Keyed same_pending_key ws
  pub challenges : Keyed same_challenge ws
  pub endpoints : Keyed same_pending_endpoint ws

pub IsUniquePending-filter_by :
    (p : PendingSubscription → Bool) (ws : List PendingSubscription)
    → IsUniquePending ws
    → IsUniquePending (filter_by p ws)
IsUniquePending-filter_by p ws h = record {
  managers = Keyed-filter_by same_pending_manager p ws h.managers;
  keys = Keyed-filter_by same_pending_key p ws h.keys;
  challenges = Keyed-filter_by same_challenge p ws h.challenges;
  endpoints = Keyed-filter_by same_pending_endpoint p ws h.endpoints;
}

-- The pending rows of a database, and those that a transaction leaves if it does not fail.
abbrev pub HasUniquePending : Database → Type 0
HasUniquePending db = IsUniquePending db.pendings

abbrev pub LeavesPending {ℓ} : {A : Type ℓ} → Option (A × Database) → Type 0
LeavesPending none = Unit
LeavesPending (some r) = HasUniquePending r.1

pub delete_pendings-HasUniquePending :
    (p : PendingSubscription → Bool) (db : Database)
    → HasUniquePending db
    → HasUniquePending (delete_pendings p db)
unfolding delete_pendings
delete_pendings-HasUniquePending p db h = IsUniquePending-filter_by (λ w. not (p w)) db.pendings h

evict-pendings :
    (key endpoint : Text) (db : Database) → (evict key endpoint db).pendings ≡ db.pendings
unfolding evict delete_subscriptions delete_deliveries
evict-pendings key endpoint db = ground arith

pub evict-HasUniquePending :
    (key endpoint : Text) (db : Database)
    → HasUniquePending db
    → HasUniquePending (evict key endpoint db)
evict-HasUniquePending key endpoint db h = rw evict-pendings h

pub no_rivals :
    (p : PendingSubscription → Bool) (ws : List PendingSubscription)
    → any p (filter_by (λ w. not (p w)) ws) ≡ false
no_rivals p [] = refl
no_rivals p (w ∷ ws) = ground (arith, no_rivals p ws)

-- A row is added after its rivals have been deleted, with a challenge that none of the rest has.
pub IsUniquePending-new :
    (r : Registration) (challenge : Text) (now expires_at : ℕ) (ws : List PendingSubscription)
    → any (rivals r.delivery_key_hash r.management_key_hash r.endpoint) ws ≡ false
    → any (λ w. text_eq w.challenge_hash challenge) ws ≡ false
    → IsUniquePending ws
    → IsUniquePending (new_pending r challenge now expires_at ∷ ws)
IsUniquePending-new r challenge now expires_at ws free fresh h =
    let rival = rivals r.delivery_key_hash r.management_key_hash r.endpoint in
    let v = new_pending r challenge now expires_at in
    record {
      managers = (
        any-implied (same_pending_manager v) rival ws
            (λ w k. ground (arith, text_eq_comm r.management_key_hash w.management_key_hash)) free,
        h.managers,
      );
      keys = (
        any-implied (same_pending_key v) rival ws
            (λ w k. ground (arith, text_eq_comm r.delivery_key_hash w.delivery_key_hash)) free,
        h.keys,
      );
      challenges = (
        any-implied (same_challenge v) (λ w. text_eq w.challenge_hash challenge) ws
            (λ w k. ground (arith, text_eq_comm challenge w.challenge_hash)) fresh,
        h.challenges,
      );
      endpoints = (
        any-implied (same_pending_endpoint v) rival ws
            (λ w k. ground (arith, text_eq_comm r.endpoint w.endpoint)) free,
        h.endpoints,
      );
    }
