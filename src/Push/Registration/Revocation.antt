-- ===== src/Push/Registration/Revocation.antt =====
-- `deleteSubscription`: the tombstone of a management key and the deletion of what the key manages.
use sub_etha.Prelude.{
  ℕ, ◌≡◌, refl, Text, text_eq_comm, true, false, ◌&&◌, ◌||◌, not, List, [], ◌∷◌, Option, none, some,
  any, find, leb, ◌==◌, arith, any-implied, any-or, any-filter_by_and, is_some-find, if_intro,
  option_intro,
}
use sub_etha.Push.Tables.{PushSubscription, RevokedManagementKey, Database, DeletionOutcome}
use sub_etha.Push.Registration.{
  manager_eq, has_manager, is_revoked, delete_subscriptions, delete_deliveries, delete_pendings,
  manages,
}
use sub_etha.Push.Registration.Delete.{
  revoke, revocation_limit, remove_managed, delete_subscription,
}
use sub_etha.Push.Registration.Integrity.{
  WellFormed, names_revoked, revoked_row, delete_subscriptions-WellFormed,
  delete_pendings-WellFormed, delete_deliveries-WellFormed,
}
use sub_etha.Push.Registration.Transactions.{Leaves}

-- The tables with no tombstones.
abbrev without_tombstones : Database → Database
without_tombstones db = record db { revoked = [] }

names_revoked-nil : (subs : List PushSubscription) → any (revoked_row []) subs ≡ false
unfolding names_revoked
names_revoked-nil [] = refl
names_revoked-nil (s ∷ subs) = ground (arith, names_revoked-nil subs)

abbrev UnrevokedBut : Text → Database → Type 0
UnrevokedBut manager db =
    any (λ s. revoked_row db.revoked s && not (has_manager manager s)) db.subscriptions ≡ false

without_tombstones-WellFormed : (db : Database) → WellFormed db → WellFormed (without_tombstones db)
without_tombstones-WellFormed db h = record {
  rows = h.rows;
  counted = h.counted;
  unrevoked = names_revoked-nil db.subscriptions;
  waiting = h.waiting;
}

with_tombstones-WellFormed :
    (db : Database)
    → WellFormed (without_tombstones db)
    → any (revoked_row db.revoked) db.subscriptions ≡ false
    → WellFormed db
with_tombstones-WellFormed db h k = record {
  rows = h.rows;
  counted = h.counted;
  unrevoked = k;
  waiting = h.waiting;
}

older :
    (manager : Text) (now : ℕ) (rs : List RevokedManagementKey) (m : Option Text)
    → (names_revoked (record { management_key_hash = manager; revoked_at = now } ∷ rs) m
        && not (manager_eq m (some manager)))
      ≡ true
    → names_revoked rs m ≡ true
unfolding names_revoked manager_eq
older manager now rs none k = ground arith
older manager now rs (some m) k = ground (arith, text_eq_comm manager m)

revoke-UnrevokedBut :
    (manager : Text) (now : ℕ) (db : Database)
    → WellFormed db
    → UnrevokedBut manager (revoke manager now db)
unfolding revoke
revoke-UnrevokedBut manager now db h =
    if_intro (UnrevokedBut manager) (is_revoked manager db.revoked) _ _
      (λ _.
        any-implied (λ s. revoked_row db.revoked s && not (has_manager manager s))
          (revoked_row db.revoked) db.subscriptions (λ s k. ground arith) h.unrevoked)
      (λ _.
        any-implied _ (revoked_row db.revoked) db.subscriptions
          (λ s. older manager now db.revoked s.management_key_hash) h.unrevoked)

remove_managed-WellFormed :
    (manager : Text) (db : Database)
    → WellFormed (without_tombstones db)
    → UnrevokedBut manager db
    → WellFormed (remove_managed manager db).1
unfolding remove_managed delete_subscriptions delete_pendings delete_deliveries
remove_managed-WellFormed manager db h k =
    option_intro (λ (r : DeletionOutcome × Database). WellFormed r.1)
      (find (has_manager manager) db.subscriptions) _ _
      (λ e.
        let unrevoked : any (revoked_row db.revoked) db.subscriptions ≡ false =
          any-implied (revoked_row db.revoked)
            (λ s.
              (revoked_row db.revoked s && not (has_manager manager s)) || has_manager manager s)
            db.subscriptions (λ s v. ground arith)
            (any-or (λ s. revoked_row db.revoked s && not (has_manager manager s))
              (has_manager manager) db.subscriptions k
              (ground (arith, is_some-find (has_manager manager) db.subscriptions))) in
        if_intro (λ (r : DeletionOutcome × Database). WellFormed r.1)
          (any (manages manager) db.pendings) _ _
          (λ _.
            with_tombstones-WellFormed (delete_pendings (manages manager) db)
              (delete_pendings-WellFormed (manages manager) (without_tombstones db) h) unrevoked)
          (λ _. with_tombstones-WellFormed db h unrevoked))
      (λ s e.
        with_tombstones-WellFormed
          (delete_subscriptions (has_manager manager)
            (delete_deliveries s.push_key_hash (delete_pendings (manages manager) db)))
          (delete_subscriptions-WellFormed (has_manager manager) _ (
            delete_deliveries-WellFormed s.push_key_hash _
              (delete_pendings-WellFormed (manages manager) (without_tombstones db) h)))
          (any-filter_by_and (revoked_row db.revoked) (λ t. not (has_manager manager t))
            db.subscriptions k))

revoke-without :
    (manager : Text) (now : ℕ) (db : Database)
    → WellFormed (without_tombstones db)
    → WellFormed (without_tombstones (revoke manager now db))
unfolding revoke
revoke-without manager now db h =
    if_intro (λ (d : Database). WellFormed (without_tombstones d)) (is_revoked manager db.revoked) _
      _ (λ _. h)
      (λ _. record {
        rows = h.rows;
        counted = h.counted;
        unrevoked = h.unrevoked;
        waiting = h.waiting;
      })

-- A deletion leaves the tables well-formed on every outcome.
pub delete_subscription-WellFormed :
    (manager : Text) (now maximum_revoked : ℕ) (db : Database)
    → WellFormed db
    → Leaves (delete_subscription manager now maximum_revoked db)
unfolding delete_subscription
delete_subscription-WellFormed manager now maximum_revoked db h =
    let limit = revocation_limit maximum_revoked db in
    let db' : Database = record db {
      gateway = record db.gateway { revoked_management_key_limit = some limit };
    } in
    let h' : WellFormed db' = record {
      rows = h.rows;
      counted = h.counted;
      unrevoked = h.unrevoked;
      waiting = h.waiting;
    } in
    if_intro Leaves (maximum_revoked == 0) _ _ (λ _. tt)
      λ _.
        if_intro Leaves
          (not (is_revoked manager db.revoked) && leb limit db.gateway.revoked_management_key_count)
          _ _ (λ _. h')
          λ _.
            remove_managed-WellFormed manager (revoke manager now db')
              (revoke-without manager now db' (without_tombstones-WellFormed db' h'))
              (revoke-UnrevokedBut manager now db' h')
