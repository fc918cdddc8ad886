-- ===== src/Push/Registration/Confirmation.antt =====
-- The tables after confirmations.
use sub_etha.Prelude.{
  ℕ, ◌≡◌, refl, Text, text_eq, text_eq_iff, text_eq_refl, Bool, true, false, ◌&&◌, ◌||◌, not,
  Option, any, find, filter_by, leb, arith, any-implied, any-or, any-filter_by_le, if_intro,
  option_intro, is_some-find, is_some, find-filter_by, find-of_any,
}
use sub_etha.Push.Tables.{PushSubscription, PendingSubscription, Database, ConfirmationOutcome}
use sub_etha.Push.Registration.{
  Registration, has_key, has_endpoint, has_manager, is_revoked, delete_subscriptions,
  delete_deliveries, delete_pendings, clashes, manages, evict,
}
use sub_etha.Push.Registration.Confirm.{
  upsert, of_pending, settle, is_taken, admit, confirm_subscription,
}
use sub_etha.Push.Registration.Rows.{same_endpoint}
use sub_etha.Push.Registration.Integrity.{
  WellFormed, is_settled, delete_pendings-WellFormed, evict-WellFormed, reassigned-WellFormed,
  inserted-WellFormed,
}
use sub_etha.Push.Registration.Transactions.{Leaves, evict-revoked}

-- Two tables with the same rows are well-formed together: the rest of the database has no part in it.
WellFormed-upto :
    (db db' : Database)
    → db'.subscriptions ≡ db.subscriptions
    → db'.pendings ≡ db.pendings
    → db'.revoked ≡ db.revoked
    → db'.gateway.subscription_count ≡ db.gateway.subscription_count
    → WellFormed db
    → WellFormed db'
WellFormed-upto db db' es ep er ec h = record {
  rows = rw es h.rows;
  counted = rw (es, ec) h.counted;
  unrevoked = rw (es, er) h.unrevoked;
  waiting = rw (es, ep) h.waiting;
}

-- Another row holds the endpoint.
abbrev holds_endpoint : Registration → PushSubscription → Bool
holds_endpoint r s = has_endpoint r.endpoint s && not (has_key r.delivery_key_hash s)

holds_endpoint-one :
    (r : Registration) (s t : PushSubscription)
    → holds_endpoint r s ≡ true
    → holds_endpoint r t ≡ true
    → same_endpoint s t ≡ true
holds_endpoint-one r s t h k = ground (
  arith,
  text_eq_iff s.endpoint r.endpoint,
  text_eq_iff t.endpoint r.endpoint,
  text_eq_iff s.endpoint t.endpoint,
)

module _ (r : Registration) (db : Database) (h : WellFormed db) where
  -- The eviction leaves no other row with the endpoint.
  evict-endpoint :
      any (holds_endpoint r) (evict r.delivery_key_hash r.endpoint db).subscriptions ≡ false
  unfolding evict delete_subscriptions delete_deliveries
  evict-endpoint =
      option_intro (λ (d : Database). any (holds_endpoint r) d.subscriptions ≡ false)
        (find (holds_endpoint r) db.subscriptions) _ _
        (λ e. ground (arith, is_some-find (holds_endpoint r) db.subscriptions))
        λ s e.
          let left = λ (t : PushSubscription). not (has_key s.push_key_hash t) in
          ground (
            arith,
            text_eq_refl s.push_key_hash,
            find-filter_by same_endpoint (holds_endpoint r) (holds_endpoint-one r) left
                db.subscriptions h.rows.endpoints,
            is_some-find (holds_endpoint r) (filter_by left db.subscriptions),
          )

  evict-managers :
      any (has_manager r.management_key_hash) db.subscriptions ≡ false
      → any
          (has_manager r.management_key_hash)
          (evict r.delivery_key_hash r.endpoint db).subscriptions
        ≡ false
  unfolding evict delete_subscriptions delete_deliveries
  evict-managers k =
      option_intro
        (λ (d : Database). any (has_manager r.management_key_hash) d.subscriptions ≡ false)
        (find (holds_endpoint r) db.subscriptions) _ _ (λ e. k)
        λ s e.
          any-filter_by_le (has_manager r.management_key_hash)
            (λ t. not (has_key s.push_key_hash t)) db.subscriptions k

  clash-rest :
      any (has_manager r.management_key_hash) db.subscriptions ≡ false
      → any
          (clashes r.delivery_key_hash r.management_key_hash r.endpoint)
          (evict r.delivery_key_hash r.endpoint db).subscriptions
        ≡ false
  unfolding clashes
  clash-rest k =
      let subs = (evict r.delivery_key_hash r.endpoint db).subscriptions in
      any-implied (clashes r.delivery_key_hash r.management_key_hash r.endpoint)
        (λ s. has_manager r.management_key_hash s || holds_endpoint r s) subs (λ s c. ground arith)
        (any-or (has_manager r.management_key_hash) (holds_endpoint r) subs (evict-managers k)
          evict-endpoint)

upsert-Leaves :
    (r : Registration) (now : ℕ) (outcome : ConfirmationOutcome) (db : Database)
    → WellFormed db
    → is_revoked r.management_key_hash db.revoked ≡ false
    → Leaves (settle outcome r.management_key_hash (upsert r now db))
unfolding upsert delete_pendings
upsert-Leaves r now outcome db h allowed =
    if_intro (λ (o : Option Database). Leaves (settle outcome r.management_key_hash o))
      (any (clashes r.delivery_key_hash r.management_key_hash r.endpoint) db.subscriptions) _ _
      (λ _. tt)
      λ free.
        if_intro (λ (o : Option Database). Leaves (settle outcome r.management_key_hash o))
          (any (has_key r.delivery_key_hash) db.subscriptions) _ _
          (λ _.
            reassigned-WellFormed r now db h allowed free (manages r.management_key_hash)
              (λ w k. k))
          (λ fresh.
            inserted-WellFormed r now db h allowed free (manages r.management_key_hash) (λ w k. k)
              fresh)

-- A confirmation leaves the tables well-formed on every outcome.
pub confirm_subscription-WellFormed :
    (challenge : Text) (now maximum : ℕ) (db : Database)
    → WellFormed db
    → Leaves (confirm_subscription challenge now maximum db)
unfolding confirm_subscription admit
confirm_subscription-WellFormed challenge now maximum db h =
    option_intro Leaves (find (λ w. text_eq w.challenge_hash challenge) db.pendings) _ _ (λ _. h)
      λ w _.
        if_intro Leaves (leb w.expires_at now) _ _
          (λ _. delete_pendings-WellFormed (manages w.management_key_hash) db h)
          λ _.
            if_intro Leaves (is_revoked w.management_key_hash db.revoked) _ _
              (λ _. delete_pendings-WellFormed (manages w.management_key_hash) db h)
              λ allowed.
                if_intro Leaves
                  (not (is_taken (of_pending w) db) && leb maximum db.gateway.subscription_count) _
                  _ (λ _. h)
                  λ _.
                    upsert-Leaves (of_pending w) now _ (evict w.delivery_key_hash w.endpoint db)
                      (evict-WellFormed w.delivery_key_hash w.endpoint db h)
                      (rw evict-revoked allowed)

settle-is_some :
    (outcome : ConfirmationOutcome) (manager : Text) (o : Option Database)
    → is_some o ≡ true
    → is_some (settle outcome manager o) ≡ true
settle-is_some outcome manager o h = ground arith

-- On well-formed tables a confirmation raises no exception, whatever challenge is presented: the row
-- that it writes violates no unique index.
pub confirm_subscription_total :
    (challenge : Text) (now maximum : ℕ) (db : Database)
    → WellFormed db
    → is_some (confirm_subscription challenge now maximum db) ≡ true
unfolding confirm_subscription admit upsert
confirm_subscription_total challenge now maximum db h =
    option_intro Answers (find (λ w. text_eq w.challenge_hash challenge) db.pendings) _ _
      (λ _. refl)
      λ w found.
        if_intro Answers (leb w.expires_at now) _ _ (λ _. refl)
          λ _.
            if_intro Answers (is_revoked w.management_key_hash db.revoked) _ _ (λ _. refl)
              λ _.
                if_intro Answers
                  (not (is_taken (of_pending w) db) && leb maximum db.gateway.subscription_count) _
                  _ (λ _. refl)
                  λ _.
                    let unmanaged =
                      find-of_any (λ (v : PendingSubscription). text_eq v.challenge_hash challenge)
                        (is_settled db.subscriptions) db.pendings w found h.waiting in
                    settle-is_some _ w.management_key_hash
                      (upsert (of_pending w) now (evict w.delivery_key_hash w.endpoint db))
                      (ground (arith, clash-rest (of_pending w) db h unmanaged))
  where
    Answers : Option (ConfirmationOutcome × Database) → Type 0
    Answers o = is_some o ≡ true
