-- ===== src/Push/Delivery/Exclusive.antt =====
-- Delivery over time: the workers' calls as a sequence of operations on the table.
use sub_etha.Prelude.{
  if_intro, ◌∙◌, ℕ, ◌≡◌, refl, Text, text_eq_iff, Bool, true, false, ◌&&◌, not, List, [], ◌∷◌,
  Option, none, some, any, arith, Keyed-filter_by, Keyed-update_where, Keyed-append,
  find-update_where, find-append, find-filter_by, is_some-find,
}
use sub_etha.Push.Tables.{PushSubscriptionSnapshot, PushDelivery, DeliveryStatus, Database}
use sub_etha.Push.Delivery.{
  is_pending, is_delivery, is_stale, fresh_delivery, claim_delivery, is_current, is_event,
  mark_delivered, release_delivery,
}
use sub_etha.Push.Delivery.Leases.{
  Lease, lease, HasKeys, may_claim, claim_delivery-may_claim, same_delivery, is_delivery-one,
}

-- The calls that workers make between two clean-ups.
pub data Call : Type 0 where
  claim : (key event : Text) (now stale_after : ℕ) → Call
  mark : PushSubscriptionSnapshot → Option Text → ℕ → Call
  release : (key event : Text) → Call

abbrev pub call : Call → Database → Database
call (claim key event now stale_after) db = (claim_delivery key event now stale_after db).1
call (mark snapshot event now) db = (mark_delivered snapshot event now db).1
call (release key event) db = release_delivery key event db

abbrev pub calls : List Call → Database → Database
calls [] db = db
calls (c ∷ cs) db = calls cs (call c db)

same_delivery-change :
    (c e : PushDelivery) (s : DeliveryStatus) (now : ℕ)
    → same_delivery c (record e { status = s; updated_at = now }) ≡ same_delivery c e
unfolding is_delivery
same_delivery-change c e s now = refl

same_delivery-swap :
    (key event : Text) (now : ℕ) (d : PushDelivery)
    → same_delivery d (fresh_delivery key event now) ≡ is_delivery key event d
unfolding is_delivery
same_delivery-swap key event now d = ground (
  arith,
  text_eq_iff d.push_key_hash key,
  text_eq_iff d.event_id event,
  text_eq_iff key d.push_key_hash,
  text_eq_iff event d.event_id,
)

-- Every operation keeps the primary key.
pub call-HasKeys : (c : Call) (db : Database) → HasKeys db → HasKeys (call c db)
unfolding claim_delivery mark_delivered release_delivery
call-HasKeys (claim key event now stale_after) db h =
    if_intro (λ (r : Bool × Database). HasKeys r.1) (any (is_delivery key event) db.deliveries) _ _
      (λ _. record {
        keyed =
            Keyed-update_where same_delivery (is_stale key event now stale_after)
              (λ d. record d { updated_at = now }) db.deliveries (λ d e. unfold is_delivery in refl)
              (λ d e. unfold is_delivery in refl) h.keyed;
      })
      (λ fresh. record {
        keyed =
            Keyed-append same_delivery db.deliveries (fresh_delivery key event now) h.keyed
              (λ d. same_delivery-swap key event now d) fresh;
      })
call-HasKeys (mark snapshot event now) db h =
    if_intro (λ (r : Bool × Database). HasKeys r.1) (any (is_current snapshot) db.subscriptions) _ _
      (λ _. record {
        keyed =
            Keyed-update_where same_delivery (is_event snapshot.delivery_key_hash event)
              (λ d. record d { status = DeliveryStatus.sent; updated_at = now }) db.deliveries
              (λ d e. unfold is_delivery in refl) (λ d e. unfold is_delivery in refl) h.keyed;
      })
      (λ _. h)
call-HasKeys (release key event) db h = record {
  keyed =
      Keyed-filter_by same_delivery (λ d. not (is_delivery key event d && is_pending d.status))
        db.deliveries h.keyed;
}

abbrev pub is_sent : Option Lease → Bool
is_sent none = false
is_sent (some l) = not (is_pending l.status)

-- A lease that is sent stays so under every call, for whatever subscription and event.
call-is_sent :
    (c : Call) (key event : Text) (db : Database)
    → HasKeys db
    → is_sent (lease key event db) ≡ true
    → is_sent (lease key event (call c db)) ≡ true
unfolding claim_delivery mark_delivered release_delivery lease
call-is_sent (claim k e now stale_after) key event db h sent = ground (
  arith,
  find-update_where (is_delivery key event) (is_stale k e now stale_after)
      (λ d. record d { updated_at = now }) db.deliveries (λ d. unfold is_delivery in refl),
  find-append (is_delivery key event) db.deliveries (fresh_delivery k e now),
  is_some-find (is_delivery key event) db.deliveries,
)
call-is_sent (mark snapshot e now) key event db h sent = ground (
  arith,
  find-update_where (is_delivery key event) (is_event snapshot.delivery_key_hash e)
      (λ d. record d { status = DeliveryStatus.sent; updated_at = now }) db.deliveries
      (λ d. unfold is_delivery in refl),
)
call-is_sent (release k e) key event db h sent = ground (
  arith,
  find-filter_by same_delivery (is_delivery key event) (is_delivery-one key event)
      (λ d. not (is_delivery k e d && is_pending d.status)) db.deliveries h.keyed,
)

calls-is_sent :
    (cs : List Call) (key event : Text) (db : Database)
    → HasKeys db
    → is_sent (lease key event db) ≡ true
    → HasKeys (calls cs db) × (is_sent (lease key event (calls cs db)) ≡ true)
calls-is_sent [] key event db h sent = (h, sent)
calls-is_sent (c ∷ cs) key event db h sent =
    calls-is_sent cs key event (call c db) (call-HasKeys c db h)
      (call-is_sent c key event db h sent)

-- In a table with at most one row for a subscription and an event: once an event is marked as sent to a
-- subscription, no later claim for it is granted, whatever claims, marks and releases the workers make
-- in between and whatever the clock says, as long as no clean-up runs.
pub sent_is_final :
    (key event : Text) (db : Database) (cs : List Call) (now stale_after : ℕ)
    → HasKeys db
    → is_sent (lease key event db) ≡ true
    → (claim_delivery key event now stale_after (calls cs db)).0 ≡ false
sent_is_final key event db cs now stale_after h sent =
    let later = calls-is_sent cs key event db h sent in
    claim_delivery-may_claim key event now stale_after (calls cs db) later.0
    ∙ may_claim-is_sent now stale_after (lease key event (calls cs db)) later.1
  where
    may_claim-is_sent :
        (now stale_after : ℕ) (l : Option Lease)
        → is_sent l ≡ true
        → may_claim now stale_after l ≡ false
    may_claim-is_sent now stale_after l h = ground arith
