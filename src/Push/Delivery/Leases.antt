-- ===== src/Push/Delivery/Leases.antt =====
-- The table of deliveries as a map of leases: for a subscription and an event, no lease, or one with a
-- status and the time of its last change. Each operation of `sub_etha.Push.Delivery` is one on that map.
use sub_etha.Prelude.{
  ℕ, ◌+◌, ◌≡◌, refl, Text, text_eq_iff, text_eq_refl, Bool, true, ◌&&◌, Option, none, some, leb,
  if◌then◌else◌, any, find, arith, holds, Keyed, find-update_where, find-append, any-find,
  is_some-find, holds-find,
}
use sub_etha.Push.Tables.{PushDelivery, DeliveryStatus, Database}
use sub_etha.Push.Delivery.{is_pending, is_delivery, is_stale, fresh_delivery, claim_delivery}

pub record Lease : Type 0 where
  pub status : DeliveryStatus
  pub updated_at : ℕ

abbrev pub lease_of : Option PushDelivery → Option Lease
lease_of none = none
lease_of (some d) = some (record { status = d.status; updated_at = d.updated_at })

unfoldable pub lease : Text → Text → Database → Option Lease
lease key event db = lease_of (find (is_delivery key event) db.deliveries)

abbrev pub same_delivery : PushDelivery → PushDelivery → Bool
same_delivery d e = is_delivery d.push_key_hash d.event_id e

-- The primary key of the table.
pub record HasKeys (db : Database) : Type 0 where
  pub keyed : Keyed same_delivery db.deliveries

-- What a claim answers and leaves for its own lease.
abbrev pub may_claim : ℕ → ℕ → Option Lease → Bool
may_claim now stale_after none = true
may_claim now stale_after (some l) = is_pending l.status && leb (l.updated_at + stale_after) now

abbrev pub claimed : ℕ → ℕ → Option Lease → Option Lease
claimed now stale_after l =
    if may_claim now stale_after l
    then some (record { status = DeliveryStatus.pending; updated_at = now })
    else l

pub is_delivery-one :
    (key event : Text) (d e : PushDelivery)
    → is_delivery key event d ≡ true
    → is_delivery key event e ≡ true
    → same_delivery d e ≡ true
unfolding is_delivery
is_delivery-one key event d e h k = ground (
  arith,
  text_eq_iff d.push_key_hash key,
  text_eq_iff d.event_id event,
  text_eq_iff e.push_key_hash key,
  text_eq_iff e.event_id event,
  text_eq_refl key,
  text_eq_refl event,
)

module _ (key event : Text) (now stale_after : ℕ) (db : Database) where
  is_delivery-fresh : is_delivery key event (fresh_delivery key event now) ≡ true
  unfolding is_delivery
  is_delivery-fresh = rw (text_eq_refl key, text_eq_refl event)

  any-is_stale :
      HasKeys db
      → any (is_stale key event now stale_after) db.deliveries
        ≡ holds (is_stale key event now stale_after) (find (is_delivery key event) db.deliveries)
  any-is_stale h =
      any-find same_delivery (is_delivery key event) (is_delivery-one key event)
        (is_stale key event now stale_after) db.deliveries (λ d k. ground arith) h.keyed

  -- In a table with at most one row for a subscription and an event, a claim is granted exactly if there
  -- is no lease for the event, or a pending one that is stale.
  pub claim_delivery-may_claim :
      HasKeys db
      → (claim_delivery key event now stale_after db).0
        ≡ may_claim now stale_after (lease key event db)
  unfolding claim_delivery lease
  claim_delivery-may_claim h = ground (
    arith,
    any-is_stale h,
    is_some-find (is_delivery key event) db.deliveries,
    holds-find (is_delivery key event) db.deliveries,
  )

  claim-find :
      HasKeys db
      → lease key event (claim_delivery key event now stale_after db).1
        ≡ claimed now stale_after (lease key event db)
  unfolding claim_delivery lease
  claim-find h = ground (
    arith,
    any-is_stale h,
    is_some-find (is_delivery key event) db.deliveries,
    holds-find (is_delivery key event) db.deliveries,
    find-update_where (is_delivery key event) (is_stale key event now stale_after)
        (λ d. record d { updated_at = now }) db.deliveries (λ d. unfold is_delivery in refl),
    find-append (is_delivery key event) db.deliveries (fresh_delivery key event now),
    is_delivery-fresh,
  )
