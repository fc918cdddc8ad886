-- ===== src/Push/Tables.antt =====
-- The rows of db/schema.ts and the results of lib/push-repository.ts. A `bigint` of epoch seconds is
-- a natural number, and a nullable column is an `Option`.
use sub_etha.Prelude.{ℕ, Text, Option, List}

pub record StoredPushSubscription : Type 0 where
  pub endpoint : Text
  pub p256dh : Text
  pub auth : Text

pub record PushSubscriptionSnapshot : Type 0 where
  pub delivery_key_hash : Text
  pub stored : StoredPushSubscription
  pub open stored use *

pub record PushSubscription : Type 0 where
  pub push_key_hash : Text
  pub management_key_hash : Option Text
  pub stored : StoredPushSubscription
  pub open stored use *
  pub created_at : ℕ
  pub updated_at : ℕ
  pub last_success_at : Option ℕ
  pub rate_window_start : ℕ
  pub rate_count : ℕ

pub record PendingSubscription : Type 0 where
  pub management_key_hash : Text
  pub delivery_key_hash : Text
  pub challenge_hash : Text
  pub stored : StoredPushSubscription
  pub open stored use *
  pub created_at : ℕ
  pub expires_at : ℕ

pub record RevokedManagementKey : Type 0 where
  pub management_key_hash : Text
  pub revoked_at : ℕ

pub record GatewayState : Type 0 where
  pub subscription_count : ℕ
  pub revoked_management_key_count : ℕ
  pub revoked_management_key_limit : Option ℕ

pub record RateBudget : Type 0 where
  pub name : Text
  pub window_start : ℕ
  pub request_count : ℕ

pub data DeliveryStatus : Type 0 where
  pending sent : DeliveryStatus

pub record PushDelivery : Type 0 where
  pub push_key_hash : Text
  pub event_id : Text
  pub status : DeliveryStatus
  pub updated_at : ℕ

-- The tables; `push_gateway_state` has one row.
pub record Database : Type 0 where
  pub subscriptions : List PushSubscription
  pub pendings : List PendingSubscription
  pub revoked : List RevokedManagementKey
  pub gateway : GatewayState
  pub budgets : List RateBudget
  pub deliveries : List PushDelivery

pub data RegistrationStartOutcome : Type 0 where
  active challenge_required capacity_exceeded : RegistrationStartOutcome
  pending_capacity_exceeded management_conflict revoked : RegistrationStartOutcome

pub data ConfirmationOutcome : Type 0 where
  created refreshed reassigned capacity_exceeded : ConfirmationOutcome
  invalid_challenge expired_challenge revoked : ConfirmationOutcome

pub data DeletionOutcome : Type 0 where
  removed not_found capacity_exceeded : DeletionOutcome
