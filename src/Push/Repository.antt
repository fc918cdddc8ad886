-- ===== src/Push/Repository.antt =====
-- The interface `PushRepository` of lib/push-repository.ts over an abstract store, and its
-- implementation over the tables. `none` is a promise that is rejected: the store is as it was.
use sub_etha.Prelude.{ℕ, Text, Bool, List, Option, some}
use sub_etha.Push.Tables.{
  PushSubscriptionSnapshot, Database, RegistrationStartOutcome, ConfirmationOutcome,
  DeletionOutcome,
}
use sub_etha.Push.Budget.{consume_rate_limit, consume_global_rate_limit}
use sub_etha.Push.Delivery.{claim_delivery, mark_delivered, release_delivery, cleanup_deliveries}
use sub_etha.Push.Registration.{Registration, get_subscriptions, get_managed_subscription}
use sub_etha.Push.Registration.Begin.{begin_registration}
use sub_etha.Push.Registration.Confirm.{confirm_subscription, cancel_pending_registration}
use sub_etha.Push.Registration.Delete.{delete_subscription, delete_subscription_if_current}
use sub_etha.Push.Cleanup.{cleanup_subscriptions}

-- A call on the store.
abbrev pub Query : Type 0 → Type 0 → Type 0
Query S A = S → Option (A × S)

pub record PushRepository (S : Type 0) : Type 0 where
  pub begin_subscription_registration :
      Registration
      → Text
      → (now expires_at maximum maximum_pending : ℕ) → Query S RegistrationStartOutcome
  pub confirm : Text → (now maximum : ℕ) → Query S ConfirmationOutcome
  pub cancel_pending : Text → Query S Unit
  pub delete : Text → (now maximum_revoked : ℕ) → Query S DeletionOutcome
  pub delete_if_current : PushSubscriptionSnapshot → Query S Bool
  pub snapshots : List Text → Query S (List PushSubscriptionSnapshot)
  pub managed : Text → Query S (Option PushSubscriptionSnapshot)
  pub consume : Text → (now window limit : ℕ) → Query S Bool
  pub consume_global : Text → (now window limit : ℕ) → Query S Bool
  pub claim : (key event : Text) → (now stale_after : ℕ) → Query S Bool
  pub mark : PushSubscriptionSnapshot → Option Text → ℕ → Query S Bool
  pub release : (key event : Text) → Query S Unit
  pub clean_subscriptions : (now age limit : ℕ) → Query S ℕ
  pub clean_deliveries : (now age : ℕ) → Query S Unit

-- The tables, with a database that answers.
abbrev pub neon_push_repository : (Text → Text → Bool) → PushRepository Database
neon_push_repository collates = record {
  begin_subscription_registration = begin_registration;
  confirm = confirm_subscription;
  cancel_pending = λ challenge db. some (tt, cancel_pending_registration challenge db);
  delete = delete_subscription;
  delete_if_current = λ snapshot db. some (delete_subscription_if_current snapshot db);
  snapshots = λ keys db. some (get_subscriptions keys db, db);
  managed = λ manager db. some (get_managed_subscription manager db, db);
  consume = λ key now window limit db. some (consume_rate_limit key now window limit db);
  consume_global =
      λ bucket now window limit db. some (consume_global_rate_limit bucket now window limit db);
  claim = λ key event now stale_after db. some (claim_delivery key event now stale_after db);
  mark = λ snapshot event now db. some (mark_delivered snapshot event now db);
  release = λ key event db. some (tt, release_delivery key event db);
  clean_subscriptions = λ now age limit db. some (cleanup_subscriptions collates now age limit db);
  clean_deliveries = λ now age db. some (tt, cleanup_deliveries now age db);
}
