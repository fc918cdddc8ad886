-- ===== src/Push/Tests.antt =====
-- Runs of the push gateway on small tables, and its theorems at them.
use sub_etha.Prelude.{
  is_some, ◌<◌, ◌+◌, ℕ, ◌≡◌, ◌≢◌, refl, Text, codes, text_eq, true, false, List, [], ◌∷◌, Option,
  none, some, length, All, find, any, min, ◌≤◌, ◌*◌, ◌-◌, arith,
}
use sub_etha.Push.Tables.{
  StoredPushSubscription, PushSubscription, PendingSubscription, RateBudget, DeliveryStatus,
  Database, DeletionOutcome, RegistrationStartOutcome,
}
use sub_etha.Push.Budget.Windows.{
  grants, global_grants, grants_in_window, grants_bound, grants_missing, global_grants_bound,
}
use sub_etha.Push.Delivery.{claim_delivery}
use sub_etha.Push.Delivery.Leases.{HasKeys, lease, may_claim, claim_delivery-may_claim}
use sub_etha.Push.Delivery.Exclusive.{Call, calls, sent_is_final, is_sent}
use sub_etha.Push.Registration.{Registration, has_manager}
use sub_etha.Push.Registration.Delete.{delete_subscription}
use sub_etha.Push.Registration.Begin.{begin_registration}
use sub_etha.Push.Registration.Confirm.{confirm_subscription}
use sub_etha.Push.Registration.Integrity.{WellFormed}
use sub_etha.Push.Registration.Confirmation.{confirm_subscription_total}
use sub_etha.Push.Registration.History.{Transaction, perform_all, revocation_is_final, start_answer}
use sub_etha.Push.Registration.Intact.{IsIntact, perform_all-IsIntact}
use sub_etha.Push.Registration.Capacity.{perform_all-capacity}

abbrev keys_of : Text → StoredPushSubscription
keys_of endpoint = record { endpoint = endpoint; p256dh = codes "p"; auth = codes "a" }

abbrev first_row : PushSubscription
first_row = record {
  push_key_hash = codes "k1";
  management_key_hash = some (codes "m1");
  stored = keys_of (codes "https://fcm.googleapis.com");
  created_at = 0;
  updated_at = 0;
  last_success_at = none;
  rate_window_start = 0;
  rate_count = 0;
}

abbrev waiting_row : PendingSubscription
waiting_row = record {
  management_key_hash = codes "m2";
  delivery_key_hash = codes "k2";
  challenge_hash = codes "c2";
  stored = keys_of (codes "https://updates.push.services.mozilla.com");
  created_at = 0;
  expires_at = 600;
}

abbrev tables : Database
tables = record {
  subscriptions = first_row ∷ [];
  pendings = waiting_row ∷ [];
  revoked = [];
  gateway = record {
    subscription_count = 1;
    revoked_management_key_count = 0;
    revoked_management_key_limit = none;
  };
  budgets = record { name = codes "matrix-notify"; window_start = 0; request_count = 0 } ∷ [];
  deliveries =
      record {
        push_key_hash = codes "k1";
        event_id = codes "e1";
        status = DeliveryStatus.sent;
        updated_at = 5;
      }
      ∷ [];
}

tables-WellFormed : WellFormed tables
unfolding sub_etha.Push.Registration.Integrity.names_revoked sub_etha.Push.Registration.manager_eq
    text_eq
tables-WellFormed = record {
  rows = record { keys = (refl, tt); endpoints = (refl, tt); managers = (refl, tt) };
  counted = refl;
  unrevoked = refl;
  waiting = refl;
}

-- A confirmation, and then the deletion of the first subscription.
abbrev history : List Transaction
history = Transaction.confirm (codes "c2") 10 5 ∷ Transaction.delete (codes "m1") 20 5 ∷ []

-- First of all a pending registration takes the place of the one with its endpoint.
abbrev rival_registration : Registration
rival_registration = record {
  delivery_key_hash = codes "k4";
  management_key_hash = codes "m4";
  subscription = waiting_row.stored;
}

tables-IsIntact : IsIntact tables
tables-IsIntact = (
  tables-WellFormed,
  record {
    managers = (refl, tt);
    keys = (refl, tt);
    challenges = (refl, tt);
    endpoints = (refl, tt);
  },
)

abbrev longer_history : List Transaction
longer_history = Transaction.begin rival_registration (codes "c4") 5 605 5 5 ∷ history

perform_all-IsIntact_example : IsIntact (perform_all longer_history tables)
perform_all-IsIntact_example = perform_all-IsIntact longer_history tables tables-IsIntact

perform_all-capacity_example : length (perform_all history tables).subscriptions ≤ 5
perform_all-capacity_example =
    perform_all-capacity 5 history tables tables-WellFormed (omega arith, (tt, tt)) (omega arith)

confirm_subscription_total_example : is_some (confirm_subscription (codes "c2") 10 5 tables) ≡ true
confirm_subscription_total_example =
    confirm_subscription_total (codes "c2") 10 5 tables tables-WellFormed

abbrev first_registration : Registration
first_registration = record {
  delivery_key_hash = codes "k1";
  management_key_hash = codes "m1";
  subscription = keys_of (codes "https://fcm.googleapis.com");
}

abbrev kept_result : Option (DeletionOutcome × Database) → DeletionOutcome × Database
kept_result none = (DeletionOutcome.not_found, tables)
kept_result (some r) = r

abbrev deletion : DeletionOutcome × Database
deletion = kept_result (delete_subscription (codes "m1") 20 5 tables)

deletion_removes : delete_subscription (codes "m1") 20 5 tables ≡ some deletion
unfolding delete_subscription
deletion_removes = refl

removed_one : deletion.0 ≢ DeletionOutcome.capacity_exceeded
unfolding delete_subscription sub_etha.Push.Registration.Delete.remove_managed
    sub_etha.Push.Registration.manager_eq sub_etha.Push.Registration.Delete.revoke text_eq
removed_one = λ e. ground arith

revocation_is_final_example :
    (any (has_manager (codes "m1")) (perform_all history deletion.1).subscriptions ≡ false)
    × (start_answer (
          begin_registration first_registration
            (codes "c3")
            30
            630
            5
            5
            (perform_all history deletion.1))
        ≡ some RegistrationStartOutcome.revoked)
revocation_is_final_example =
    revocation_is_final first_registration 20 5 tables deletion history (codes "c3") 30 630 5 5
      tables-WellFormed deletion_removes removed_one

tables-HasKeys : HasKeys tables
tables-HasKeys = record { keyed = (refl, tt) }

claim_delivery-may_claim_example :
    (claim_delivery (codes "k1") (codes "e2") 100 120 tables).0
    ≡ may_claim 100 120 (lease (codes "k1") (codes "e2") tables)
claim_delivery-may_claim_example =
    claim_delivery-may_claim (codes "k1") (codes "e2") 100 120 tables tables-HasKeys

abbrev workers : List Call
workers =
    Call.claim (codes "k1") (codes "e1") 200 120
    ∷ Call.release (codes "k1") (codes "e1")
    ∷ Call.claim (codes "k1") (codes "e2") 201 120
    ∷ []

first_is_sent : is_sent (lease (codes "k1") (codes "e1") tables) ≡ true
unfolding lease sub_etha.Push.Delivery.is_delivery text_eq
first_is_sent = refl

sent_is_final_example :
    (claim_delivery (codes "k1") (codes "e1") 900 120 (calls workers tables)).0 ≡ false
sent_is_final_example =
    sent_is_final (codes "k1") (codes "e1") tables workers 900 120 tables-HasKeys first_is_sent

found_first : find (λ r. text_eq r.push_key_hash (codes "k1")) tables.subscriptions ≡ some first_row
unfolding text_eq
found_first = refl

abbrev requests : List ℕ
requests = 1 ∷ 5 ∷ 9 ∷ []

grants_in_window_example : grants (codes "k1") 60 2 requests tables ≡ min (length requests) (2 - 0)
grants_in_window_example =
    grants_in_window (codes "k1") 60 2 requests tables first_row found_first
      (omega arith, (omega arith, (omega arith, tt)))

abbrev span : List ℕ
span = 59 ∷ 60 ∷ 61 ∷ []

span-inside : All (λ t. (50 ≤ t) × (t < 50 + 60)) span
span-inside =
    ((omega arith, omega arith), ((omega arith, omega arith), ((omega arith, omega arith), tt)))

grants_bound_example : grants (codes "k1") 60 1 span tables ≤ 2 * 1
grants_bound_example =
    grants_bound (codes "k1") 60 1 50 span tables first_row found_first span-inside

missing_key : find (λ r. text_eq r.push_key_hash (codes "k9")) tables.subscriptions ≡ none
unfolding text_eq
missing_key = refl

grants_missing_example : grants (codes "k9") 60 1 span tables ≡ 0
grants_missing_example = grants_missing (codes "k9") 60 1 span tables missing_key

abbrev notify_budget : RateBudget
notify_budget = record { name = codes "matrix-notify"; window_start = 0; request_count = 0 }

found_budget :
    find (λ b. text_eq b.name (codes "matrix-notify")) tables.budgets ≡ some notify_budget
unfolding text_eq
found_budget = refl

global_grants_bound_example : global_grants (codes "matrix-notify") 60 1 span tables ≤ 2 * 1
global_grants_bound_example =
    global_grants_bound (codes "matrix-notify") 60 1 50 span tables notify_budget found_budget
      span-inside
