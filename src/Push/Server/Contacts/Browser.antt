-- ===== src/Push/Server/Contacts/Browser.antt =====
-- Which endpoints the requests of a browser contact: test notifications and subscription changes.
use sub_etha.Prelude.{
  ℕ, ◌≡◌, ◌||◌, not, text_eq, Text, codes, Bool, true, false, Option, none, some, ltb, length,
  arith,
}
use sub_etha.Json.{Json}
use sub_etha.Push.Tables.{PushSubscriptionSnapshot, RegistrationStartOutcome}
use sub_etha.Push.Exec.{Dependencies}
use sub_etha.Push.Exec.Preserves.{
  Preserves, preserving, Preserves-if, Preserves-option, Preserves-bind, Preserves-bind_yield,
  Yields, Yields-bind, Yields-if, Yields-option, Yields-pure, Yields-throw,
}
use sub_etha.Push.Server.{property, read_json, Request, allowed_endpoint}
use sub_etha.Push.Server.Destinations.{
  ContactsAllowed, frame, send-Preserves, budget-Preserves, read_json-Preserves, property-Preserves,
  assert_same_origin-Preserves, configured-Preserves, cleanup-Preserves,
}
use sub_etha.Push.Server.Subscriptions.{
  Asked, confirm_keyed, remove_keyed, confirm, remove, checked, checked?, asked, send_challenge,
  started, register, change_subscription, invalid, valid_generation,
}
use sub_etha.Push.Server.TestSend.{
  attempt, after_failure, send_test, drop_invalid, test_found, test_keyed, test_notification,
}

module _ {S : Type 0} (deps : Dependencies S) where
  attempt-Preserves :
      (snapshot : PushSubscriptionSnapshot) (timestamp : ℕ)
      → allowed_endpoint deps snapshot.endpoint ≡ true
      → Preserves (ContactsAllowed deps) (attempt deps snapshot timestamp)
  unfolding attempt
  attempt-Preserves snapshot timestamp h = search (preserving, frame deps, send-Preserves) depth 8

  after_failure-Preserves :
      (snapshot : PushSubscriptionSnapshot) (status : ℕ)
      → Preserves (ContactsAllowed deps) (after_failure deps snapshot status)
  unfolding after_failure
  after_failure-Preserves snapshot status = search (preserving, frame deps) depth 8

  send_test-Preserves :
      (snapshot : PushSubscriptionSnapshot)
      → allowed_endpoint deps snapshot.endpoint ≡ true
      → Preserves (ContactsAllowed deps) (send_test deps snapshot)
  unfolding send_test
  send_test-Preserves snapshot h =
      search (preserving, frame deps, budget-Preserves, attempt-Preserves, after_failure-Preserves)
        depth 12

  drop_invalid-Preserves :
      (snapshot : PushSubscriptionSnapshot)
      → Preserves (ContactsAllowed deps) (drop_invalid deps snapshot)
  unfolding drop_invalid
  drop_invalid-Preserves snapshot = search (preserving, frame deps) depth 8

  found-Preserves :
      (found : Option PushSubscriptionSnapshot)
      → Preserves (ContactsAllowed deps) (test_found deps found)
  found-Preserves none = search preserving
  found-Preserves (some snapshot) =
      Preserves-if (allowed_endpoint deps snapshot.endpoint) _ _ (send_test-Preserves snapshot)
        (λ _. drop_invalid-Preserves snapshot)

  pub test_notification-Preserves :
      (request : Request) → Preserves (ContactsAllowed deps) (test_notification deps request)
  unfolding test_notification
  test_notification-Preserves request =
      search
        (
          preserving, configured-Preserves, assert_same_origin-Preserves, read_json-Preserves,
          property-Preserves, keyed-Preserves,
        )
        depth 9
    where
      keyed-Preserves : (key : Option Text) → Preserves (ContactsAllowed deps) (test_keyed deps key)
      keyed-Preserves none = search preserving
      keyed-Preserves (some key) = search (preserving, frame deps, found-Preserves)

  confirm-Preserves : (request : Request) → Preserves (ContactsAllowed deps) (confirm deps request)
  unfolding confirm
  confirm-Preserves request =
      search (preserving, read_json-Preserves, property-Preserves, keyed-Preserves) depth 8
    where
      keyed-Preserves :
          (key : Option Text) → Preserves (ContactsAllowed deps) (confirm_keyed deps key)
      keyed-Preserves none = search preserving
      keyed-Preserves (some key) = search (preserving, frame deps)

  remove-Preserves : (request : Request) → Preserves (ContactsAllowed deps) (remove deps request)
  unfolding remove
  remove-Preserves request =
      search (preserving, read_json-Preserves, property-Preserves, keyed-Preserves) depth 8
    where
      keyed-Preserves :
          (key : Option Text) → Preserves (ContactsAllowed deps) (remove_keyed deps key)
      keyed-Preserves none = search preserving
      keyed-Preserves (some key) = search (preserving, frame deps, budget-Preserves) depth 9

  -- The endpoint of a registration that passes the tests is allowed.
  abbrev AskedAllowed : Asked → Type 0
  AskedAllowed a = allowed_endpoint deps a.subscription.endpoint ≡ true

  invalid-Preserves : {A : Type 0} → Preserves (ContactsAllowed deps) (invalid deps {A = A})
  invalid-Preserves = search preserving

  checked-Preserves :
      (delivery management endpoint p256dh auth : Text) (generation : Option Json)
      → Preserves
          (ContactsAllowed deps)
          (checked deps delivery management endpoint p256dh auth generation)
  checked-Preserves delivery management endpoint p256dh auth generation =
      Preserves-if (text_eq delivery management || not (allowed_endpoint deps endpoint)) _ _
        (λ _. invalid-Preserves)
        (λ _.
          Preserves-option (valid_generation generation) _ _ invalid-Preserves
            (λ g. search preserving))

  passed : (a b : Bool) → (a || not b) ≡ false → b ≡ true
  passed a b h = ground arith

  checked-AskedAllowed :
      (delivery management endpoint p256dh auth : Text) (generation : Option Json)
      → Yields AskedAllowed (checked deps delivery management endpoint p256dh auth generation)
  checked-AskedAllowed delivery management endpoint p256dh auth generation =
      Yields-if (text_eq delivery management || not (allowed_endpoint deps endpoint)) _ _
        (λ _. Yields-throw _)
        (λ h. Yields-option (valid_generation generation) _ _ (Yields-throw _) (λ g.
          Yields-if (ltb 256 (length p256dh) || ltb 128 (length auth)) _ _ (λ _. Yields-throw _)
            (λ _. Yields-pure _ (passed (text_eq delivery management) _ h))))

  all_checked :
      (delivery management endpoint p256dh auth : Option Text) (generation : Option Json)
      → Preserves
          (ContactsAllowed deps)
          (checked? deps delivery management endpoint p256dh auth generation)
        × Yields AskedAllowed (checked? deps delivery management endpoint p256dh auth generation)
  all_checked (some d) (some m) (some e) (some p) (some a) g =
      (checked-Preserves d m e p a g, checked-AskedAllowed d m e p a g)
  all_checked none m e p a g = (invalid-Preserves, Yields-throw _)
  all_checked (some d) none e p a g = (invalid-Preserves, Yields-throw _)
  all_checked (some d) (some m) none p a g = (invalid-Preserves, Yields-throw _)
  all_checked (some d) (some m) (some e) none a g = (invalid-Preserves, Yields-throw _)
  all_checked (some d) (some m) (some e) (some p) none g = (invalid-Preserves, Yields-throw _)

  asked-Preserves : (body : Json) → Preserves (ContactsAllowed deps) (asked deps body)
  unfolding asked
  asked-Preserves body =
      Preserves-bind (property body (codes "subscription")) _ (property-Preserves deps body _)
        (λ subscription. (all_checked _ _ _ _ _ _).0)

  asked-AskedAllowed : (body : Json) → Yields AskedAllowed (asked deps body)
  unfolding asked
  asked-AskedAllowed body =
      Yields-bind (property body (codes "subscription")) _
        (λ subscription. (all_checked _ _ _ _ _ _).1)

  send_challenge-Preserves :
      (a : Asked) (challenge challenge_hash : Text)
      → allowed_endpoint deps a.subscription.endpoint ≡ true
      → Preserves (ContactsAllowed deps) (send_challenge deps a challenge challenge_hash)
  unfolding send_challenge
  send_challenge-Preserves a challenge challenge_hash h =
      search (preserving, frame deps, budget-Preserves, send-Preserves) depth 12

  started-Preserves :
      (a : Asked) (challenge challenge_hash : Text) (outcome : RegistrationStartOutcome)
      → allowed_endpoint deps a.subscription.endpoint ≡ true
      → Preserves (ContactsAllowed deps) (started deps a challenge challenge_hash outcome)
  started-Preserves a c ch RegistrationStartOutcome.challenge_required h =
      send_challenge-Preserves a c ch h
  started-Preserves a c ch RegistrationStartOutcome.active h = search preserving
  started-Preserves a c ch RegistrationStartOutcome.management_conflict h = search preserving
  started-Preserves a c ch RegistrationStartOutcome.revoked h = search preserving
  started-Preserves a c ch RegistrationStartOutcome.capacity_exceeded h = search preserving
  started-Preserves a c ch RegistrationStartOutcome.pending_capacity_exceeded h = search preserving

  register-Preserves :
      (request : Request) → Preserves (ContactsAllowed deps) (register deps request)
  unfolding register
  register-Preserves request =
      Preserves-bind (read_json deps request) _ (read_json-Preserves deps request) (λ body.
        Preserves-bind_yield AskedAllowed (asked deps body) _ (asked-Preserves body)
          (asked-AskedAllowed body)
          (λ a h.
            search (preserving, frame deps, budget-Preserves, cleanup-Preserves, started-Preserves)
              depth 14))

  pub change_subscription-Preserves :
      (request : Request) → Preserves (ContactsAllowed deps) (change_subscription deps request)
  unfolding change_subscription
  change_subscription-Preserves request =
      search
        (
          preserving, configured-Preserves, assert_same_origin-Preserves, confirm-Preserves,
          remove-Preserves, register-Preserves,
        )
        depth 9
