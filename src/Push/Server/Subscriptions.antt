-- ===== src/Push/Server/Subscriptions.antt =====
-- `changeSubscription` of lib/push-server.ts: PATCH confirms, DELETE removes, and any other method
-- registers.
use sub_etha.Prelude.{
  ◌+◌, Text, codes, text_eq, ◌||◌, not, Option, none, some, ltb, length, if◌then◌else◌,
}
use sub_etha.Json.{Json, get, get?, string_of}
use sub_etha.Push.Tables.{
  StoredPushSubscription, RegistrationStartOutcome, ConfirmationOutcome, DeletionOutcome,
}
use sub_etha.Push.Gateway.{is_key_text}
use sub_etha.Push.Registration.{Registration}
use sub_etha.Push.Exec.{
  Body, Message, Response, Dependencies, Exec, pure, throw, catch, query, read_clock,
  random_capability, send_notification, ◌>>=◌, ◌>>◌,
}
use sub_etha.Push.Server.{
  Request, json, json_retry, budget_outbound_deliveries, budget_subscription_mutations,
  one_minute_seconds, ten_minutes_seconds, registration_challenge_seconds, push_key, property,
  read_json, assert_same_origin, configured, consume_budget, cleanup_stale_subscriptions,
  allowed_endpoint,
}

abbrev pub confirmation_response : ConfirmationOutcome → Response
confirmation_response ConfirmationOutcome.invalid_challenge =
    json (Body.error "Push confirmation expired or was not recognized.") 410
confirmation_response ConfirmationOutcome.expired_challenge =
    json (Body.error "Push confirmation expired or was not recognized.") 410
confirmation_response ConfirmationOutcome.revoked =
    json (Body.error "Push confirmation expired or was not recognized.") 410
confirmation_response ConfirmationOutcome.capacity_exceeded =
    json_retry (Body.error "Push subscription capacity is temporarily full.") 503
confirmation_response _ = json Body.registered 200

abbrev pub deletion_response : DeletionOutcome → Response
deletion_response DeletionOutcome.capacity_exceeded =
    json_retry (Body.error "Push revocation capacity is temporarily full.") 503
deletion_response DeletionOutcome.not_found =
    json (Body.error "Push subscription was not found.") 404
deletion_response DeletionOutcome.removed = json Body.removed 200

-- A registration as its body asks for it, with the browser's generation.
pub record Asked : Type 0 where
  pub delivery_key : Text
  pub management_key : Text
  pub subscription : StoredPushSubscription
  pub generation : Option Text

abbrev pub valid_generation : Option Json → Option (Option Text)
valid_generation none = some none
valid_generation (some v) = elim (string_of (some v)) [
  | none ↦ none
  | some s ↦ if is_key_text 16 128 s then some (some s) else none
]

module _ {S : Type 0} (deps : Dependencies S) where
  open deps use {repository, limits, hash_capability}

  abbrev pub invalid : {A : Type 0} → Exec S A
  invalid = throw (json (Body.error "Invalid push subscription.") 400)

  abbrev pub confirm_keyed : Option Text → Exec S Response
  confirm_keyed none = pure (json (Body.error "Invalid push confirmation.") 400)
  confirm_keyed (some key) = do
    now ← read_clock deps
    outcome ← query (repository.confirm (hash_capability key) now limits.max_subscriptions)
    pure (confirmation_response outcome)

  unfoldable pub confirm : Request → Exec S Response
  confirm request = do
    body ← read_json deps request
    challenge ← property body (codes "challenge")
    confirm_keyed (push_key challenge)

  abbrev pub remove_keyed : Option Text → Exec S Response
  remove_keyed none = pure (json (Body.error "Invalid push management key.") 400)
  remove_keyed (some key) = do
    allowed ←
        consume_budget deps budget_subscription_mutations ten_minutes_seconds
          limits.registration_per_ten_minutes
    if allowed
        then (do
          now ← read_clock deps
          outcome ←
              query (repository.delete (hash_capability key) now limits.max_revoked_management_keys)
          pure (deletion_response outcome))
        else pure (json (Body.error "Push subscription rate limit exceeded.") 429)

  unfoldable pub remove : Request → Exec S Response
  remove request = do
    body ← read_json deps request
    management_key ← property body (codes "managementKey")
    remove_keyed (push_key management_key)

  abbrev pub checked : Text → Text → Text → Text → Text → Option Json → Exec S Asked
  checked delivery management endpoint p256dh auth generation =
      if text_eq delivery management || not (allowed_endpoint deps endpoint)
      then invalid
      else elim (valid_generation generation) [
        | none ↦ invalid
        | some g ↦
            if ltb 256 (length p256dh) || ltb 128 (length auth)
            then throw (json (Body.error "Invalid push subscription keys.") 400)
            else pure (record {
              delivery_key = delivery;
              management_key = management;
              subscription = record { endpoint = endpoint; p256dh = p256dh; auth = auth };
              generation = g;
            })
      ]

  abbrev pub checked? :
      Option Text
      → Option Text
      → Option Text
      → Option Text
      → Option Text
      → Option Json
      → Exec S Asked
  checked? (some delivery) (some management) (some endpoint) (some p256dh) (some auth) generation =
      checked delivery management endpoint p256dh auth generation
  checked? _ _ _ _ _ generation = invalid

  -- The tests on the body of a registration; the refusals that the source returns are thrown.
  unfoldable pub asked : Json → Exec S Asked
  asked body = do
    subscription ← property body (codes "subscription")
    let keys = get? subscription (codes "keys")
    checked? (push_key (get body (codes "deliveryKey")))
        (push_key (get body (codes "managementKey")))
        (string_of (get? subscription (codes "endpoint"))) (string_of (get? keys (codes "p256dh")))
        (string_of (get? keys (codes "auth"))) (get body (codes "generation"))

  abbrev pub registration : Asked → Registration
  registration a = record {
    delivery_key_hash = hash_capability a.delivery_key;
    management_key_hash = hash_capability a.management_key;
    subscription = a.subscription;
  }

  -- The confirmation that is sent to the endpoint that registers.
  unfoldable pub send_challenge : Asked → Text → Text → Exec S Response
  send_challenge a challenge challenge_hash = do
    allowed ←
        consume_budget deps budget_outbound_deliveries one_minute_seconds
          limits.deliveries_per_minute
    if allowed
        then catch
            (do
              send_notification deps a.subscription (Message.challenge challenge a.generation)
              pure (json Body.pending 202))
            (λ status. do
              query (repository.cancel_pending challenge_hash)
              pure (json (Body.error "The browser push endpoint could not be confirmed.") 502))
        else do
          query (repository.cancel_pending challenge_hash)
          pure (json (Body.error "Push confirmation capacity is temporarily busy.") 429)

  abbrev pub started : Asked → Text → Text → RegistrationStartOutcome → Exec S Response
  started a challenge challenge_hash RegistrationStartOutcome.active =
      pure (json Body.registered 200)
  started a challenge challenge_hash RegistrationStartOutcome.management_conflict = pure (
      json (Body.error "The delivery identifier is already managed by another browser capability.")
        409)
  started a challenge challenge_hash RegistrationStartOutcome.revoked =
      pure (json (Body.error "This push registration was revoked.") 410)
  started a challenge challenge_hash RegistrationStartOutcome.challenge_required =
      send_challenge a challenge challenge_hash
  started a challenge challenge_hash _ =
      pure (json_retry (Body.error "Push subscription capacity is temporarily full.") 503)

  unfoldable pub register : Request → Exec S Response
  register request = do
    body ← read_json deps request
    a ← asked body
    allowed ←
        consume_budget deps budget_subscription_mutations ten_minutes_seconds
          limits.registration_per_ten_minutes
    if allowed
        then (do
          cleanup_stale_subscriptions deps
          challenge ← random_capability deps
          now ← read_clock deps
          later ← read_clock deps
          outcome ← query (
              repository.begin_subscription_registration (registration a)
                (hash_capability challenge) now (later + registration_challenge_seconds)
                limits.max_subscriptions limits.registration_per_ten_minutes)
          started a challenge (hash_capability challenge) outcome)
        else pure (json (Body.error "Push subscription rate limit exceeded.") 429)

  -- The operation that `changeSubscription` guards.
  unfoldable pub change_subscription : Request → Exec S Response
  change_subscription request = do
    configured deps
    assert_same_origin deps request
    if text_eq request.method (codes "PATCH")
        then confirm request
        else if text_eq request.method (codes "DELETE")
        then remove request
        else register request
