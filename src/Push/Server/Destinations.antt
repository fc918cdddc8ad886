-- ===== src/Push/Server/Destinations.antt =====
-- Which endpoints `deliver`, and what it shares with the handlers, contact.
use Prim.Native.String.{String}
use sub_etha.Prelude.{ℕ, ◌≡◌, Text, Bool, true, false, List, Option, none, some, All, All-append}
use sub_etha.Json.{Json, null}
use sub_etha.Push.Tables.{StoredPushSubscription, PushSubscriptionSnapshot}
use sub_etha.Push.Exec.{
  Response, World, Message, Outgoing, Result, ok, thrown, failed, Dependencies, Exec,
  send_notification,
}
use sub_etha.Push.Exec.Preserves.{Preserves, IsFramed, preserving, Preserves-if, Preserves-option}
use sub_etha.Push.Server.{
  Request, note_budget, parsed, decoded, guarded, settled, allowed_endpoint, consume_budget,
  read_json, property, configured, assert_same_origin, cleanup_stale_subscriptions,
}
use sub_etha.Push.Server.Deliver.{
  event_of, own_push_key, attempt, after_failure, send_claimed, deliver_event, deliver_to, deliver,
  resolved_to, ResolvedPushDevice,
}

module _ {S : Type 0} (deps : Dependencies S) where
  -- Every endpoint that was contacted is one that the gateway allows.
  abbrev pub ContactsAllowed : World S → Type 0
  ContactsAllowed w = All (λ o. allowed_endpoint deps o.target.endpoint ≡ true) w.contacted

  pub frame : IsFramed ContactsAllowed
  frame = record {
    on_store = λ w s h. h;
    on_logs = λ w ls h. h;
    on_readings = λ w n h. h;
    on_challenges = λ w n h. h;
  }

  pub send-Preserves :
      (target : StoredPushSubscription) (message : Message)
      → allowed_endpoint deps target.endpoint ≡ true
      → Preserves ContactsAllowed (send_notification deps target message)
  unfolding send_notification
  send-Preserves target message h = record {
    after = λ w k.
        All-append (λ (o : Outgoing). allowed_endpoint deps o.target.endpoint ≡ true) w.contacted _
          k (h, tt);
  }

  note-Preserves :
      (bucket : Text) (allowed : Bool) → Preserves ContactsAllowed (note_budget deps bucket allowed)
  note-Preserves bucket true = search preserving
  note-Preserves bucket false = search (preserving, frame)

  pub budget-Preserves :
      (bucket : Text) (window limit : ℕ)
      → Preserves ContactsAllowed (consume_budget deps bucket window limit)
  unfolding consume_budget
  budget-Preserves bucket window limit = search (preserving, frame, note-Preserves)

  attempt-Preserves :
      (notification : Json) (key event : Text) (timestamp : ℕ) (snapshot : PushSubscriptionSnapshot)
      → allowed_endpoint deps snapshot.endpoint ≡ true
      → Preserves ContactsAllowed (attempt deps notification key event timestamp snapshot)
  unfolding attempt
  attempt-Preserves notification key event timestamp snapshot h =
      search (preserving, frame, send-Preserves) depth 8

  after_failure-Preserves :
      (key event : Text) (snapshot : PushSubscriptionSnapshot) (status : ℕ)
      → Preserves ContactsAllowed (after_failure deps key event snapshot status)
  unfolding after_failure
  after_failure-Preserves key event snapshot status = search (preserving, frame) depth 8

  send_claimed-Preserves :
      (notification : Json) (key event : Text) (timestamp : ℕ) (snapshot : PushSubscriptionSnapshot)
      → allowed_endpoint deps snapshot.endpoint ≡ true
      → Preserves ContactsAllowed (send_claimed deps notification key event timestamp snapshot)
  unfolding send_claimed
  send_claimed-Preserves notification key event timestamp snapshot h =
      search (preserving, frame, budget-Preserves, attempt-Preserves, after_failure-Preserves) depth
        8

  deliver_event-Preserves :
      (notification : Json) (key event : Text) (snapshot : PushSubscriptionSnapshot)
      → allowed_endpoint deps snapshot.endpoint ≡ true
      → Preserves ContactsAllowed (deliver_event deps notification key event snapshot)
  unfolding deliver_event
  deliver_event-Preserves notification key event snapshot h =
      search (preserving, frame, send_claimed-Preserves) depth 9

  deliver_to-Preserves :
      (notification : Json) (key : Text) (snapshot : PushSubscriptionSnapshot)
      → Preserves ContactsAllowed (deliver_to deps notification key snapshot)
  unfolding deliver_to
  deliver_to-Preserves notification key snapshot =
      Preserves-if (allowed_endpoint deps snapshot.endpoint) _ _
        (λ h.
          Preserves-option (event_of notification) _ _ (search preserving)
            (λ event. deliver_event-Preserves notification key event snapshot h))
        (λ _. search (preserving, frame))

  resolved_to-Preserves :
      (notification : Json) (key : Option Text) (snapshot : Option PushSubscriptionSnapshot)
      → Preserves ContactsAllowed (resolved_to deps notification key snapshot)
  resolved_to-Preserves notification none snapshot = search preserving
  resolved_to-Preserves notification (some key) none = search preserving
  resolved_to-Preserves notification (some key) (some snapshot) = search deliver_to-Preserves

  pub deliver-Preserves :
      (notification : Json) (resolved : ResolvedPushDevice)
      → Preserves ContactsAllowed (deliver deps notification resolved)
  unfolding deliver
  deliver-Preserves notification resolved =
      Preserves-option (own_push_key resolved.device) _ _ (search preserving)
        (λ pushkey. resolved_to-Preserves notification resolved.key_hash resolved.snapshot)

  parsed-Preserves : (v : Option Json) → Preserves ContactsAllowed (parsed deps v)
  parsed-Preserves none = search preserving
  parsed-Preserves (some v) = search preserving

  decoded-Preserves : (bs : Option (List ℕ)) → Preserves ContactsAllowed (decoded deps bs)
  decoded-Preserves none = search preserving
  decoded-Preserves (some bs) = parsed-Preserves (deps.parse_json bs)

  pub read_json-Preserves : (request : Request) → Preserves ContactsAllowed (read_json deps request)
  unfolding read_json
  read_json-Preserves request = search (preserving, decoded-Preserves)

  pub property-Preserves : (v : Json) (key : Text) → Preserves ContactsAllowed (property v key)
  unfolding property
  property-Preserves null key = record { after = λ w h. h }
  property-Preserves _ key = record { after = λ w h. h }

  pub assert_same_origin-Preserves :
      (request : Request) → Preserves ContactsAllowed (assert_same_origin deps request)
  unfolding assert_same_origin
  assert_same_origin-Preserves request = search preserving

  pub configured-Preserves : Preserves ContactsAllowed (configured deps)
  unfolding configured
  configured-Preserves =
      Preserves-option deps.configuration _ _ (search preserving) (λ c. search preserving)

  pub cleanup-Preserves : Preserves ContactsAllowed (cleanup_stale_subscriptions deps)
  unfolding cleanup_stale_subscriptions
  cleanup-Preserves = search (preserving, frame) depth 8

  pub guarded-ContactsAllowed :
      (name : String) (operation : Exec S Response) (w : World S)
      → Preserves ContactsAllowed operation
      → ContactsAllowed w
      → ContactsAllowed (guarded name operation w).1
  unfolding guarded
  guarded-ContactsAllowed name operation w k h = go (operation w) (k.after w h)
    where
      go :
          (r : Result Response × World S) → ContactsAllowed r.1 → ContactsAllowed (settled name r).1
      go (ok response, w') h' = h'
      go (thrown response, w') h' = h'
      go (failed n, w') h' = h'
