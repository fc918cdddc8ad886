-- ===== src/Push/Server/Refusals.antt =====
-- The refusals of the push server, and its callbacks with counts only.
use Prim.Native.String.{String}
use sub_etha.Prelude.{
  is_empty, ℕ, ◌≡◌, refl, ap, ◌∙◌, text_eq, Bool, false, ◌&&◌, not, List, [], ◌∷◌, ◌++◌, none, some,
  if_no, is_some, holds,
}
use sub_etha.Json.{Json}
use sub_etha.Push.Exec.{
  Body, Response, LogEntry, World, Outgoing, Dependencies, PushConfiguration, Exec, pure, throw,
  query, ◌>>=◌, ◌>>◌, ok, thrown, resume,
}
use sub_etha.Push.Exec.Preserves.{Preserves, IsFramed, preserving, Preserves-bind, Preserves-query}
use sub_etha.Push.Server.{Request, json, plain, assert_same_origin, configured, guarded, settled}
use sub_etha.Push.Server.Subscriptions.{change_subscription}
use sub_etha.Push.Server.TestSend.{test_notification}
use sub_etha.Push.Server.Deliver.{event_of}
use sub_etha.Push.Server.Notify.{notify_devices, summarize}
use sub_etha.Push.Server.Handlers.{vapid_key, subscriptions, test, get_vapid_key, serve}

-- The request names its own origin.
abbrev pub is_same_origin : Request → Bool
is_same_origin request =
    holds (λ origin. not (is_empty origin) && text_eq origin request.url_origin) request.origin

-- The log after a call has been answered.
abbrev pub noted : {S : Type 0} → String → ℕ → World S → World S
noted name status w = record w { logs = w.logs ++ LogEntry.route name status ∷ [] }

abbrev pub cross_origin : Response
cross_origin = plain "Cross-origin push changes are not allowed." 403

abbrev pub unconfigured : Response
unconfigured = json (Body.error "Web Push is not configured.") 503

module _ {S : Type 0} (deps : Dependencies S) where
  foreign_throws :
      (request : Request) (w : World S)
      → is_same_origin request ≡ false
      → assert_same_origin deps request w ≡ (thrown cross_origin, w)
  unfolding assert_same_origin throw
  foreign_throws request w h =
      if_no (λ (m : Exec S Unit). m w ≡ (thrown cross_origin, w)) (is_same_origin request) _ _ h
        refl

  configured_returns :
      (c : PushConfiguration) (w : World S)
      → deps.configuration ≡ some c
      → configured deps w ≡ (ok c, w)
  unfolding configured pure
  configured_returns c w h = rw h refl

  missing_throws :
      (w : World S) → deps.configuration ≡ none → configured deps w ≡ (thrown unconfigured, w)
  unfolding configured throw
  missing_throws w h = rw h refl

  gated :
      (name : String) (request : Request) (k : Exec S Response) (c : PushConfiguration)
      (w : World S)
      → deps.configuration ≡ some c
      → is_same_origin request ≡ false
      → guarded name (configured deps >> (assert_same_origin deps request >> k)) w
        ≡ (cross_origin, noted name 403 w)
  unfolding guarded ◌>>=◌ ◌>>◌
  gated name request k c w set foreign =
      ap (λ r. settled name (resume (λ _. assert_same_origin deps request >> k) r))
        (configured_returns c w set)
      ∙ ap (λ r. settled name (resume (λ _. k) r)) (foreign_throws request w foreign)

  -- A configured server answers a change of a subscription, or a test, that does not name the server's
  -- own origin with 403, and changes nothing but its log.
  pub serve-foreign :
      (request : Request) (c : PushConfiguration) (w : World S)
      → deps.configuration ≡ some c
      → is_same_origin request ≡ false
      → (serve deps (subscriptions request) w ≡ (cross_origin, noted "subscriptions" 403 w))
        × (serve deps (test request) w ≡ (cross_origin, noted "test" 403 w))
  unfolding serve change_subscription test_notification
  serve-foreign request c w set foreign =
      (gated "subscriptions" request _ c w set foreign, gated "test" request _ c w set foreign)

  missing :
      (name : String) (f : PushConfiguration → Exec S Response) (w : World S)
      → deps.configuration ≡ none
      → guarded name (configured deps >>= f) w ≡ (unconfigured, noted name 503 w)
  unfolding guarded ◌>>=◌
  missing name f w unset = ap (λ r. settled name (resume f r)) (missing_throws w unset)

  -- A server that is not configured answers a request for its key, a change of a subscription and a test
  -- with 503, and changes nothing but its log.
  pub serve-unconfigured :
      (request : Request) (w : World S)
      → deps.configuration ≡ none
      → (serve deps vapid_key w ≡ (unconfigured, noted "vapid-key" 503 w))
        × (serve deps (subscriptions request) w ≡ (unconfigured, noted "subscriptions" 503 w))
        × (serve deps (test request) w ≡ (unconfigured, noted "test" 503 w))
  unfolding serve get_vapid_key change_subscription test_notification ◌>>◌
  serve-unconfigured request w unset =
      (missing "vapid-key" _ w unset, missing "subscriptions" _ w unset, missing "test" _ w unset)

  -- The calls of the push service are those of before.
  abbrev Quiet : List Outgoing → World S → Type 0
  Quiet calls w = w.contacted ≡ calls

  Quiet-frame : (calls : List Outgoing) → IsFramed (Quiet calls)
  Quiet-frame calls = record {
    on_store = λ w s h. h;
    on_logs = λ w ls h. h;
    on_readings = λ w n h. h;
    on_challenges = λ w n h. h;
  }

  counts_only-Preserves :
      (calls : List Outgoing) (notification : Json) (devices : List Json)
      → is_some (event_of notification) ≡ false
      → Preserves (Quiet calls) (notify_devices deps notification devices)
  unfolding notify_devices summarize
  counts_only-Preserves calls notification devices h =
      Preserves-bind (query _) _ (Preserves-query (Quiet-frame calls) _) (λ snapshots.
        if_no (Preserves (Quiet calls)) (is_some (event_of notification)) _ _ h
          (search (preserving, Quiet-frame calls) depth 8))

  -- A notification without an event contacts nobody, whatever devices it names and whatever the store
  -- holds.
  pub notify_devices-contacted :
      (notification : Json) (devices : List Json) (w : World S)
      → is_some (event_of notification) ≡ false
      → (notify_devices deps notification devices w).1.contacted ≡ w.contacted
  notify_devices-contacted notification devices w h =
      (counts_only-Preserves w.contacted notification devices h).after w refl
