-- ===== src/Push/Server.antt =====
-- `createPushServer` of lib/push-server.ts: the helpers that its handlers share. The handlers are in
-- the modules below, and the entry points in `sub_etha.Push.Server.Handlers`.
pub mod Deliver
pub mod Subscriptions
pub mod TestSend
pub mod Notify
pub mod Destinations
pub mod Handlers
pub mod Contacts
pub mod Refusals
pub mod Pool
pub mod Tests
use Prim.Native.String.{String}
use sub_etha.Prelude.{
  is_empty, ℕ, ◌+◌, ◌*◌, Text, codes, text_eq, Bool, true, false, ◌&&◌, ◌||◌, not, List, [], ◌∷◌,
  ◌++◌, Option, none, some, leb, ltb, ◌==◌, length, if◌then◌else◌, holds,
}
use sub_etha.Json.{Json, null, obj, str, get, string_of}
use sub_etha.Push.Gateway.{valid_push_key, valid_push_endpoint}
use sub_etha.Push.Repository.{PushRepository}
use sub_etha.Push.Exec.{
  Body, Response, LogEntry, World, Result, ok, thrown, failed, PushConfiguration, Dependencies,
  Exec, pure, throw, catch, query, write_log, read_clock, ◌>>=◌, ◌>>◌,
}

abbrev pub app_id : Text
app_id = codes "chat.subetha.pwa"

abbrev pub max_body_bytes : ℕ
max_body_bytes = 64 * 1024

abbrev pub max_devices_per_request : ℕ
max_devices_per_request = 50

abbrev pub delivery_retention_seconds : ℕ
delivery_retention_seconds = 7 * 24 * 60 * 60

abbrev pub pending_delivery_timeout_seconds : ℕ
pending_delivery_timeout_seconds = 120

abbrev pub rate_window_seconds : ℕ
rate_window_seconds = 60

abbrev pub rate_limit : ℕ
rate_limit = 120

abbrev pub stale_subscription_seconds : ℕ
stale_subscription_seconds = 30 * 24 * 60 * 60

abbrev pub stale_cleanup_batch : ℕ
stale_cleanup_batch = 500

abbrev pub ten_minutes_seconds : ℕ
ten_minutes_seconds = 10 * 60

abbrev pub one_minute_seconds : ℕ
one_minute_seconds = 60

abbrev pub retry_after_seconds : ℕ
retry_after_seconds = 60

abbrev pub registration_challenge_seconds : ℕ
registration_challenge_seconds = 10 * 60

abbrev pub budget_subscription_mutations : Text
budget_subscription_mutations = codes "subscription-mutations"

abbrev pub budget_test_sends : Text
budget_test_sends = codes "test-sends"

abbrev pub budget_matrix_notify : Text
budget_matrix_notify = codes "matrix-notify"

abbrev pub budget_outbound_deliveries : Text
budget_outbound_deliveries = codes "outbound-deliveries"

abbrev pub json : Body → ℕ → Response
json body status = record { status = status; body = body; retry_after = none }

-- `new Response(text, { status })`
abbrev pub plain : String → ℕ → Response
plain text status = record { status = status; body = Body.plain_text text; retry_after = none }

abbrev pub json_retry : Body → ℕ → Response
json_retry body status = record {
  status = status;
  body = body;
  retry_after = some retry_after_seconds;
}

-- The header `Content-Length` as `Number` reads it; a fraction counts as the next whole number.
pub data ContentLength : Type 0 where
  absent : ContentLength
  not_a_length : ContentLength  -- not finite, or negative
  bytes : ℕ → ContentLength

pub record Request : Type 0 where
  pub method : Text
  pub origin : Option Text
  pub url_origin : Text
  pub content_length : ContentLength
  pub chunks : List (List ℕ)

abbrev pub length_allowed : ContentLength → Bool
length_allowed absent = true
length_allowed not_a_length = false
length_allowed (bytes n) = leb n max_body_bytes

-- The loop over the body's chunks, from the bytes read so far; `none` is the limit.
unfoldable pub read_chunks : List ℕ → List (List ℕ) → Option (List ℕ)
read_chunks read [] = some read
read_chunks read (chunk ∷ chunks) =
    let rest = read_chunks (read ++ chunk) chunks in
    if ltb max_body_bytes (length read + length chunk) then none else rest

-- `validPushKey` of any value.
abbrev pub push_key : Option Json → Option Text
push_key v = elim (string_of v) [ none ↦ none | some s ↦ if valid_push_key s then some s else none ]

-- `(body as T).key`: a property of `null` throws.
unfoldable pub property : {S : Type 0} → Json → Text → Exec S (Option Json)
property null key w = (Result.failed 0, w)
property v key w = (Result.ok (get v key), w)

module _ {S : Type 0} (deps : Dependencies S) where
  open deps use {repository}

  abbrev pub parsed : Option Json → Exec S Json
  parsed none = throw (plain "Request body must be valid JSON." 400)
  parsed (some v) = pure v

  abbrev pub decoded : Option (List ℕ) → Exec S Json
  decoded none = throw (plain "Request body is too large." 413)
  decoded (some bs) = parsed (deps.parse_json bs)

  -- `readJson`
  unfoldable pub read_json : Request → Exec S Json
  read_json request =
      if length_allowed request.content_length
      then decoded (read_chunks [] request.chunks)
      else throw (plain "Request body is too large." 413)

  -- `assertSameOrigin`
  unfoldable pub assert_same_origin : Request → Exec S Unit
  assert_same_origin request =
      if holds (λ origin. not (is_empty origin) && text_eq origin request.url_origin) request.origin
      then pure tt
      else throw (plain "Cross-origin push changes are not allowed." 403)

  -- `configured`, thrown where the handlers return it.
  unfoldable pub configured : Exec S PushConfiguration
  configured = elim deps.configuration [
    | none ↦ throw (json (Body.error "Web Push is not configured.") 503)
    | some c ↦ pure c
  ]

  abbrev pub note_budget : Text → Bool → Exec S Bool
  note_budget bucket true = pure true
  note_budget bucket false = do write_log (LogEntry.budget_denied bucket); pure false

  unfoldable pub consume_budget : Text → (window limit : ℕ) → Exec S Bool
  consume_budget bucket window limit = do
    now ← read_clock deps
    allowed ← query (repository.consume_global bucket now window limit)
    note_budget bucket allowed

  unfoldable pub cleanup_stale_subscriptions : Exec S ℕ
  cleanup_stale_subscriptions = do
    now ← read_clock deps
    removed ←
        query (repository.clean_subscriptions now stale_subscription_seconds stale_cleanup_batch)
    if removed == 0 then pure removed else do write_log (LogEntry.cleaned_up removed); pure removed

  -- The endpoint of an outgoing call is one that the gateway may contact.
  abbrev pub allowed_endpoint : Text → Bool
  allowed_endpoint endpoint = valid_push_endpoint deps.platform deps.push_hosts endpoint

abbrev pub logged : {S : Type 0} → String → Response → World S → Response × World S
logged name response w =
    (response, record w { logs = w.logs ++ LogEntry.route name response.status ∷ [] })

abbrev pub settled : {S : Type 0} → String → Result Response × World S → Response × World S
settled name (ok response, w) = logged name response w
settled name (thrown response, w) = logged name response w
settled name (failed n, w) = logged name (json (Body.error "Push gateway operation failed.") 502) w

-- `guarded`: a thrown `Response` is the answer, and any other failure is a 502.
unfoldable pub guarded : {S : Type 0} → String → Exec S Response → World S → Response × World S
guarded name operation w = settled name (operation w)
