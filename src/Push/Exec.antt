-- ===== src/Push/Exec.antt =====
-- The handlers of lib/push-server.ts as actions: what one does to the store and the world, and a value,
-- a `Response` that is thrown, or an error with the status code that `statusCode` reads from it.
pub mod Preserves
use Prim.Native.String.{String}
use sub_etha.Prelude.{ℕ, ◌+◌, Text, Bool, Option, none, some, List, [], ◌∷◌, ◌++◌}
use sub_etha.Json.{Json}
use sub_etha.Push.Tables.{StoredPushSubscription}
use sub_etha.Push.Gateway.{NotificationPayload, GatewayPlatform}
use sub_etha.Push.Repository.{PushRepository, Query}

pub data Body : Type 0 where
  plain_text : String → Body  -- not JSON
  error : String → Body
  matrix_error : String → String → Body
  public_key : Text → Body
  registered pending removed sent : Body
  rejected : List Text → Body

pub record Response : Type 0 where
  pub status : ℕ
  pub body : Body
  pub retry_after : Option ℕ

pub data Message : Type 0 where
  notification : NotificationPayload → Message
  challenge : Text → Option Text → Message

-- One call of the push service.
pub record Outgoing : Type 0 where
  pub target : StoredPushSubscription
  pub message : Message

pub data SendResult : Type 0 where
  accepted : SendResult
  failed_with : ℕ → SendResult

-- The entries of the log, without their durations.
pub data LogEntry : Type 0 where
  route : String → ℕ → LogEntry
  budget_denied : Text → LogEntry
  cleaned_up : ℕ → LogEntry
  summary : (is_event : Bool) → (sent suppressed rejected transient devices : ℕ) → LogEntry

pub record World (S : Type 0) : Type 0 where
  pub store : S
  pub readings : ℕ  -- calls of `now`
  pub challenges : ℕ  -- calls of `randomCapability`
  pub contacted : List Outgoing
  pub logs : List LogEntry

pub record PushConfiguration : Type 0 where
  pub public_key : Text
  pub private_key : Text
  pub subject : Text

pub record PushLimits : Type 0 where
  pub max_subscriptions : ℕ
  pub max_revoked_management_keys : ℕ
  pub registration_per_ten_minutes : ℕ
  pub tests_per_minute : ℕ
  pub notify_per_minute : ℕ
  pub deliveries_per_minute : ℕ

-- The dependencies of `createPushServer`, with what the platform provides: `JSON.parse` of the decoded
-- body, the digest of a capability, the clock's and the generator's values by number of calls, and the
-- push service's answer to a call after those before it.
pub record Dependencies (S : Type 0) : Type 0 where
  pub repository : PushRepository S
  pub platform : GatewayPlatform
  pub push_hosts : List Text
  pub parse_json : List ℕ → Option Json
  pub hash_capability : Text → Text
  pub time : ℕ → ℕ
  pub capability : ℕ → Text
  pub push_service : List Outgoing → Outgoing → SendResult
  pub configuration : Option PushConfiguration
  pub limits : PushLimits

pub data Result (A : Type 0) : Type 0 where
  ok : A → Result A
  thrown : Response → Result A
  failed : ℕ → Result A

abbrev pub Exec : Type 0 → Type 0 → Type 0
Exec S A = World S → Result A × World S

module _ {S : Type 0} where
  unfoldable pub pure : {A : Type 0} → A → Exec S A
  pure a w = (ok a, w)

  unfoldable pub throw : {A : Type 0} → Response → Exec S A
  throw r w = (thrown r, w)

  abbrev pub resume : {A B : Type 0} → (A → Exec S B) → Result A × World S → Result B × World S
  resume f (ok a, w) = f a w
  resume f (thrown e, w) = (thrown e, w)
  resume f (failed n, w) = (failed n, w)

  infixl 5 ◌>>=◌ ◌>>◌
  unfoldable pub ◌>>=◌ : {A B : Type 0} → Exec S A → (A → Exec S B) → Exec S B
  ◌>>=◌ m f w = resume f (m w)

  unfoldable pub ◌>>◌ : {A B : Type 0} → Exec S A → Exec S B → Exec S B
  unfolding ◌>>=◌
  m >> k = m >>= λ _. k

  -- `try { m } catch { … }`: the handler is given the status code, 0 for what has none.
  abbrev pub recover : {A : Type 0} → (ℕ → Exec S A) → Result A × World S → Result A × World S
  recover handler (ok a, w) = (ok a, w)
  recover handler (thrown e, w) = handler 0 w
  recover handler (failed n, w) = handler n w

  unfoldable pub catch : {A : Type 0} → Exec S A → (ℕ → Exec S A) → Exec S A
  catch m handler w = recover handler (m w)

  -- `await` on the repository.
  abbrev pub answered : {A : Type 0} → World S → Option (A × S) → Result A × World S
  answered w none = (failed 0, w)
  answered w (some (a, s)) = (ok a, record w { store = s })

  unfoldable pub query : {A : Type 0} → Query S A → Exec S A
  query q w = answered w (q w.store)

  unfoldable pub write_log : LogEntry → Exec S Unit
  write_log entry w = (ok tt, record w { logs = w.logs ++ entry ∷ [] })

  module _ (deps : Dependencies S) where
    unfoldable pub read_clock : Exec S ℕ
    read_clock w = (ok (deps.time w.readings), record w { readings = w.readings + 1 })

    unfoldable pub random_capability : Exec S Text
    random_capability w =
        (ok (deps.capability w.challenges), record w { challenges = w.challenges + 1 })

    abbrev pub sending : SendResult → Result Unit
    sending accepted = ok tt
    sending (failed_with n) = failed n

    -- `sendNotification`
    unfoldable pub send_notification : StoredPushSubscription → Message → Exec S Unit
    send_notification target message w =
        let call : Outgoing = record { target = target; message = message } in
        (
          sending (deps.push_service w.contacted call),
          record w { contacted = w.contacted ++ call ∷ [] },
        )
