-- ===== src/Vault/Sound/Session.antt =====
-- What a session has that `normalizePersistedSession` of lib/security/session-vault-format.ts returns.
use sub_etha.Prelude.{
  ℕ, ◌*◌, ◌≡◌, ap, subst, Text, codes, is_empty, length, ltb, ◌==◌, Bool, true, false, not, ◌||◌,
  Option, none, some, is_some, Outcome, ok, refused, out_of_fuel, Yields->>=, refuse_if-eq-ok,
  ok-injective, unless-eq-ok, arith,
}
use sub_etha.Matrix.UrlPolicy.Allowed.{IsAllowed, assert_allowed_homeserver_url_iff}
use sub_etha.Matrix.UrlPolicy.{WebPlatform, InsecureHomeserver, without_slash}
use sub_etha.Push.Gateway.{Url}
use sub_etha.Vault.Oauth.{OauthContext, if_defined, normalize_oauth}
use sub_etha.Vault.Records.{or_corrupt, exactly, validate_encoded}
use sub_etha.Vault.Session.{
  AuthKind, PersistedMatrixSession, auth_kind_of, known_prefix, valid_prefix, is_oauth,
  is_inconsistent, as_corrupt, required_session_keys, optional_session_keys, default_policy, expiry,
  checked_base_url, finish_session, normalize_persisted_session,
}
use sub_etha.Vault.Slots.{is_crypto_database_prefix}
use sub_etha.Vault.Sound.{IsEncoded}
use sub_etha.Vault.Base64.{decode_text}
use sub_etha.Vault.Stored.{
  Stored, str, Fields, field_of, record_fields, exact_keys, required_string, optional_string,
  corrupt, bounded_text,
}

module _ (platform : WebPlatform) where
  -- The record names a homeserver whose parsed address the policy allows, and the session has it; with a
  -- key of 32 bytes, a database of the application, and an OAuth context exactly for an OAuth sign-in.
  abbrev pub IsSession : Fields → PersistedMatrixSession → Type 0
  IsSession fields s =
      ((raw : Text) × (url : Url) × (field_of fields (codes "baseUrl") ≡ str raw)
        × (platform.parse_url raw ≡ some url)
        × IsAllowed platform default_policy url
        × (s.base_url ≡ without_slash platform url.href))
      × IsEncoded s.crypto_storage_key (exactly 32)
      × (is_crypto_database_prefix s.crypto_database_prefix ≡ true)
      × (is_oauth s.auth_kind ≡ is_some s.oauth)

  as_corrupt-eq-ok :
      (o : Outcome InsecureHomeserver Text) {address : Text}
      → as_corrupt o ≡ ok address
      → o ≡ ok address
  as_corrupt-eq-ok (ok a) h = ap ok (ok-injective h)
  as_corrupt-eq-ok (refused e) h = absurd cc
  as_corrupt-eq-ok out_of_fuel h = absurd cc

  bounded_text_same : (s raw : Text) (maximum : ℕ) → bounded_text s maximum ≡ ok raw → s ≡ raw
  bounded_text_same s raw maximum h =
      (unless-eq-ok (length s == 0 || ltb maximum (length s)) corrupt s h).1

  required_string_text :
      (value : Stored) (raw : Text) (maximum : ℕ)
      → required_string value maximum ≡ ok raw
      → value ≡ str raw
  unfolding required_string
  required_string_text (str s) raw maximum h = ap str (bounded_text_same s raw maximum h)
  required_string_text _ raw maximum h = absurd cc

  checked_base_url_sound :
      (value : Stored) (address : Text)
      → checked_base_url platform value ≡ ok address
      → (raw : Text) × (url : Url) × (value ≡ str raw)
        × (platform.parse_url raw ≡ some url)
        × IsAllowed platform default_policy url
        × (address ≡ without_slash platform url.href)
  unfolding checked_base_url
  checked_base_url_sound value address h =
      let (raw, e, allowed) = Yields->>= (required_string value 4096) _ h in
      let (url, parsed, ok_url, same) =
        (assert_allowed_homeserver_url_iff platform default_policy raw address).0
          (as_corrupt-eq-ok _ allowed) in
      (raw, url, required_string_text value raw 4096 e, parsed, ok_url, same)

  second_holds : (a b : Bool) → (a || not b) ≡ false → b ≡ true
  second_holds a b h = ground arith

  valid_prefix_sound :
      (known : Option Text) (prefix : Text)
      → valid_prefix known ≡ ok prefix
      → is_crypto_database_prefix prefix ≡ true
  unfolding valid_prefix
  valid_prefix_sound none prefix h = absurd cc
  valid_prefix_sound (some p) prefix h =
      let (passed, same) =
        unless-eq-ok (is_empty p || not (is_crypto_database_prefix p)) corrupt p h in
      subst (λ q. is_crypto_database_prefix q ≡ true) same (second_holds (is_empty p) _ passed)

  validate_encoded_sound :
      (s : Text) (key : Text)
      → validate_encoded (str s) (exactly 32) ≡ ok key
      → IsEncoded key (exactly 32)
  unfolding validate_encoded
  validate_encoded_sound s key h =
      let (bytes, e, same) = Yields->>= (decode_text s (exactly 32)) _ h in
      subst (λ k. IsEncoded k (exactly 32)) (ok-injective same) (bytes, e)

  consistent :
      (kind : AuthKind) (context : Option OauthContext)
      → is_inconsistent kind context ≡ false
      → is_oauth kind ≡ is_some context
  consistent kind context h = ground arith

  finish_session_sound :
      (fields : Fields) (kind : AuthKind) (key prefix : Text) (expires_at : Option ℕ)
      (s : PersistedMatrixSession)
      → IsEncoded key (exactly 32)
      → is_crypto_database_prefix prefix ≡ true
      → finish_session platform fields kind key prefix expires_at ≡ ok s
      → IsSession fields s
  unfolding finish_session
  finish_session_sound fields kind key prefix expires_at s encoded named h =
      let (context, e, h1) =
        Yields->>= (if_defined (normalize_oauth platform) (field_of fields (codes "oauth"))) _ h in
      let (fits, h2) = refuse_if-eq-ok (is_inconsistent kind context) corrupt _ h1 in
      let (base_url, allowed, h3) =
        Yields->>= (checked_base_url platform (field_of fields (codes "baseUrl"))) _ h2 in
      let (user_id, e, h4) =
        Yields->>= (required_string (field_of fields (codes "userId")) 1024) _ h3 in
      let (device_id, e, h5) =
        Yields->>= (required_string (field_of fields (codes "deviceId")) 1024) _ h4 in
      let (access_token, e, h6) =
        Yields->>= (required_string (field_of fields (codes "accessToken")) (16 * 1024)) _ h5 in
      let (refresh_token, e, h7) =
        Yields->>= (optional_string (field_of fields (codes "refreshToken")) (16 * 1024)) _ h6 in
      subst (IsSession fields) (ok-injective h7) (
        checked_base_url_sound (field_of fields (codes "baseUrl")) base_url allowed,
        encoded,
        named,
        consistent kind context fits,
      )

or_corrupt-eq-ok : (o : Option Fields) (a : Fields) → or_corrupt o ≡ ok a → o ≡ some a
or_corrupt-eq-ok none a h = absurd cc
or_corrupt-eq-ok (some b) a h = ap some (ok-injective h)

-- A value for which `normalizePersistedSession` returns a session is an object whose `baseUrl` is a text
-- that parses to an URL that the URL policy allows, and the session's address is that URL's, without a
-- trailing slash; the session has a crypto storage key that is the canonical Base64URL of 32 bytes, a
-- crypto database name of the application, and an OAuth context exactly if its sign-in was one by OAuth.
pub normalize_persisted_session-IsSession :
    (platform : WebPlatform) (value : Stored) (derived_prefix : Option Text)
    (s : PersistedMatrixSession)
    → normalize_persisted_session platform value derived_prefix ≡ ok s
    → (fields : Fields) × (record_fields value ≡ some fields) × IsSession platform fields s
unfolding normalize_persisted_session
normalize_persisted_session-IsSession platform value derived_prefix s h =
    let (fields, is_record, h1) = Yields->>= (or_corrupt (record_fields value)) _ h in
    let (u, e, h2) =
      Yields->>= (exact_keys fields required_session_keys optional_session_keys) _ h1 in
    let (kind, e, h3) =
      Yields->>= (or_corrupt (auth_kind_of (field_of fields (codes "authKind")))) _ h2 in
    let (key_text, e, h4) =
      Yields->>= (required_string (field_of fields (codes "cryptoStorageKey")) 128) _ h3 in
    let (key, decoded, h5) = Yields->>= (validate_encoded (str key_text) (exactly 32)) _ h4 in
    let (known, e, h6) =
      Yields->>= (known_prefix derived_prefix (field_of fields (codes "cryptoDatabasePrefix"))) _
        h5 in
    let (prefix, named, h7) = Yields->>= (valid_prefix known) _ h6 in
    let (expires_at, e, h8) =
      Yields->>= (if_defined expiry (field_of fields (codes "expiresAt"))) _ h7 in
    (
      fields,
      or_corrupt-eq-ok (record_fields value) fields is_record,
      finish_session_sound platform fields kind key prefix expires_at s
          (validate_encoded_sound platform key_text key decoded)
          (valid_prefix_sound platform known prefix named) h8,
    )
