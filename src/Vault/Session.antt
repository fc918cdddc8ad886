-- ===== src/Vault/Session.antt =====
-- `normalizePersistedSession`, `stableStoreName` and `legacyStorageMetadata` of
-- lib/security/session-vault-format.ts.
use sub_etha.Prelude.{
  ℕ, ◌*◌, Text, codes, text_eq, is_empty, Bool, true, false, not, ◌&&◌, ◌||◌, List, [], ◌∷◌, ◌++◌,
  map, take, Option, none, some, if◌then◌else◌, is_some, Outcome, ok, refused, out_of_fuel, ◌>>=◌,
  ◌>>◌, refuse_if,
}
use sub_etha.Matrix.UrlPolicy.{
  WebPlatform, HomeserverUrlPolicy, InsecureHomeserver, assert_allowed_homeserver_url,
}
use sub_etha.Push.Gateway.{is_key_char}
use sub_etha.Vault.Oauth.{OauthContext, if_defined, normalize_oauth}
use sub_etha.Vault.Records.{
  Checked, VaultStorageMetadata, or_corrupt, is_text, positive_safe_integer, exactly,
  validate_encoded,
}
use sub_etha.Vault.Slots.{is_crypto_database_prefix, is_named}
use sub_etha.Vault.Stored.{
  Stored, undefined, str, Fields, field_of, record_fields, exact_keys, required_string,
  optional_string, corrupt,
}

pub data AuthKind : Type 0 where
  password sso token oauth : AuthKind

pub record PersistedMatrixSession : Type 0 where
  pub base_url : Text
  pub user_id : Text
  pub device_id : Text
  pub access_token : Text
  pub refresh_token : Option Text
  pub expires_at : Option ℕ
  pub auth_kind : AuthKind
  pub crypto_storage_key : Text
  pub crypto_database_prefix : Text
  pub oauth : Option OauthContext

unfoldable pub auth_kind_of : Stored → Option AuthKind
unfolding text_eq
auth_kind_of value =
    if is_text value (codes "password")
    then some password
    else if is_text value (codes "sso")
    then some sso
    else if is_text value (codes "token")
    then some token
    else if is_text value (codes "oauth")
    then some AuthKind.oauth
    else none

-- `cryptoDatabasePrefix && storedPrefix !== cryptoDatabasePrefix`
abbrev pub differs : Option Text → Text → Bool
differs none stored = false
differs (some derived) stored = not (is_empty derived) && not (text_eq stored derived)

-- The prefix that is stored, or the one that the caller derived.
unfoldable pub known_prefix : Option Text → Stored → Checked (Option Text)
unfolding required_string is_named text_eq
known_prefix derived undefined = ok derived
known_prefix derived value = do
  stored ← required_string value 192
  refuse_if (not (is_crypto_database_prefix stored)) corrupt
  refuse_if (differs derived stored) corrupt
  ok (some stored)

-- `!prefix || !CRYPTO_DATABASE_PREFIX.test(prefix)` is an error, as a missing prefix is one where it is
-- required.
unfoldable pub valid_prefix : Option Text → Checked Text
unfolding is_named
valid_prefix none = refused corrupt
valid_prefix (some prefix) =
    if is_empty prefix || not (is_crypto_database_prefix prefix) then refused corrupt else ok prefix

abbrev pub is_oauth : AuthKind → Bool
is_oauth AuthKind.oauth = true
is_oauth _ = false

-- `(authKind === "oauth") !== Boolean(oauth)`
abbrev pub is_inconsistent : AuthKind → Option OauthContext → Bool
is_inconsistent kind context = if is_oauth kind then not (is_some context) else is_some context

abbrev pub as_corrupt : Outcome InsecureHomeserver Text → Checked Text
as_corrupt (ok address) = ok address
as_corrupt (refused e) = refused corrupt
as_corrupt out_of_fuel = out_of_fuel

abbrev pub required_session_keys : List Text
required_session_keys =
    codes "baseUrl"
    ∷ codes "userId"
    ∷ codes "deviceId"
    ∷ codes "accessToken"
    ∷ codes "authKind"
    ∷ codes "cryptoStorageKey"
    ∷ []

abbrev pub optional_session_keys : List Text
optional_session_keys =
    codes "refreshToken" ∷ codes "expiresAt" ∷ codes "oauth" ∷ codes "cryptoDatabasePrefix" ∷ []

abbrev pub default_policy : HomeserverUrlPolicy
default_policy = record { app_origin = none; production = none }

-- A positive safe integer is the only number that passes the three tests of the expiry.
abbrev pub expiry : Stored → Checked ℕ
expiry value = or_corrupt (positive_safe_integer value)

module _ (platform : WebPlatform) where
  unfoldable pub checked_base_url : Stored → Checked Text
  unfolding required_string assert_allowed_homeserver_url
  checked_base_url value = do
    raw ← required_string value 4096
    as_corrupt (assert_allowed_homeserver_url platform raw default_policy)

  -- From the context on, with what has been read before.
  unfoldable pub finish_session :
      Fields → AuthKind → (key prefix : Text) → Option ℕ → Checked PersistedMatrixSession
  unfolding field_of normalize_oauth checked_base_url required_string optional_string
  finish_session fields kind key prefix expires_at = do
    context ← if_defined (normalize_oauth platform) (field_of fields (codes "oauth"))
    refuse_if (is_inconsistent kind context) corrupt
    base_url ← checked_base_url (field_of fields (codes "baseUrl"))
    user_id ← required_string (field_of fields (codes "userId")) 1024
    device_id ← required_string (field_of fields (codes "deviceId")) 1024
    access_token ← required_string (field_of fields (codes "accessToken")) (16 * 1024)
    refresh_token ← optional_string (field_of fields (codes "refreshToken")) (16 * 1024)
    ok (record {
      base_url = base_url;
      user_id = user_id;
      device_id = device_id;
      access_token = access_token;
      refresh_token = refresh_token;
      expires_at = expires_at;
      auth_kind = kind;
      crypto_storage_key = key;
      crypto_database_prefix = prefix;
      oauth = context;
    })

  unfoldable pub normalize_persisted_session :
      Stored → (derived_prefix : Option Text) → Checked PersistedMatrixSession
  unfolding exact_keys field_of auth_kind_of required_string validate_encoded known_prefix
      valid_prefix positive_safe_integer finish_session
  normalize_persisted_session value derived_prefix = do
    fields ← or_corrupt (record_fields value)
    exact_keys fields required_session_keys optional_session_keys
    kind ← or_corrupt (auth_kind_of (field_of fields (codes "authKind")))
    key_text ← required_string (field_of fields (codes "cryptoStorageKey")) 128
    key ← validate_encoded (str key_text) (exactly 32)
    known ← known_prefix derived_prefix (field_of fields (codes "cryptoDatabasePrefix"))
    prefix ← valid_prefix known
    expires_at ← if_defined expiry (field_of fields (codes "expiresAt"))
    finish_session fields kind key prefix expires_at

unfoldable pub stable_store_name : (user_id device_id : Text) → Text
unfolding is_key_char
stable_store_name user_id device_id =
    take 120 (map (λ c. if is_key_char c then c else b'_') (user_id ++ (b'-' ∷ device_id)))

unfoldable pub legacy_storage_metadata : (user_id device_id : Text) → VaultStorageMetadata
unfolding stable_store_name
legacy_storage_metadata user_id device_id = record {
  crypto_database_prefix = codes "sub-etha-crypto-" ++ stable_store_name user_id device_id;
  legacy_sync_database =
      some (codes "matrix-js-sdk:sub-etha-sync-" ++ stable_store_name user_id device_id);
}
