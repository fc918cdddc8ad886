-- ===== src/Vault/Oauth.antt =====
-- The OAuth context of a stored session: `safeHttpsUrl`, `stringArray` and `normalizeOAuth` of
-- lib/security/session-vault-format.ts.
use sub_etha.Prelude.{
  Text, codes, text_eq, is_empty, Bool, not, ◌&&◌, ◌||◌, List, [], ◌∷◌, Option, none, some, ltb,
  ◌==◌, length, any, ok, ◌>>=◌, ◌>>◌, refuse_if,
}
use sub_etha.Matrix.UrlPolicy.{WebPlatform, is_loopback_hostname}
use sub_etha.Push.Gateway.{Url}
use sub_etha.Vault.Records.{Checked, or_corrupt}
use sub_etha.Vault.Slots.{texts_of}
use sub_etha.Vault.Stored.{
  Stored, undefined, Fields, field_of, record_fields, dense_array, exact_keys, among,
  required_string, corrupt,
}

pub record OauthMetadata : Type 0 where
  pub authorization_endpoint : Text
  pub issuer : Text
  pub registration_endpoint : Text
  pub revocation_endpoint : Text
  pub token_endpoint : Text
  pub account_management_uri : Option Text
  pub device_authorization_endpoint : Option Text
  pub code_challenge_methods : List Text
  pub grant_types : List Text
  pub response_modes : List Text
  pub response_types : List Text
  pub account_management_actions : Option (List Text)
  pub prompt_values : Option (List Text)

pub record OauthContext : Type 0 where
  pub client_id : Text
  pub device_id : Text
  pub redirect_uri : Text
  pub metadata : OauthMetadata

-- `value !== undefined ? f(value) : undefined`
abbrev pub if_defined : {A : Type 0} → (Stored → Checked A) → Stored → Checked (Option A)
if_defined f undefined = ok none
if_defined f value = f value >>= λ a. ok (some a)

unfoldable pub string_array : Stored → Checked (List Text)
unfolding dense_array texts_of
string_array value = do
  values ← or_corrupt (dense_array value)
  refuse_if (ltb 64 (length values)) corrupt
  texts ← or_corrupt (texts_of values)
  refuse_if (any (λ t. length t == 0 || ltb 256 (length t)) texts) corrupt
  ok texts

unfoldable pub is_unsafe_https : Url → Bool
unfolding text_eq
is_unsafe_https url =
    not (text_eq url.protocol (codes "https:"))
    || not (is_empty url.username)
    || not (is_empty url.password)
    || not (is_empty url.hash)

-- The lists that name what the sign-in needs.
unfoldable pub is_incomplete : (methods grants modes types : List Text) → Bool
unfolding text_eq
is_incomplete methods grants modes types =
    not (among methods (codes "S256"))
    || not (among grants (codes "authorization_code"))
    || not (among grants (codes "refresh_token"))
    || not (among modes (codes "query"))
    || not (among modes (codes "fragment"))
    || not (among types (codes "code"))

module _ (platform : WebPlatform) where
  unfoldable pub safe_https_url : Stored → Checked Text
  unfolding required_string is_unsafe_https
  safe_https_url value = do
    candidate ← required_string value 4096
    url ← or_corrupt (platform.parse_url candidate)
    refuse_if (is_unsafe_https url) corrupt
    ok candidate

  unfoldable pub is_unsafe_redirect : Url → Bool
  unfolding text_eq is_loopback_hostname
  is_unsafe_redirect url =
      not (text_eq url.protocol (codes "https:") || text_eq url.protocol (codes "http:"))
      || (text_eq url.protocol (codes "http:") && not (is_loopback_hostname platform url.hostname))
      || not (is_empty url.username)
      || not (is_empty url.password)
      || not (is_empty url.hash)

  -- The issuer has been parsed before, so that its second parse does not throw.
  unfoldable pub normalize_metadata : Fields → Checked OauthMetadata
  unfolding field_of safe_https_url string_array is_incomplete
  normalize_metadata fields = do
    authorization ← safe_https_url (field_of fields (codes "authorization_endpoint"))
    issuer ← safe_https_url (field_of fields (codes "issuer"))
    registration ← safe_https_url (field_of fields (codes "registration_endpoint"))
    revocation ← safe_https_url (field_of fields (codes "revocation_endpoint"))
    token ← safe_https_url (field_of fields (codes "token_endpoint"))
    issuer_url ← or_corrupt (platform.parse_url issuer)
    refuse_if (not (is_empty issuer_url.search)) corrupt
    management ← if_defined safe_https_url (field_of fields (codes "account_management_uri"))
    device ← if_defined safe_https_url (field_of fields (codes "device_authorization_endpoint"))
    methods ← string_array (field_of fields (codes "code_challenge_methods_supported"))
    grants ← string_array (field_of fields (codes "grant_types_supported"))
    modes ← string_array (field_of fields (codes "response_modes_supported"))
    types ← string_array (field_of fields (codes "response_types_supported"))
    actions ←
        if_defined string_array (field_of fields (codes "account_management_actions_supported"))
    prompts ← if_defined string_array (field_of fields (codes "prompt_values_supported"))
    refuse_if (is_incomplete methods grants modes types) corrupt
    ok (record {
      authorization_endpoint = authorization;
      issuer = issuer;
      registration_endpoint = registration;
      revocation_endpoint = revocation;
      token_endpoint = token;
      account_management_uri = management;
      device_authorization_endpoint = device;
      code_challenge_methods = methods;
      grant_types = grants;
      response_modes = modes;
      response_types = types;
      account_management_actions = actions;
      prompt_values = prompts;
    })

  abbrev pub oauth_keys : List Text
  oauth_keys = codes "clientId" ∷ codes "deviceId" ∷ codes "redirectUri" ∷ codes "metadata" ∷ []

  unfoldable pub normalize_oauth : Stored → Checked OauthContext
  unfolding exact_keys field_of required_string normalize_metadata is_unsafe_redirect
  normalize_oauth value = do
    fields ← or_corrupt (record_fields value)
    exact_keys fields oauth_keys []
    inner ← or_corrupt (record_fields (field_of fields (codes "metadata")))
    metadata ← normalize_metadata inner
    redirect_uri ← required_string (field_of fields (codes "redirectUri")) 4096
    redirect ← or_corrupt (platform.parse_url redirect_uri)
    refuse_if (is_unsafe_redirect redirect) corrupt
    client_id ← required_string (field_of fields (codes "clientId")) 4096
    device_id ← required_string (field_of fields (codes "deviceId")) 1024
    ok (record {
      client_id = client_id;
      device_id = device_id;
      redirect_uri = redirect_uri;
      metadata = metadata;
    })
