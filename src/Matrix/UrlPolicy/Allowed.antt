-- ===== src/Matrix/UrlPolicy/Allowed.antt =====
-- The homeserver addresses that lib/matrix/url-policy.ts lets through.
use sub_etha.Prelude.{
  ◌≡◌, refl, ◌↔◌, ◌⊎◌, Text, codes, text_eq_iff, is_empty, true, false, Option, none, some, ok,
  refused, arith,
}
use sub_etha.Push.Gateway.{Url}
use sub_etha.Matrix.UrlPolicy.{
  WebPlatform, HomeserverUrlPolicy, is_loopback_hostname, app_url, is_production, on_loopback,
  without_slash, assert_allowed_url, assert_allowed_homeserver_url, invalid_url,
}

module _ (platform : WebPlatform) (policy : HomeserverUrlPolicy) where
  -- No credentials, query or fragment, and HTTPS or a development server of this machine.
  abbrev pub IsAllowed : Url → Type 0
  IsAllowed url =
      (is_empty url.username ≡ true)
      × (is_empty url.password ≡ true)
      × (is_empty url.search ≡ true)
      × (is_empty url.hash ≡ true)
      × ((url.protocol ≡ codes "https:")
          ⊎ ((url.protocol ≡ codes "http:")
              × (is_production platform policy ≡ false)
              × (on_loopback platform (app_url platform policy) ≡ true)
              × (is_loopback_hostname platform url.hostname ≡ true)))

  assert_allowed_url_sound :
      (url : Url) (address : Text)
      → assert_allowed_url platform url policy ≡ ok address
      → IsAllowed url × (address ≡ without_slash platform url.href)
  unfolding assert_allowed_url
  assert_allowed_url_sound url address =
      ground
        (arith, text_eq_iff url.protocol (codes "https:"), text_eq_iff url.protocol (codes "http:"))

  assert_allowed_url_complete :
      (url : Url)
      → IsAllowed url
      → assert_allowed_url platform url policy ≡ ok (without_slash platform url.href)
  unfolding assert_allowed_url
  assert_allowed_url_complete url allowed =
      ground
        (arith, text_eq_iff url.protocol (codes "https:"), text_eq_iff url.protocol (codes "http:"))

  address_of_sound :
      (o : Option Url) (address : Text)
      → (elim o [ none ↦ refused invalid_url | some url ↦ assert_allowed_url platform url policy ])
        ≡ ok address
      → (url : Url) × (o ≡ some url) × IsAllowed url × (address ≡ without_slash platform url.href)
  address_of_sound none address h = absurd cc
  address_of_sound (some url) address h =
      let (allowed, e) = assert_allowed_url_sound url address h in (url, refl, allowed, e)

  address_of_complete :
      (o : Option Url) (address : Text)
      → ((url : Url) × (o ≡ some url) × IsAllowed url × (address ≡ without_slash platform url.href))
      → (elim o [ none ↦ refused invalid_url | some url ↦ assert_allowed_url platform url policy ])
        ≡ ok address
  address_of_complete o address (url, parsed, allowed, e) =
      rw (parsed, e) (assert_allowed_url_complete url allowed)

-- `assertAllowedHomeserverUrl` returns an address exactly for a URL without credentials, query and
-- fragment whose protocol is `https:`, or `http:` outside production with both the page and the
-- homeserver on a loopback host; the address is the URL's, without a slash at the end.
pub assert_allowed_homeserver_url_iff :
    (platform : WebPlatform) (policy : HomeserverUrlPolicy) (raw address : Text)
    → (assert_allowed_homeserver_url platform raw policy ≡ ok address) ↔ (
        (url : Url) × (platform.parse_url raw ≡ some url)
        × IsAllowed platform policy url
        × (address ≡ without_slash platform url.href))
unfolding assert_allowed_homeserver_url
assert_allowed_homeserver_url_iff platform policy raw address = (
  address_of_sound platform policy (platform.parse_url raw) address,
  address_of_complete platform policy (platform.parse_url raw) address,
)
