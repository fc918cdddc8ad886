-- ===== src/Matrix/UrlPolicy.antt =====
-- lib/matrix/url-policy.ts. The URL parser and `toLowerCase` are parameters; so are the origin of the
-- page and whether the build is one for production, where the caller gives none. The errors keep
-- their case, not their message.
pub mod Allowed
use sub_etha.Prelude.{
  ℕ, ◌+◌, ◌-◌, ◌*◌, Text, codes, text_eq, is_empty, Bool, true, false, not, ◌&&◌, ◌||◌, List, [],
  ◌∷◌, Option, none, some, if◌then◌else◌, leb, ◌==◌, length, all, split, drop, ends_with,
  starts_with, Outcome, ok, refused, take, ◌>>◌, refuse_if,
}
use sub_etha.Push.Gateway.{Url}

pub record WebPlatform : Type 0 where
  pub parse_url : Text → Option Url
  pub to_lower_case : Text → Text
  pub runtime_app_origin : Option Text
  pub runtime_production : Bool

pub record HomeserverUrlPolicy : Type 0 where
  pub app_origin : Option Text
  pub production : Option Bool

pub data InsecureHomeserver : Type 0 where
  invalid_url credentials query_or_fragment not_https not_loopback : InsecureHomeserver

-- `text.replace(/^\[|\]$/g, "")`
unfoldable pub without_brackets : Text → Text
unfolding starts_with ends_with
without_brackets s =
    let inner = if starts_with s (b'[' ∷ []) then drop 1 s else s in
    if ends_with inner (b']' ∷ []) then take (length inner - 1) inner else inner

-- `/^\d{1,3}$/`
unfoldable pub is_octet_text : Text → Bool
is_octet_text s = leb 1 (length s) && leb (length s) 3 && all (λ c. leb b'0' c && leb c b'9') s

-- `Number(text)` of digits.
unfoldable pub number_of : Text → ℕ → ℕ
number_of [] n = n
number_of (c ∷ s) n = number_of s (n * 10 + (c - b'0'))

abbrev pub head_number : List Text → ℕ
head_number [] = 0
head_number (s ∷ parts) = number_of s 0

module _ (platform : WebPlatform) where
  open platform use {parse_url, to_lower_case, runtime_app_origin, runtime_production}

  unfoldable pub is_loopback_hostname : Text → Bool
  unfolding split is_octet_text number_of text_eq without_brackets
  is_loopback_hostname raw =
      let hostname = without_brackets (to_lower_case raw) in
      let octets = split b'.' hostname in
      text_eq hostname (codes "localhost")
      || text_eq hostname (codes "::1")
      || (length octets == 4
          && all (λ octet. is_octet_text octet && leb (number_of octet 0) 255) octets
          && head_number octets == 127)

  abbrev pub origin_of : HomeserverUrlPolicy → Option Text
  origin_of policy = elim policy.app_origin [ none ↦ runtime_app_origin | some o ↦ some o ]

  -- The page's own address, where it is known and a URL.
  abbrev pub app_url : HomeserverUrlPolicy → Option Url
  app_url policy = elim (origin_of policy) [
    | none ↦ none
    | some o ↦ if is_empty o then none else parse_url o
  ]

  abbrev pub is_production : HomeserverUrlPolicy → Bool
  is_production policy = elim policy.production [ none ↦ runtime_production | some p ↦ p ]

  abbrev pub on_loopback : Option Url → Bool
  on_loopback none = false
  on_loopback (some url) = is_loopback_hostname url.hostname

  -- `href.replace(/\/$/, "")`
  unfoldable pub without_slash : Text → Text
  unfolding ends_with
  without_slash s = if ends_with s (b'/' ∷ []) then take (length s - 1) s else s

  -- Of a URL that has been parsed.
  unfoldable pub assert_allowed_url : Url → HomeserverUrlPolicy → Outcome InsecureHomeserver Text
  unfolding is_loopback_hostname text_eq without_slash
  assert_allowed_url url policy =
      if not (is_empty url.username) || not (is_empty url.password)
      then refused credentials
      else if not (is_empty url.search) || not (is_empty url.hash)
      then refused query_or_fragment
      else if text_eq url.protocol (codes "https:")
      then ok (without_slash url.href)
      else if not (text_eq url.protocol (codes "http:"))
      then refused not_https
      else if is_production policy
          || not (on_loopback (app_url policy))
          || not (is_loopback_hostname url.hostname)
      then refused not_loopback
      else ok (without_slash url.href)

  unfoldable pub assert_allowed_homeserver_url :
      Text → HomeserverUrlPolicy → Outcome InsecureHomeserver Text
  unfolding assert_allowed_url
  assert_allowed_homeserver_url raw policy = elim (parse_url raw) [
    | none ↦ refused invalid_url
    | some url ↦ assert_allowed_url url policy
  ]
