-- ===== src/Push/Gateway.antt =====
-- lib/push-gateway.ts. The URL parser, `toLowerCase` and the package ipaddr.js are parameters.
pub mod PublicLookup
use sub_etha.Prelude.{
  is_empty, ℕ, ◌+◌, ◌≤◌, Text, codes, text_eq, Bool, true, false, ◌&&◌, ◌||◌, not, List, [], ◌∷◌,
  Option, none, some, leb, ◌==◌, length, any, all, filter_by, if◌then◌else◌, ends_with, trim,
}
use sub_etha.Json.{Json, null, num, str, get, get?, or_null}

abbrev between : ℕ → ℕ → ℕ → Bool
between lo hi c = leb lo c && leb c hi

-- `[A-Za-z0-9_-]`
unfoldable pub is_key_char : ℕ → Bool
is_key_char c =
    between b'A' b'Z' c || between b'a' b'z' c || between b'0' b'9' c || c == b'_' || c == b'-'

-- `/^[A-Za-z0-9_-]{lo,hi}$/`
unfoldable pub is_key_text : ℕ → ℕ → Text → Bool
unfolding is_key_char
is_key_text lo hi s = leb lo (length s) && leb (length s) hi && all is_key_char s

-- `validPushKey` of a string.
unfoldable pub valid_push_key : Text → Bool
valid_push_key s = is_key_text 40 128 s

-- What the source reads of a parsed `URL`.
pub record Url : Type 0 where
  pub protocol : Text
  pub username : Text
  pub password : Text
  pub port : Text
  pub hash : Text
  pub search : Text
  pub hostname : Text
  pub href : Text

-- What the source reads of an address that ipaddr.js has parsed: `kind() === "ipv6"`,
-- `isIPv4MappedAddress()`, `range() === "unicast"` and that of `toIPv4Address()`.
pub record ParsedIp : Type 0 where
  pub is_ipv6 : Bool
  pub is_ipv4_mapped : Bool
  pub is_unicast : Bool
  pub mapped_is_unicast : Bool

-- `parse_url` and `parse_ip` are `none` where the library throws.
pub record GatewayPlatform : Type 0 where
  pub parse_url : Text → Option Url
  pub to_lower_case : Text → Text
  pub parse_ip : Text → Option ParsedIp

module _ (platform : GatewayPlatform) where
  open platform use {parse_url, to_lower_case, parse_ip}

  unfoldable pub allowed_push_host : Text → List Text → Bool
  allowed_push_host host additional_hosts =
      text_eq host (codes "fcm.googleapis.com")
      || text_eq host (codes "updates.push.services.mozilla.com")
      || ends_with host (codes ".push.apple.com")
      || ends_with host (codes ".notify.windows.com")
      || any (λ value. text_eq (to_lower_case (trim value)) host) additional_hosts

  -- `ipaddr.isValid`
  abbrev pub is_ip : Text → Bool
  is_ip host = elim (parse_ip host) [ none ↦ false | some p ↦ true ]

  unfoldable pub is_push_url : List Text → Url → Bool
  unfolding allowed_push_host
  is_push_url additional_hosts url =
      if not (text_eq url.protocol (codes "https:"))
        || not (is_empty url.username)
        || not (is_empty url.password)
        || not (is_empty url.port)
        || not (is_empty url.hash)
      then false
      else let host = to_lower_case url.hostname in
        if is_ip host then false else allowed_push_host host additional_hosts

  -- `validPushEndpoint` of a string.
  unfoldable pub valid_push_endpoint : List Text → Text → Bool
  unfolding is_push_url
  valid_push_endpoint additional_hosts raw =
      if not (leb (length raw) 2048)
      then false
      else elim (parse_url raw) [ none ↦ false | some url ↦ is_push_url additional_hosts url ]

  unfoldable pub is_public_ip_address : Text → Bool
  is_public_ip_address raw = elim (parse_ip raw) [
    | none ↦ false
    | some p ↦ if p.is_ipv6 && p.is_ipv4_mapped then p.mapped_is_unicast else p.is_unicast
  ]

pub data PushNotificationKind : Type 0 where
  matrix test : PushNotificationKind

-- The object that is made into JSON; `owner` is left out if it is empty.
pub record NotificationPayload : Type 0 where
  pub kind : PushNotificationKind
  pub owner : Option Text
  pub room_id : Json
  pub event_id : Json
  pub unread : ℕ

abbrev pub finite_unread : Option Json → ℕ
finite_unread (some (num false n)) = n
finite_unread _ = 0

abbrev pub owner_of : Text → Option Text
owner_of [] = none
owner_of (c ∷ s) = some (c ∷ s)

unfoldable pub generic_notification_payload :
    Json → PushNotificationKind → Text → NotificationPayload
generic_notification_payload notification kind owner = record {
  kind = kind;
  owner = owner_of owner;
  room_id = or_null (get notification (codes "room_id"));
  event_id = or_null (get notification (codes "event_id"));
  unread = finite_unread (get? (get notification (codes "counts")) (codes "unread"));
}
