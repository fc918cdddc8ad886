-- ===== src/Matrix/Tests.antt =====
-- Concrete platforms and texts, for the tests of the files of lib/matrix.
use sub_etha.Matrix.MessageText.Segments.{shown, shown-message_text_segments}
use sub_etha.Matrix.MessageText.{Match, message_text_segments, href_for, strip_plain_reply_fallback}
use sub_etha.Matrix.Drafts.{
  Drafts, write_memory_draft, read_memory_draft, clear_legacy_persisted_drafts,
}
use sub_etha.Matrix.Drafts.Changes.{Change, change, change_all, last_body, IsKept, read-change_all}
use sub_etha.Matrix.SessionWarning.{
  Access, Kinds, WarningStore, logout, pending, refresh, has, persist, persist_all, read, clear,
  has-persist, read-clear,
}
use sub_etha.Prelude.{
  List, if◌then◌else◌, Text, ◌∷◌, ◌++◌, arith, ◌≡◌, refl, ◌↔◌, codes, text_eq, true, false, [],
  none, some, ok, refused,
}
use sub_etha.Push.Gateway.{Url}
use sub_etha.Matrix.UrlPolicy.Allowed.{IsAllowed, assert_allowed_homeserver_url_iff}
use sub_etha.Matrix.UrlPolicy.{
  WebPlatform, HomeserverUrlPolicy, assert_allowed_homeserver_url, is_loopback_hostname,
  not_loopback, without_slash,
}

abbrev local_url : Url
local_url = record {
  protocol = codes "http:";
  username = [];
  password = [];
  port = codes "8008";
  hash = [];
  search = [];
  hostname = codes "127.0.0.1";
  href = codes "http://127.0.0.1:8008/";
}

-- A parser that knows one address.
abbrev pub development : WebPlatform
development = record {
  parse_url = λ s. if text_eq s (codes "http://127.0.0.1:8008") then some local_url else none;
  to_lower_case = λ s. s;
  runtime_app_origin = some (codes "http://127.0.0.1:8008");
  runtime_production = false;
}

abbrev no_policy : HomeserverUrlPolicy
no_policy = record { app_origin = none; production = none }

production_test :
    assert_allowed_homeserver_url development
      (codes "http://127.0.0.1:8008")
      (record { app_origin = none; production = some true })
    ≡ refused not_loopback
unfolding assert_allowed_homeserver_url
production_test = refl

loopback_test : is_loopback_hostname development (codes "[::1]") ≡ true
unfolding is_loopback_hostname
loopback_test = refl

outside_test : is_loopback_hostname development (codes "127.0.0.256") ≡ false
unfolding is_loopback_hostname
outside_test = refl

assert_allowed_homeserver_url_iff_example :
    (assert_allowed_homeserver_url development (codes "http://127.0.0.1:8008") no_policy
      ≡ ok (codes "http://127.0.0.1:8008"))
    ↔ ((url : Url) × (development.parse_url (codes "http://127.0.0.1:8008") ≡ some url)
        × IsAllowed development no_policy url
        × (codes "http://127.0.0.1:8008" ≡ without_slash development url.href))
assert_allowed_homeserver_url_iff_example =
    assert_allowed_homeserver_url_iff development no_policy (codes "http://127.0.0.1:8008")
      (codes "http://127.0.0.1:8008")

-- The link ends in front of the bracket that it does not open.
abbrev a_message : Text
a_message = codes "see (www.a.b/c_(d)), ok"

abbrev a_match : Match
a_match = record { index = 5; text = codes "www.a.b/c_(d))," }

abbrev same_text : Text → Text
same_text s = s

segments_test :
    message_text_segments same_text a_message (a_match ∷ [])
    ≡ record { text = codes "see ("; href = none }
      ∷ record { text = codes "www.a.b/c_(d)"; href = some (codes "https://www.a.b/c_(d)") }
      ∷ record { text = codes "), ok"; href = none }
      ∷ []
unfolding message_text_segments
segments_test = refl

shown-message_text_segments_example :
    shown (message_text_segments same_text a_message (a_match ∷ [])) ≡ a_message
shown-message_text_segments_example =
    shown-message_text_segments same_text a_message (a_match ∷ []) (omega arith, refl, tt)

mail_test : href_for same_text (codes "ford@earth.org") ≡ codes "mailto:ford@earth.org"
unfolding href_for
mail_test = refl

reply_test :
    strip_plain_reply_fallback (codes "> <@a:b> hi" ++ (10 ∷ 10 ∷ codes "hello")) ≡ codes "hello"
unfolding strip_plain_reply_fallback
reply_test = refl

no_reply_test : strip_plain_reply_fallback (codes "hello") ≡ codes "hello"
unfolding strip_plain_reply_fallback
no_reply_test = refl

abbrev blocked : Access
blocked = record { readable = false; writable = false; removals = 0 }

abbrev working : Access
working = record { readable = true; writable = true; removals = 3 }

abbrev no_kinds : Kinds
no_kinds = record { has_logout = false; has_pending = false; has_refresh = false }

abbrev no_warnings : WarningStore
no_warnings = record { memory = no_kinds; durable = no_kinds }

has-persist_example :
    has working (persist_all (persist blocked no_warnings refresh) ((working, logout) ∷ [])) refresh
    ≡ true
has-persist_example = has-persist blocked working no_warnings refresh ((working, logout) ∷ []) refl

read_test :
    read working (persist working (persist blocked no_warnings logout) pending) ≡ some pending
unfolding read persist
read_test = refl

read-clear_example : read blocked (clear working (persist blocked no_warnings logout)) ≡ none
read-clear_example = read-clear working blocked (persist blocked no_warnings logout) refl

abbrev one_draft : Drafts
one_draft = (codes "!a", codes "hi") ∷ []

-- A draft of another room, and then none for the first.
abbrev draft_changes : List Change
draft_changes = Change.write (codes "!b") (codes "ho") ∷ Change.write (codes "!a") [] ∷ []

read-change_all_example :
    IsKept (change_all draft_changes one_draft)
    × (read_memory_draft (change_all draft_changes one_draft) (codes "!a")
        ≡ last_body draft_changes (codes "!a") (read_memory_draft one_draft (codes "!a")))
read-change_all_example = read-change_all draft_changes one_draft (codes "!a") ((refl, tt), refl)

change_all_test : change_all draft_changes one_draft ≡ (codes "!b", codes "ho") ∷ []
unfolding change_all change write_memory_draft text_eq
change_all_test = refl

legacy_drafts_test :
    clear_legacy_persisted_drafts (
      (codes "sub-etha-draft:!a", codes "hi")
      ∷ (codes "theme", codes "dark")
      ∷ (codes "sub-etha-draft:!b", codes "ho")
      ∷ [])
    ≡ (codes "theme", codes "dark") ∷ []
unfolding clear_legacy_persisted_drafts
legacy_drafts_test = refl
