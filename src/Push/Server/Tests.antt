-- ===== src/Push/Server/Tests.antt =====
-- Runs of the push server over the tables, and its theorem at them.
use sub_etha.Prelude.{
  is_some, false, ℕ, ◌≡◌, refl, Text, codes, Bool, true, false, List, [], ◌∷◌, ◌++◌, Option, none,
  some, length, drop,
}
use sub_etha.Json.{Json, obj, str, num, field, end}
use sub_etha.Push.Tables.{Database}
use sub_etha.Push.Gateway.{GatewayPlatform, Url, ParsedIp}
use sub_etha.Push.Repository.{neon_push_repository}
use sub_etha.Push.Exec.{
  PushConfiguration, World, Dependencies, PushLimits, SendResult, accepted, Response, Exec,
}
use sub_etha.Push.Server.{Request, ContentLength, absent}
use sub_etha.Push.Server.Destinations.{ContactsAllowed}
use sub_etha.Push.Server.Contacts.{serve_all-ContactsAllowed}
use sub_etha.Push.Server.Refusals.{
  is_same_origin, cross_origin, unconfigured, noted, serve-foreign, serve-unconfigured,
  notify_devices-contacted,
}
use sub_etha.Push.Server.Deliver.{event_of}
use sub_etha.Push.Server.Notify.{notify_devices}
use sub_etha.Push.Server.Handlers.{Call, serve, serve_all}

-- A parser for URLs of `https:` with a host and nothing else.
abbrev platform : GatewayPlatform
platform = record {
  parse_url = λ raw. some (record {
    protocol = codes "https:";
    username = [];
    password = [];
    port = [];
    hash = [];
    search = [];
    hostname = drop 8 raw;
    href = raw;
  });
  to_lower_case = λ s. s;
  parse_ip = λ s. none;
}

abbrev endpoint : Text
endpoint = codes "https://fcm.googleapis.com"

abbrev delivery_key : Text
delivery_key = codes "dddddddddddddddddddddddddddddddddddddddd"

abbrev management_key : Text
management_key = codes "mmmmmmmmmmmmmmmmmmmmmmmmmmmmmmmmmmmmmmmm"

-- What every body of these runs is parsed to: it registers an endpoint.
abbrev body : Json
body = obj (
    field (codes "deliveryKey") (str delivery_key) (
      field (codes "managementKey") (str management_key) (
        field (codes "subscription")
          (obj (
            field (codes "endpoint") (str endpoint) (
              field (codes "keys")
                (obj (
                  field (codes "p256dh") (str (codes "p"))
                    (field (codes "auth") (str (codes "a")) end)))
                end)))
          end)))

abbrev empty : Database
empty = record {
  subscriptions = [];
  pendings = [];
  revoked = [];
  gateway = record {
    subscription_count = 0;
    revoked_management_key_count = 0;
    revoked_management_key_limit = none;
  };
  budgets =
      record { name = codes "subscription-mutations"; window_start = 0; request_count = 0 }
      ∷ record { name = codes "outbound-deliveries"; window_start = 0; request_count = 0 }
      ∷ [];
  deliveries = [];
}

abbrev dependencies : Dependencies Database
dependencies = record {
  repository = neon_push_repository (λ a b. false);
  platform = platform;
  push_hosts = [];
  parse_json = λ bs. some body;
  hash_capability = λ s. s;
  time = λ n. 1000;
  capability = λ n. codes "c";
  push_service = λ before call. accepted;
  configuration = some (record {
    public_key = codes "public";
    private_key = codes "private";
    subject = codes "subject";
  });
  limits = record {
    max_subscriptions = 10;
    max_revoked_management_keys = 10;
    registration_per_ten_minutes = 10;
    tests_per_minute = 10;
    notify_per_minute = 10;
    deliveries_per_minute = 10;
  };
}

abbrev world : World Database
world = record { store = empty; readings = 0; challenges = 0; contacted = []; logs = [] }

abbrev post : Request
post = record {
  method = codes "POST";
  origin = some (codes "https://chat.example");
  url_origin = codes "https://chat.example";
  content_length = absent;
  chunks = codes "{}" ∷ [];
}

serve_all-ContactsAllowed_example :
    ContactsAllowed dependencies
      (serve_all dependencies (Call.subscriptions post ∷ Call.matrix_notify post ∷ []) world)
serve_all-ContactsAllowed_example =
    serve_all-ContactsAllowed dependencies (Call.subscriptions post ∷ Call.matrix_notify post ∷ [])
      world tt

abbrev configuration : PushConfiguration
configuration = record {
  public_key = codes "public";
  private_key = codes "private";
  subject = codes "subject";
}

abbrev foreign : Request
foreign = record post { origin = some (codes "https://evil.example") }

is_foreign : is_same_origin foreign ≡ false
unfolding sub_etha.Prelude.text_eq
is_foreign = refl

serve-foreign_example :
    (serve dependencies (Call.subscriptions foreign) world
      ≡ (cross_origin, noted "subscriptions" 403 world))
    × (serve dependencies (Call.test foreign) world ≡ (cross_origin, noted "test" 403 world))
serve-foreign_example = serve-foreign dependencies foreign configuration world refl is_foreign

abbrev unset : Dependencies Database
unset = record dependencies { configuration = none }

serve-unconfigured_example :
    (serve unset Call.vapid_key world ≡ (unconfigured, noted "vapid-key" 503 world))
    × (serve unset (Call.subscriptions post) world
        ≡ (unconfigured, noted "subscriptions" 503 world))
    × (serve unset (Call.test post) world ≡ (unconfigured, noted "test" 503 world))
serve-unconfigured_example = serve-unconfigured unset post world refl

abbrev counts_only : Json
counts_only = obj (field (codes "counts") (obj (field (codes "unread") (num false 3) end)) end)

abbrev device : Json
device = obj (
    field (codes "app_id") (str (codes "chat.subetha.pwa"))
      (field (codes "pushkey") (str delivery_key) end))

has_no_event : is_some (event_of counts_only) ≡ false
unfolding sub_etha.Json.get sub_etha.Prelude.text_eq
has_no_event = refl

notify_devices-contacted_example :
    (notify_devices dependencies counts_only (device ∷ []) world).1.contacted ≡ world.contacted
notify_devices-contacted_example =
    notify_devices-contacted dependencies counts_only (device ∷ []) world has_no_event

-- What a registration computes through.
registering : Unit {0}
unfolding serve sub_etha.Push.Server.guarded sub_etha.Push.Server.Subscriptions.change_subscription
    sub_etha.Push.Exec.◌>>◌ sub_etha.Push.Server.configured sub_etha.Push.Exec.pure
    sub_etha.Push.Server.assert_same_origin sub_etha.Prelude.text_eq
    sub_etha.Push.Server.Subscriptions.register sub_etha.Push.Server.read_json
    sub_etha.Push.Server.read_chunks sub_etha.Push.Server.Subscriptions.asked
    sub_etha.Push.Server.property sub_etha.Json.get sub_etha.Push.Gateway.valid_push_key
    sub_etha.Push.Gateway.is_key_text sub_etha.Push.Gateway.valid_push_endpoint
    sub_etha.Push.Exec.catch sub_etha.Push.Exec.query sub_etha.Push.Exec.random_capability
    sub_etha.Push.Exec.read_clock sub_etha.Push.Exec.send_notification sub_etha.Push.Exec.◌>>=◌
    sub_etha.Push.Server.Subscriptions.send_challenge
    sub_etha.Push.Server.cleanup_stale_subscriptions sub_etha.Push.Server.consume_budget
    sub_etha.Push.Budget.consume_global_rate_limit sub_etha.Push.Cleanup.cleanup_subscriptions
    sub_etha.Push.Registration.Begin.begin_registration sub_etha.Push.Budget.tick
registering = tt

-- The registration is answered with 202 and its endpoint is contacted.
registered : (serve dependencies (Call.subscriptions post) world).0.status ≡ 202
unfolding registering
registered = refl

contacted_once : length (serve dependencies (Call.subscriptions post) world).1.contacted ≡ 1
unfolding registering
contacted_once = refl
