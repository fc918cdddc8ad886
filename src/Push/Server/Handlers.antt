-- ===== src/Push/Server/Handlers.antt =====
-- The object that `createPushServer` of lib/push-server.ts returns, and a sequence of its calls.
use sub_etha.Prelude.{List, [], ◌∷◌}
use sub_etha.Push.Exec.{Body, Response, World, Dependencies, Exec, pure, ◌>>=◌}
use sub_etha.Push.Server.{Request, json, configured, guarded}
use sub_etha.Push.Server.Subscriptions.{change_subscription}
use sub_etha.Push.Server.TestSend.{test_notification}
use sub_etha.Push.Server.Notify.{notify}

pub data Call : Type 0 where
  vapid_key : Call
  subscriptions : Request → Call
  test : Request → Call
  matrix_notify : Request → Call

module _ {S : Type 0} (deps : Dependencies S) where
  unfoldable pub get_vapid_key : Exec S Response
  get_vapid_key = do
    configuration ← configured deps
    pure (json (Body.public_key configuration.public_key) 200)

  unfoldable pub serve : Call → World S → Response × World S
  serve vapid_key = guarded "vapid-key" get_vapid_key
  serve (subscriptions request) = guarded "subscriptions" (change_subscription deps request)
  serve (test request) = guarded "test" (test_notification deps request)
  serve (matrix_notify request) = guarded "matrix-notify" (notify deps request)

  unfoldable pub serve_all : List Call → World S → World S
  serve_all [] w = w
  serve_all (c ∷ cs) w = serve_all cs (serve c w).1
