-- ===== src/Handler/Apply.antt =====
-- `apply_request_action` and `apply_response_action` of
-- chaos-tproxy-proxy/src/handler/http/action.rs: abort, delay, then the changes of Action.antt.

pub mod Laws
mod Tests
use chaos_tproxy.Prelude.{ℕ, Option, none, some}
use chaos_tproxy.Outcome.{Run, done, after, abort_applied}
use chaos_tproxy.Outcome.Runs.{lift, fail_if, ◌>>=◌, ◌>>◌}
use chaos_tproxy.External.{Http}
use chaos_tproxy.Handler.Message.{Request, Response, Event, slept}
use chaos_tproxy.Handler.Rule.{Actions}
use chaos_tproxy.Handler.Action.{replace_request, patch_request, replace_response, patch_response}

module _ (h : Http) where
  abbrev pub sleep : Option ℕ → Run (Event h) (Unit {0})
  sleep none = done tt
  sleep (some delay) = after (slept delay) (done tt)

  unfoldable pub apply_request_action : Request h → Actions h → Run (Event h) (Request h)
  apply_request_action request actions = do
    fail_if actions.abort abort_applied
    sleep actions.delay
    replaced ← lift (replace_request h request actions.replace)
    lift (patch_request h replaced actions.patch)

  unfoldable pub apply_response_action : Response h → Actions h → Run (Event h) (Response h)
  apply_response_action response actions = do
    fail_if actions.abort abort_applied
    sleep actions.delay
    lift (patch_response h (replace_response h response actions.replace) actions.patch)
