-- ===== src/Service/Tests.antt =====
-- Runs of the service of chaos-tproxy-proxy/src/proxy/http/server.rs on sample requests. The
-- target answers the status 200 with an empty body.
use chaos_tproxy.Prelude.{
  ◌≤◌, ◌≡◌, refl, true, false, List, [], ◌∷◌, Option, none, some, String, All, inl, inr,
}
use chaos_tproxy.Outcome.{ok}
use chaos_tproxy.Outcome.Runs.{events, result}
use chaos_tproxy.External.Sample.{sample, sample_headers, sample_uris}
use chaos_tproxy.Handler.Message.{Request, Response, slept, forwarded}
use chaos_tproxy.Handler.Rule.{v4, Role, server, Target, Selector, Actions, Rule}
use chaos_tproxy.Handler.Selector.{select_role, select_request, select_response, has_fields}
use chaos_tproxy.Handler.Action.{replace_request, patch_request, replace_response, patch_response}
use chaos_tproxy.Handler.Apply.{apply_request_action, apply_response_action}
use chaos_tproxy.Service.{
  HttpService, Upstream, apply_request_rules, apply_response_rules, find_authority, role_ok,
  rebuild_uri, forward, request_rules, handle,
}
use chaos_tproxy.Service.Rules.{sent, Fails}
use chaos_tproxy.Service.Laws.{handle-Sends, AbortsRequest, handle-aborts}
use chaos_tproxy.Service.Responses.{AbortsResponse, answer_of, handle-drops_response}
use chaos_tproxy.Service.Transparent.{
  pass_through, handle-role_off, with_rules, handle-by_target, IsForwardOf, handle-forwards,
}

abbrev upstream : Upstream sample String
upstream = record {
  send = λ tls to from r. ok (record { status = 200; headers = []; body = [] });
  show_addr = λ a. "10.0.0.2:80";
}

abbrev get_root : Request sample
get_root = record {
  method = "GET";
  uri = record { scheme = none; authority = none; path_and_query = none };
  headers = ("host", "example.com") ∷ [];
  body = [];
}

abbrev any_message : Selector sample
any_message = record {
  port = none;
  path = none;
  method = none;
  code = none;
  request_headers = none;
  response_headers = none;
}

abbrev wait : Actions sample
wait = record { abort = false; delay = some 7; replace = none; patch = none }

abbrev slow : Rule sample
slow = record { target = Target.request; selector = any_message; actions = wait }

abbrev abort_get : Rule sample
abort_get = record {
  target = Target.request;
  selector = record any_message { method = some "GET" };
  actions = record wait { abort = true };
}

abbrev slow_answer : Rule sample
slow_answer = record slow { target = Target.response }

abbrev service : List (Rule sample) → Option Role → HttpService sample String
service rules role = record {
  remote = record { ip = v4 1; port = 5000 };
  target = record { ip = v4 2; port = 80 };
  config = record { listen_port = 1025; rules = rules; role = role };
  tls_client_config = none;
}

abbrev delayed : HttpService sample String
delayed = service (slow ∷ slow_answer ∷ []) none

abbrev aborting : HttpService sample String
aborting = service (slow ∷ abort_get ∷ []) (some (server (2 ∷ [])))

abbrev elsewhere : HttpService sample String
elsewhere = service (abort_get ∷ []) (some (server (3 ∷ [])))

abbrev sent_on : Request sample
sent_on = record get_root {
  uri = record {
    scheme = some "http";
    authority = some "example.com";
    path_and_query = some (record { path = "/"; query = none });
  };
}

delays_both_ways :
    events (handle sample String upstream delayed get_root)
    ≡ slept 7 ∷ forwarded sent_on ∷ slept 7 ∷ []
unfolding handle role_ok rebuild_uri forward apply_request_rules apply_response_rules
    apply_request_action apply_response_action replace_request patch_request replace_response
    patch_response select_request select_response has_fields find_authority
delays_both_ways = refl

handle-Sends_example :
    (sent sample (events (handle sample String upstream delayed get_root)) ≤ 1)
    × ((a : Response sample)
        → result (handle sample String upstream delayed get_root) ≡ ok a
        → sent sample (events (handle sample String upstream delayed get_root)) ≡ 1)
handle-Sends_example = handle-Sends sample String upstream delayed get_root

aborting_role : role_ok sample String upstream aborting ≡ true
unfolding role_ok select_role
aborting_role = refl

abort_get-AbortsRequest : AbortsRequest sample String upstream 80 get_root abort_get
unfolding select_request
abort_get-AbortsRequest = record { targets = refl; selects = refl; aborts = refl }

handle-aborts_example :
    Fails sample (result (handle sample String upstream aborting get_root))
    × (sent sample (events (handle sample String upstream aborting get_root)) ≡ 0)
handle-aborts_example =
    handle-aborts sample String upstream aborting get_root aborting_role
      (inr (inl abort_get-AbortsRequest))

elsewhere_role : role_ok sample String upstream elsewhere ≡ false
unfolding role_ok select_role
elsewhere_role = refl

handle-role_off_example :
    handle sample String upstream elsewhere get_root
    ≡ pass_through sample String upstream elsewhere get_root
handle-role_off_example = handle-role_off sample String upstream elsewhere get_root elsewhere_role

handle-by_target_example :
    handle sample String upstream
      (with_rules sample String upstream delayed (slow ∷ slow_answer ∷ []))
      get_root
    ≡ handle sample String upstream
        (with_rules sample String upstream delayed (slow_answer ∷ slow ∷ []))
        get_root
handle-by_target_example =
    handle-by_target sample String upstream delayed (slow ∷ slow_answer ∷ [])
      (slow_answer ∷ slow ∷ []) get_root refl refl

rules_leave_root :
    result
      (apply_request_rules sample (request_rules sample String upstream delayed get_root) get_root)
    ≡ ok get_root
unfolding apply_request_rules apply_request_action replace_request patch_request role_ok
    select_request
rules_leave_root = refl

handle-forwards_example :
    All
      (IsForwardOf sample String upstream delayed get_root)
      (events (handle sample String upstream delayed get_root))
handle-forwards_example =
    handle-forwards sample String upstream sample_headers sample_uris delayed get_root get_root
      rules_leave_root

abbrev abort_200 : Rule sample
abort_200 = record {
  target = Target.response;
  selector = record any_message { code = some 200 };
  actions = record wait { abort = true };
}

abbrev dropping : HttpService sample String
dropping = service (slow ∷ abort_200 ∷ []) none

drops_role : role_ok sample String upstream dropping ≡ true
unfolding role_ok
drops_role = refl

drops_passes :
    result
      (apply_request_rules sample (request_rules sample String upstream dropping get_root) get_root)
    ≡ ok get_root
unfolding role_ok apply_request_rules apply_request_action replace_request patch_request
    select_request has_fields
drops_passes = refl

drops_uri : rebuild_uri sample String upstream dropping get_root ≡ ok sent_on.uri
unfolding rebuild_uri find_authority
drops_uri = refl

abort_200-AbortsResponse :
    AbortsResponse sample String upstream 80 get_root
      (answer_of sample String upstream dropping get_root sent_on.uri)
      abort_200
unfolding select_response has_fields
abort_200-AbortsResponse = record { targets = refl; selects = refl; aborts = refl }

handle-drops_response_example :
    Fails sample (result (handle sample String upstream dropping get_root))
    × (sent sample (events (handle sample String upstream dropping get_root)) ≡ 1)
handle-drops_response_example =
    handle-drops_response sample String upstream dropping get_root get_root sent_on.uri drops_role
      drops_passes drops_uri (inr (inl abort_200-AbortsResponse))
