-- ===== src/Handler/Selector/Tests.antt =====
-- Runs of the selectors of chaos-tproxy-proxy/src/handler/http/selector.rs on sample messages.
use chaos_tproxy.Prelude.{◌≡◌, refl, ◌↔◌, true, false, [], ◌∷◌, none, some}
use chaos_tproxy.External.Sample.{sample, sample_headers, sample_codes}
use chaos_tproxy.Handler.Message.{Request, Response}
use chaos_tproxy.Handler.Rule.{v4, v6, client, server, Selector}
use chaos_tproxy.Handler.Selector.{select_role, has_fields, select_request, select_response}
use chaos_tproxy.Handler.Selector.Laws.{
  PlaysRole, SelectsRequest, SelectsResponse, select_role_iff, select_request_iff,
  select_response_iff,
}

abbrev get_src : Request sample
get_src = record {
  method = "GET";
  uri = record {
    scheme = none;
    authority = none;
    path_and_query = some (record { path = "/src"; query = none });
  };
  headers = ("accept", "a") ∷ ("accept", "b") ∷ [];
  body = [];
}

abbrev not_found : Response sample
not_found = record { status = 404; headers = ("server", "x") ∷ []; body = [] }

abbrev any_message : Selector sample
any_message = record {
  port = none;
  path = none;
  method = none;
  code = none;
  request_headers = none;
  response_headers = none;
}

abbrev for_src : Selector sample
for_src = record any_message {
  port = some 80;
  path = some "/src";
  method = some "GET";
  request_headers = some (("accept", "b") ∷ []);
}

abbrev for_missing : Selector sample
for_missing = record for_src { code = some 404 }

selected : select_request sample 80 get_src for_src ≡ true
unfolding select_request has_fields
selected = refl

other_port : select_request sample 81 get_src for_src ≡ false
unfolding select_request has_fields
other_port = refl

missing_selected :
    select_response sample 80 get_src.uri get_src.method get_src.headers not_found for_missing
    ≡ true
unfolding select_response has_fields
missing_selected = refl

v6_plays_no_role : select_role (v6 1) (v4 2) (server (2 ∷ [])) ≡ false
unfolding select_role
v6_plays_no_role = refl

select_role_iff_example :
    (select_role (v4 1) (v4 2) (client (3 ∷ 1 ∷ [])) ≡ true)
    ↔ PlaysRole (v4 1) (v4 2) (client (3 ∷ 1 ∷ []))
select_role_iff_example = select_role_iff (v4 1) (v4 2) (client (3 ∷ 1 ∷ []))

select_request_iff_example :
    (select_request sample 80 get_src for_src ≡ true) ↔ SelectsRequest sample 80 get_src for_src
select_request_iff_example =
    select_request_iff sample sample_headers sample_codes 80 get_src for_src

select_response_iff_example :
    (select_response sample 80 get_src.uri get_src.method get_src.headers not_found for_missing
      ≡ true)
    ↔ SelectsResponse sample 80 get_src not_found for_missing
select_response_iff_example =
    select_response_iff sample sample_headers sample_codes 80 get_src not_found for_missing
