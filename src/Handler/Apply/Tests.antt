-- ===== src/Handler/Apply/Tests.antt =====
-- Runs of the actions of chaos-tproxy-proxy/src/handler/http/action.rs on sample messages.
use chaos_tproxy.Prelude.{◌≡◌, refl, true, false, [], ◌∷◌, none, some}
use chaos_tproxy.Outcome.{ok, err, abort_applied}
use chaos_tproxy.Outcome.Runs.{events, result}
use chaos_tproxy.External.Sample.{sample, sample_headers, sample_uris, bytes, get_all}
use chaos_tproxy.Handler.Message.{Request, Response, slept}
use chaos_tproxy.Handler.Rule.{Actions, json}
use chaos_tproxy.Handler.Action.{
  replace_request, patch_request, replace_response, patch_response, replace_body, replace_headers,
  insert_all, read_value, fold_chunks, patch_body, patch_headers, append_all,
}
use chaos_tproxy.Handler.Action.Uris.{append_queries, replace_path, replace_queries}
use chaos_tproxy.Handler.Action.Targets.{IsReplacedUri, IsPatchedUri}
use chaos_tproxy.Handler.Action.Bodies.{IsPatchedBody, patch_of, replaced_body}
use chaos_tproxy.Handler.Action.Headers.{patched_values, replaced_values}
use chaos_tproxy.Handler.Action.Site.{HasSite, replaced_method}
use chaos_tproxy.Handler.Apply.{apply_request_action, apply_response_action}
use chaos_tproxy.Handler.Apply.Laws.{
  apply_request_action-values, apply_response_action-values, apply_request_action-site,
  apply_request_action-IsPatchedUri, apply_request_action-IsPatchedBody,
  apply_response_action-IsPatchedBody,
}

abbrev post_a : Request sample
post_a = record {
  method = "POST";
  uri = record {
    scheme = some "https";
    authority = some "hyper.rs";
    path_and_query = some (record { path = "/ccc"; query = some "a=b" });
  };
  headers = ("content-length", "2") ∷ ("x", "1") ∷ [];
  body = ok (bytes "hi") ∷ [];
}

abbrev answer_a : Response sample
answer_a = record { status = 200; headers = post_a.headers; body = post_a.body }

abbrev change : Actions sample
change = record {
  abort = false;
  delay = some 5;
  replace = some (record {
    path = some "/hhh";
    method = some "GET";
    body = some (record { contents = bytes "ok" });
    code = some 404;
    queries = none;
    headers = some (("x", "2") ∷ []);
  });
  patch = some (record { body = none; queries = some "c=d"; headers = some (("x", "3") ∷ []) });
}

abbrev post_b : Request sample
post_b = record {
  method = "GET";
  uri = record {
    scheme = some "https";
    authority = some "hyper.rs";
    path_and_query = some (record { path = "/hhh"; query = some "a=b&c=d" });
  };
  headers = ("x", "2") ∷ ("x", "3") ∷ [];
  body = ok (bytes "ok") ∷ [];
}

abbrev answer_b : Response sample
answer_b = record { status = 404; headers = post_b.headers; body = post_b.body }

request_changed : result (apply_request_action sample post_a change) ≡ ok post_b
unfolding apply_request_action replace_request patch_request replace_body replace_headers insert_all
    patch_body patch_headers append_all append_queries replace_path replace_queries
request_changed = refl

response_changed : result (apply_response_action sample answer_a change) ≡ ok answer_b
unfolding apply_response_action replace_response patch_response replace_body replace_headers
    insert_all patch_body patch_headers append_all
response_changed = refl

delayed : events (apply_request_action sample post_a change) ≡ slept 5 ∷ []
unfolding apply_request_action replace_request patch_request replace_body replace_headers insert_all
    patch_body patch_headers append_all append_queries replace_path replace_queries
delayed = refl

aborted :
    result (apply_request_action sample post_a (record change { abort = true })) ≡ err abort_applied
unfolding apply_request_action
aborted = refl

apply_request_action-values_example :
    get_all post_b.headers "x"
    ≡ patched_values sample "x" change.patch
        (replaced_values sample "x" change.replace (get_all post_a.headers "x"))
apply_request_action-values_example =
    apply_request_action-values sample sample_headers post_a post_b change "x" request_changed

apply_response_action-values_example :
    get_all answer_b.headers "content-length"
    ≡ patched_values sample "content-length" change.patch (
        replaced_values sample "content-length" change.replace
          (get_all answer_a.headers "content-length"))
apply_response_action-values_example =
    apply_response_action-values sample sample_headers answer_a answer_b change "content-length"
      response_changed

keeps_site :
    HasSite sample post_a.uri post_b.uri
    × (post_b.method ≡ replaced_method sample change.replace post_a.method)
keeps_site = apply_request_action-site sample sample_uris post_a post_b change request_changed

-- A patch of the body after a replacement of it; on the sample, merging is appending.
abbrev merging : Actions sample
merging = record change {
  patch = some (record {
    body = some (record { contents = json (bytes "!") });
    queries = none;
    headers = none;
  });
}

abbrev post_c : Request sample
post_c = record post_b {
  uri = record {
    scheme = some "https";
    authority = some "hyper.rs";
    path_and_query = some (record { path = "/hhh"; query = some "a=b" });
  };
  headers = ("x", "2") ∷ [];
  body = ok (bytes "ok!") ∷ [];
}

abbrev answer_c : Response sample
answer_c = record { status = 404; headers = post_c.headers; body = post_c.body }

request_merged : result (apply_request_action sample post_a merging) ≡ ok post_c
unfolding apply_request_action replace_request patch_request replace_body replace_headers insert_all
    patch_body read_value fold_chunks patch_headers append_queries replace_path replace_queries
request_merged = refl

response_merged : result (apply_response_action sample answer_a merging) ≡ ok answer_c
unfolding apply_response_action replace_response patch_response replace_body replace_headers
    insert_all patch_body read_value fold_chunks patch_headers
response_merged = refl

apply_request_action-IsPatchedBody_example :
    IsPatchedBody sample
      (patch_of sample merging.patch)
      (replaced_body sample merging.replace post_a.body)
      post_c.body
apply_request_action-IsPatchedBody_example =
    apply_request_action-IsPatchedBody sample post_a post_c merging request_merged

merges_answer :
    IsPatchedBody sample
      (patch_of sample merging.patch)
      (replaced_body sample merging.replace answer_a.body)
      answer_c.body
merges_answer = apply_response_action-IsPatchedBody sample answer_a answer_c merging response_merged

apply_request_action-IsPatchedUri_example :
    (uri : sample.Uri) × IsReplacedUri sample change.replace post_a.uri uri
    × IsPatchedUri sample change.patch uri post_b.uri
apply_request_action-IsPatchedUri_example =
    apply_request_action-IsPatchedUri sample sample_uris post_a post_b change request_changed
