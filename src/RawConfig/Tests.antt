-- ===== src/RawConfig/Tests.antt =====
-- Runs of the conversions of chaos-tproxy-proxy/src/raw_config.rs on sample configurations.
use chaos_tproxy.Prelude.{◌≤◌, ◌≡◌, refl, true, List, [], ◌∷◌, none, some, String, length}
use chaos_tproxy.Outcome.{ok, err, library}
use chaos_tproxy.Outcome.Results.{collect}
use chaos_tproxy.External.Laws.{values_at}
use chaos_tproxy.External.Sample.{sample, sample_headers, get_all}
use chaos_tproxy.Handler.Action.Headers.{last_or}
use chaos_tproxy.Handler.Rule.{Rule, Target}
use chaos_tproxy.RawConfig.{RawTarget, RawRule}
use chaos_tproxy.RawConfig.Convert.{
  to_target, insert_parsed, try_from_vec, to_selector, to_actions, to_rule, to_rules,
}
use chaos_tproxy.RawConfig.Laws.{parse_entry, try_from_vec-values, KeepsRules, to_rules-KeepsRules}

abbrev doubled : List (String × String)
doubled = ("x", "1") ∷ ("y", "2") ∷ ("x", "3") ∷ []

abbrev doubled_map : List (String × String)
doubled_map = ("y", "2") ∷ ("x", "3") ∷ []

doubled_loses_one : try_from_vec sample (some doubled) ≡ ok (some doubled_map)
unfolding try_from_vec insert_parsed
doubled_loses_one = refl

try_from_vec-values_example :
    (entries : List (String × String)) × (collect (parse_entry sample) doubled ≡ ok entries)
    × ((n : String)
        → (get_all doubled_map n ≡ last_or (values_at sample n entries) [])
          × (length (get_all doubled_map n) ≤ 1))
try_from_vec-values_example =
    try_from_vec-values sample sample_headers doubled doubled_map doubled_loses_one

abbrev raw_abort : RawRule
raw_abort = record {
  target = RawTarget.response;
  selector = record {
    port = some 80;
    path = some "/a";
    method = some "GET";
    code = some 404;
    request_headers = none;
    response_headers = none;
  };
  actions = record { abort = some true; delay = none; replace = none; patch = none };
}

abbrev checked_abort : Rule sample
checked_abort = record {
  target = Target.response;
  selector = record {
    port = some 80;
    path = some "/a";
    method = some "GET";
    code = some 404;
    request_headers = none;
    response_headers = none;
  };
  actions = record { abort = true; delay = none; replace = none; patch = none };
}

converted : to_rules sample (raw_abort ∷ []) ≡ ok (checked_abort ∷ [])
unfolding to_rules to_rule to_selector to_actions to_target
converted = refl

bad_status :
    to_rules sample
      (record raw_abort { selector = record raw_abort.selector { code = some 99 } } ∷ [])
    ≡ err (library "status")
unfolding to_rules to_rule to_selector
bad_status = refl

keeps_both_rules : KeepsRules sample (raw_abort ∷ []) (checked_abort ∷ [])
keeps_both_rules = to_rules-KeepsRules sample (raw_abort ∷ []) (checked_abort ∷ []) converted
