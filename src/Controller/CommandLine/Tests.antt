-- ===== src/Controller/CommandLine/Tests.antt =====
-- Runs of the command line on the sample machine.
use chaos_tproxy.Prelude.{
  ℕ, List, ◌≡◌, ◌⊎◌, ◌↔◌, refl, true, false, [], ◌∷◌, Option, none, some, String, str_eq,
  if◌then◌else◌,
}
use chaos_tproxy.Outcome.{Result, ok, err, config_file_required, invalid_extension}
use chaos_tproxy.Controller.Config.{RawConfig}
use chaos_tproxy.Controller.ConfigServer.{Request}
use chaos_tproxy.Controller.Shell.Sample.{quiet}
use chaos_tproxy.Controller.Proxy.Pairing.{is_some}
use chaos_tproxy.Controller.CommandLine.{
  Opt, debug, get_level_filter, checked, default_config, Files, raw_from_opt, get_config_from_opt,
  with_config, run_file, run_interactive,
}
use chaos_tproxy.Controller.CommandLine.Laws.{
  LeavesNone, run_file-LeavesNone, run_interactive-LeavesNone, checked_iff,
}

abbrev nothing : Opt
nothing = record { input = none; interactive = false; verbose = 2; proxy = false; ipc_path = none }

abbrev with_file : Opt
with_file = record nothing { input = some "chaos.json" }

abbrev with_text : Opt
with_text = record nothing { input = some "chaos.txt" }

abbrev extension_of : String → Option String
extension_of path = if str_eq path "chaos.json" then some "json" else some "txt"

abbrev files : Files
files = record {
  read_to_string = λ path. ok "{}";
  extension = extension_of;
  from_json = λ text. ok (record default_config { proxy_ports = some (80 ∷ []) });
  from_yaml = λ text. ok default_config;
}

needs_something : checked nothing ≡ err config_file_required
unfolding checked
needs_something = refl

second_level : get_level_filter nothing ≡ debug
unfolding get_level_filter
second_level = refl

refuses_text : (run_file quiet files (λ s. ok tt) with_text []).result ≡ err invalid_extension
unfolding run_file with_config get_config_from_opt raw_from_opt
refuses_text = refl

passes_with_file :
    (checked with_file ≡ ok with_file)
    ↔ ((with_file.interactive ≡ true) ⊎ (with_file.proxy ≡ true) ⊎ (is_some with_file.input ≡ true))
passes_with_file = checked_iff with_file

file_ends_idle : LeavesNone (run_file quiet files (λ s. ok tt) with_file []).proxy
file_ends_idle = run_file-LeavesNone quiet files (λ s. ok tt) with_file [] (λ s. refl)

abbrev interactive : Opt
interactive = record nothing { interactive = true }

abbrev put_text : Request
put_text = record { method = "PUT"; body = ok (1 ∷ []) ∷ [] }

abbrev parse : List ℕ → Result RawConfig
parse bytes = ok (record default_config { proxy_ports = some (80 ∷ []) })

run_interactive-LeavesNone_example :
    LeavesNone
      (run_interactive quiet parse
        (λ e. "bad")
        (λ s. ok tt)
        interactive
        (put_text ∷ put_text ∷ [])
        []).proxy
run_interactive-LeavesNone_example =
    run_interactive-LeavesNone quiet parse (λ e. "bad") (λ s. ok tt) interactive
      (put_text ∷ put_text ∷ []) [] (λ s. refl)
