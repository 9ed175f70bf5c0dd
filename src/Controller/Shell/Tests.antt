-- ===== src/Controller/Shell/Tests.antt =====
-- Runs of the command loops on the sample machines.
use chaos_tproxy.Prelude.{◌≡◌, refl, List, [], ◌∷◌, ◌++◌}
use chaos_tproxy.Outcome.{ok, err, stderr}
use chaos_tproxy.Controller.Shell.{
  Command, command, execute, execute_all, execute_all_with_log_error, os_err,
}
use chaos_tproxy.Controller.Shell.Sample.{denied}
use chaos_tproxy.Controller.Shell.Laws.{
  acts_of, Ends, execute_all-Ends, execute_all_with_log_error-acts,
}

abbrev two : List Command
two = ("ip" ∷ "a" ∷ []) ∷ ("ip" ∷ "b" ∷ []) ∷ []

stops_at_first :
    execute_all denied two []
    ≡ (err (stderr "Operation not permitted"), command ("ip" ∷ "a" ∷ []) ∷ [])
unfolding execute_all execute os_err
stops_at_first = refl

execute_all-Ends_example : Ends denied two [] (execute_all denied two [])
execute_all-Ends_example = execute_all-Ends denied two []

execute_all_with_log_error-acts_example :
    execute_all_with_log_error denied two [] ≡ (ok tt, [] ++ acts_of two)
execute_all_with_log_error-acts_example = execute_all_with_log_error-acts denied two []
