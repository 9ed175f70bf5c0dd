-- ===== src/Controller/Shell/Adds.antt =====
-- Lists of commands add their commands, and no other acts.
use chaos_tproxy.Prelude.{List, [], ◌∷◌, All}
use chaos_tproxy.Outcome.{ok}
use chaos_tproxy.Outcome.Adds.{Adds, Adds-refl, Adds-act, Adds-proceed, Adds-recovered}
use chaos_tproxy.Controller.Shell.{
  Command, Act, command, History, Machine, execute, execute_all, execute_all_with_log_error,
  after_output, recover,
}

module _ (P : Act → Type 0) (m : Machine) where
  abbrev pub AllCommands : List Command → Type 0
  AllCommands cs = All (λ c. P (command c)) cs

  pub execute-Adds : (c : Command) (s : History) → P (command c) → Adds P s (execute m c s)
  unfolding execute
  execute-Adds [] s here = Adds-refl P s (ok tt)
  execute-Adds (program ∷ args) s here =
      Adds-act P s (command (program ∷ args)) (after_output (m.output s (program ∷ args))) here

  pub execute_all-Adds :
      (cs : List Command) (s : History) → AllCommands cs → Adds P s (execute_all m cs s)
  unfolding execute_all
  execute_all-Adds [] s here = Adds-refl P s (ok tt)
  execute_all-Adds (c ∷ cs) s (here, rest) =
      Adds-proceed P s (execute m c s) (λ _. execute_all m cs) (execute-Adds c s here)
        (λ u t. execute_all-Adds cs t rest)

  pub execute_all_with_log_error-Adds :
      (cs : List Command) (s : History)
      → AllCommands cs
      → Adds P s (execute_all_with_log_error m cs s)
  unfolding execute_all_with_log_error
  execute_all_with_log_error-Adds [] s here = Adds-refl P s (ok tt)
  execute_all_with_log_error-Adds (c ∷ cs) s (here, rest) =
      Adds-proceed P s (recover (execute m c) tt s) (λ _. execute_all_with_log_error m cs)
        (Adds-recovered P s (execute m c s) tt (execute-Adds c s here))
        (λ u t. execute_all_with_log_error-Adds cs t rest)
