-- ===== src/Controller/Shell/Laws.antt =====
-- The two ways to run a list of commands.
use chaos_tproxy.Prelude.{
  ◌≡◌, refl, ◌∙◌, sym, ap, List, [], ◌∷◌, ◌++◌, append_assoc, append-nil, subst,
}
use chaos_tproxy.Outcome.{Error, Result, ok, err}
use chaos_tproxy.Outcome.Effects.{recovered_tt}
use chaos_tproxy.Controller.Shell.{
  Command, command, History, Machine, execute, execute_all, execute_all_with_log_error,
  after_output, proceed,
}

-- The acts of commands that run one after another; an empty command is none.
abbrev pub acts_of : List Command → History
acts_of [] = []
acts_of ([] ∷ cs) = acts_of cs
acts_of ((program ∷ args) ∷ cs) = command (program ∷ args) ∷ acts_of cs

module _ (m : Machine) where
  -- Whatever fails, every command of the list runs, in order, and the whole succeeds.
  pub execute_all_with_log_error-acts :
      (cs : List Command) (s : History)
      → execute_all_with_log_error m cs s ≡ (ok tt, s ++ acts_of cs)
  unfolding execute_all_with_log_error execute
  execute_all_with_log_error-acts [] s = rw (append-nil s)
  execute_all_with_log_error-acts ([] ∷ cs) s = execute_all_with_log_error-acts cs s
  execute_all_with_log_error-acts ((program ∷ args) ∷ cs) s =
      let c : Command = program ∷ args in
      let later : History = s ++ command c ∷ [] in
      ap (λ x. proceed x (λ _. execute_all_with_log_error m cs))
        (recovered_tt (after_output (m.output s c)) later)
      ∙ (execute_all_with_log_error-acts cs later
          ∙ ap (λ (x : History). (ok tt, x)) (append_assoc s (command c ∷ []) (acts_of cs)))

  -- The command's failure, where the commands before it have run.
  abbrev pub FailsAt : History → Command → Error → Type 0
  FailsAt s c e = after_output (m.output s c) ≡ err e

  -- A run of all commands has done them in order, and a run that failed has done those up to the
  -- one that failed, and no more.
  abbrev pub Ends : List Command → History → Result (Unit {0}) × History → Type 0
  Ends cs s (ok u, s') = s' ≡ s ++ acts_of cs
  Ends cs s (err e, s') =
      (before : List Command) × (c : Command) × (rest : List Command) × (cs ≡ before ++ c ∷ rest)
      × (s' ≡ s ++ acts_of before ++ command c ∷ [])
      × FailsAt (s ++ acts_of before) c e

  Ends-cons :
      (c : Command) (cs : List Command) (s : History) (a : History)
      → acts_of (c ∷ cs) ≡ a ++ acts_of cs
      → ((before : List Command) → acts_of (c ∷ before) ≡ a ++ acts_of before)
      → (x : Result (Unit {0}) × History) → Ends cs (s ++ a) x
      → Ends (c ∷ cs) s x
  Ends-cons c cs s a here split (ok u, s') e =
      e ∙ (append_assoc s a (acts_of cs) ∙ ap (λ x. s ++ x) (sym here))
  Ends-cons c cs s a here split (err e, s') (before, bad, rest, parts, done, fails) =
      let shift : (s ++ a) ++ acts_of before ≡ s ++ acts_of (c ∷ before) =
        append_assoc s a (acts_of before) ∙ ap (λ x. s ++ x) (sym (split before)) in
      (
        c ∷ before,
        bad,
        rest,
        ap (◌∷◌ c) parts,
        done ∙ ap (λ x. x ++ command bad ∷ []) shift,
        subst (λ x. FailsAt x bad e) shift fails,
      )

  Ends-fail :
      (c : Command) (cs : List Command) (s : History) (e : Error)
      → FailsAt s c e
      → Ends (c ∷ cs) s (err e, s ++ command c ∷ [])
  Ends-fail c cs s e fails = (
    [],
    c,
    cs,
    refl,
    ap (λ x. x ++ command c ∷ []) (sym (append-nil s)),
    subst (λ x. FailsAt x c e) (sym (append-nil s)) fails,
  )

  -- Running a list of commands does them in order up to the first that fails: if the whole succeeds
  -- all have run, and if it fails then exactly the commands before one and that one, whose failure,
  -- where it ran, is the error.
  pub execute_all-Ends : (cs : List Command) (s : History) → Ends cs s (execute_all m cs s)
  unfolding execute_all execute
  execute_all-Ends [] s = sym (append-nil s)
  execute_all-Ends ([] ∷ cs) s =
      Ends-cons [] cs s [] refl (λ before. refl) (execute_all m cs s)
        (subst (λ x. Ends cs x (execute_all m cs s)) (sym (append-nil s)) (execute_all-Ends cs s))
  execute_all-Ends ((program ∷ args) ∷ cs) s =
      by_result (after_output (m.output s c)) refl (execute_all-Ends cs (s ++ command c ∷ []))
    where
      c : Command
      c = program ∷ args

      by_result :
          (r : Result (Unit {0}))
          → after_output (m.output s c) ≡ r
          → Ends cs (s ++ command c ∷ []) (execute_all m cs (s ++ command c ∷ []))
          → Ends (c ∷ cs) s (proceed (r, s ++ command c ∷ []) (λ _. execute_all m cs))
      by_result (ok u) e later = Ends-cons c cs s (command c ∷ []) refl (λ before. refl) _ later
      by_result (err e) fails later = Ends-fail c cs s e fails
