-- ===== src/Main/Laws.antt =====
-- Which branch of `main` does what.
use chaos_tproxy.Prelude.{
  ◌≡◌, ◌≢◌, ◌↔◌, ℕ, arith, refl, ◌∙◌, sym, subst, Bool, true, false, not, ◌&&◌, ◌||◌, if◌then◌else◌,
  List, [], Option, none, some, String,
}
use chaos_tproxy.Outcome.{Result, ok, err, config_file_required}
use chaos_tproxy.External.{Http}
use chaos_tproxy.RawConfig.Tls.{Tls}
use chaos_tproxy.Tcp.{NetAct}
use chaos_tproxy.Server.{Task}
use chaos_tproxy.ProxyMain.{proxy_main}
use chaos_tproxy.Controller.Shell.{History}
use chaos_tproxy.Controller.Proxy.Pairing.{is_some, is_ok}
use chaos_tproxy.Controller.CommandLine.{Opt, is_none, checked, Ended, run_file, run_interactive}
use chaos_tproxy.Controller.CommandLine.Laws.{
  LeavesNone, run_file-LeavesNone, run_interactive-LeavesNone,
}
use chaos_tproxy.Main.{
  exited, returned, exit_of, Process, from_args_checked, Outside, Inside, proxy_branch,
  interactive_branch, file_branch, after_proxy, with_opt, main,
}

-- The options ask for something.
abbrev pub asks : Opt → Bool
asks opt = opt.interactive || opt.proxy || is_some opt.input

checked_parts :
    (interactive proxy : Bool) (input : Option String) (opt : Opt)
    → (if not interactive && not proxy && is_none input then err config_file_required else ok opt)
      ≡ (if interactive || proxy || is_some input then ok opt else err config_file_required)
checked_parts true proxy input opt = refl
checked_parts false true input opt = refl
checked_parts false false (some path) opt = refl
checked_parts false false none opt = refl

or_false : (b : Bool) → b || false ≡ true → b ≡ true
or_false true e = refl
or_false false e = e

returned-exited : {r : Result (Unit {0})} {n : ℕ} → returned r ≢ exited n
returned-exited same = ground arith

module _ (h : Http) (t : Tls) (inside : Inside h t) (outside : Outside) where
  -- The process has done nothing and ends with the code 1.
  abbrev pub Refuses : Process h t → Type 0
  Refuses p = p ≡ record { status = exited 1; history = []; proxy = none; calls = [] }

  -- Only the process of the proxy makes the calls of the server, and only the controller, with a file or in the
  -- interactive mode, acts on the machine.
  abbrev pub CallsIf : Bool → List (NetAct (Task h t)) → Type 0
  CallsIf true calls = Unit
  CallsIf false calls = calls ≡ []

  abbrev pub ActsIf : Option String → Bool → History → Type 0
  ActsIf (some path) interactive s = Unit
  ActsIf none true s = Unit
  ActsIf none false s = s ≡ []

  -- Without a path the proxy panics before it calls anything.
  abbrev pub proxy_calls : Option String → List (NetAct (Task h t))
  proxy_calls none = []
  proxy_calls (some path) =
      (proxy_main h t inside.kernel inside.socket inside.signal path inside.arrivals []).1

  abbrev pub controlled : Opt → Ended
  controlled opt =
      run_interactive outside.machine outside.from_slice outside.show outside.wait opt
        outside.requests []

  -- What it does, by the first of the proxy, a file and the interactive mode that is asked for.
  abbrev pub Does : Bool → Option String → Opt → Process h t → Type 0
  Does true input opt p = p.calls ≡ proxy_calls opt.ipc_path
  Does false (some path) opt p =
      let end = run_file outside.machine outside.files outside.wait opt [] in
      (p.status ≡ returned end.result) × (p.history ≡ end.history)
  Does false none opt p =
      let end = controlled opt in
      (p.history ≡ end.history) × ((p.status ≡ exited 0) ↔ (is_ok end.result ≡ true))

  abbrev pub RunsOpt : Bool → Opt → Process h t → Type 0
  RunsOpt false opt p = Refuses p
  RunsOpt true opt p =
      CallsIf opt.proxy p.calls
      × ActsIf opt.input opt.interactive p.history
      × LeavesNone p.proxy
      × Does opt.proxy opt.input opt p

  abbrev pub Runs : Result Opt → Process h t → Type 0
  Runs (err e) p = Refuses p
  Runs (ok opt) p = RunsOpt (asks opt) opt p

module _ (h : Http) (t : Tls) (inside : Inside h t) (outside : Outside)
    (waits : (s : History) → outside.wait s ≡ ok tt) where
  -- What a branch leaves, of the two options that choose it.
  Leaves : Option String → Bool → List (NetAct (Task h t)) → Process h t → Type 0
  Leaves input interactive calls p =
      (p.calls ≡ calls) × ActsIf h t inside outside input interactive p.history × LeavesNone p.proxy

  interactive-Leaves :
      (interactive : Bool) (opt : Opt) (calls : List (NetAct (Task h t)))
      → Leaves none interactive calls (interactive_branch h t inside outside interactive opt calls)
  unfolding Leaves
  interactive-Leaves false opt calls = (refl, refl, tt)
  interactive-Leaves true opt calls = (
    refl,
    tt,
    run_interactive-LeavesNone outside.machine outside.from_slice outside.show outside.wait opt
        outside.requests [] waits,
  )

  file-Leaves :
      (input : Option String) (opt : Opt) (calls : List (NetAct (Task h t)))
      → Leaves input opt.interactive calls (file_branch h t inside outside input opt calls)
  unfolding Leaves
  file-Leaves none opt calls = interactive-Leaves opt.interactive opt calls
  file-Leaves (some path) opt calls =
      (refl, tt, run_file-LeavesNone outside.machine outside.files outside.wait opt [] waits)

  acts_none :
      (input : Option String) (interactive : Bool) → ActsIf h t inside outside input interactive []
  acts_none none true = tt
  acts_none none false = refl
  acts_none (some path) interactive = tt

  after_proxy-Leaves :
      (opt : Opt) (x : Result (Unit {0}) × List (NetAct (Task h t)))
      → Leaves opt.input opt.interactive x.1 (after_proxy h t inside outside opt x)
  unfolding Leaves
  after_proxy-Leaves opt (err e, calls) = (refl, acts_none opt.input opt.interactive, tt)
  after_proxy-Leaves opt (ok u, calls) = file-Leaves opt.input opt calls

  calls_of_branch :
      (proxy : Bool) (ipc_path : Option String)
      → CallsIf h t inside outside proxy (proxy_branch h t inside outside proxy ipc_path []).1
  calls_of_branch false ipc_path = refl
  calls_of_branch true ipc_path = tt

  exit_of_iff :
      (r : Result (Unit {0})) → (exit_of h t inside outside r ≡ exited 0) ↔ (is_ok r ≡ true)
  exit_of_iff (ok u) = (λ e. refl, λ e. refl)
  exit_of_iff (err e) = (λ same. absurd (returned-exited same), λ no_. cc)

  interactive-Does :
      (interactive : Bool) (opt : Opt) (calls : List (NetAct (Task h t)))
      → interactive ≡ true
      → Does h t inside outside false none opt
          (interactive_branch h t inside outside interactive opt calls)
  interactive-Does false opt calls no_ = cc
  interactive-Does true opt calls yes_ =
      (refl, exit_of_iff (controlled h t inside outside opt).result)

  file-Does :
      (input : Option String) (opt : Opt) (calls : List (NetAct (Task h t)))
      → opt.interactive || false || is_some input ≡ true
      → Does h t inside outside false input opt (file_branch h t inside outside input opt calls)
  file-Does (some path) opt calls asked = (refl, refl)
  file-Does none opt calls asked =
      interactive-Does opt.interactive opt calls
        (or_false opt.interactive (or_false (opt.interactive || false) asked))

  proxy_branch-calls :
      (ipc_path : Option String)
      → (proxy_branch h t inside outside true ipc_path []).1
        ≡ proxy_calls h t inside outside ipc_path
  proxy_branch-calls none = refl
  proxy_branch-calls (some path) = refl

  after_proxy-Does :
      (proxy : Bool) (opt : Opt)
      → opt.interactive || proxy || is_some opt.input ≡ true
      → Does h t inside outside proxy opt.input opt (
          after_proxy h t inside outside opt
            (proxy_branch h t inside outside proxy opt.ipc_path []))
  unfolding Leaves
  after_proxy-Does false opt asked = file-Does opt.input opt [] asked
  after_proxy-Does true opt asked =
      (after_proxy-Leaves opt (proxy_branch h t inside outside true opt.ipc_path [])).0
      ∙ proxy_branch-calls opt.ipc_path

  with_opt-RunsOpt :
      (asked : Bool) (opt : Opt)
      → asks opt ≡ asked
      → RunsOpt h t inside outside asked opt
          (with_opt h t inside outside (if asked then ok opt else err config_file_required))
  unfolding Leaves
  with_opt-RunsOpt false opt same = refl
  with_opt-RunsOpt true opt same =
      let branch = proxy_branch h t inside outside opt.proxy opt.ipc_path [] in
      let (kept, acts, none_left) = after_proxy-Leaves opt branch in
      (
        subst (CallsIf h t inside outside opt.proxy) (sym kept)
            (calls_of_branch opt.proxy opt.ipc_path),
        acts,
        none_left,
        after_proxy-Does opt.proxy opt same,
      )

  -- Where waiting for a signal does not fail, a process with no arguments to follow, or with wrong
  -- ones, does nothing and exits with 1. Any other makes calls of the proxy's server only if it is
  -- asked for the proxy alone, acts on the machine only with a file or in the interactive mode, and leaves no task of a
  -- proxy behind, whatever fails. If it is asked for the proxy, its calls are those of the proxy
  -- process, and else a file goes before the interactive mode: it acts as the run of the one or the
  -- other does, and returns what the first returns or exits with 0 exactly if the second succeeds.
  pub main-Runs : (args : Result Opt) → Runs h t inside outside args (main h t inside outside args)
  unfolding main from_args_checked checked
  main-Runs (err e) = refl
  main-Runs (ok opt) =
      subst (λ x. RunsOpt h t inside outside (asks opt) opt (with_opt h t inside outside x))
        (sym (checked_parts opt.interactive opt.proxy opt.input opt))
        (with_opt-RunsOpt (asks opt) opt refl)
