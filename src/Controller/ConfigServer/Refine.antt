-- ===== src/Controller/ConfigServer/Refine.antt =====
-- The server of configurations as a machine of two phases: what its answers tell is all that a
-- client needs to know whether a proxy runs.
use chaos_tproxy.Prelude.{
  ◌≡◌, refl, ℕ, Bool, true, false, ◌&&◌, List, [], ◌∷◌, Option, none, some, String, str_eq,
  Bool-cases, inl, inr, ◌==◌, if◌then◌else◌,
}
use chaos_tproxy.Outcome.{Error, Result, ok, err}
use chaos_tproxy.RawConfig.{RawConfig as ProxyRawConfig}
use chaos_tproxy.Controller.Config.{RawConfig}
use chaos_tproxy.Controller.Shell.{History, Machine}
use chaos_tproxy.Controller.Proxy.{Proxy}
use chaos_tproxy.Controller.Proxy.Pairing.{is_some, is_ok, IsWhole}
use chaos_tproxy.Controller.ConfigServer.{
  Request, Response, Handled, panics, read_config, handle, serve,
}
use chaos_tproxy.Controller.ConfigServer.Laws.{Tells, handle-Tells}

pub data Phase : Type 0 where
  idle running : Phase

-- An answer that is not 200, an error or a panic, and 200 for a configuration whose ports are absent
-- and for one whose ports are present.
pub data Reply : Type 0 where
  refused failed cleared started : Reply

pub data Step : Phase → Reply → Phase → Type 0 where
  keep : (x : Phase) → Step x refused x
  fail : (x : Phase) → Step x failed idle
  clear : (x : Phase) → Step x cleared idle
  start : (x : Phase) → Step x started running

pub data Steps : Phase → List Reply → Phase → Type 0 where
  done : (x : Phase) → Steps x [] x
  more :
      (x y z : Phase) (r : Reply) (rs : List Reply) → Step x r y → Steps y rs z → Steps x (r ∷ rs) z

abbrev pub phase : Bool → Phase
phase false = idle
phase true = running

abbrev pub phase_of : Proxy → Phase
phase_of p = phase (is_some p.task)

abbrev accepted : Option String → Reply
accepted none = cleared
accepted (some ports) = started

abbrev told : Result ProxyRawConfig → Reply
told (err e) = refused
told (ok config) = accepted config.proxy_ports

abbrev pub reply_of : Result ProxyRawConfig → Result Response → Reply
reply_of read (err e) = failed
reply_of read (ok answer) = if answer.status == 200 then told read else refused

accepted-Step :
    (x : Phase) (ports : Option String) → Step x (accepted ports) (phase (is_some ports))
accepted-Step x none = clear x
accepted-Step x (some ports) = start x

reply_of-Step :
    (x : Phase) (config : ProxyRawConfig) (r : Result Response) (task : Option ℕ)
    → is_some task ≡ is_ok r && is_some config.proxy_ports
    → ((answer : Response) → r ≡ ok answer → answer.status ≡ 200)
    → Step x (reply_of (ok config) r) (phase (is_some task))
reply_of-Step x config (err e) task same always = rw same (fail x)
reply_of-Step x config (ok answer) task same always =
    rw (same, always answer refl) (accepted-Step x config.proxy_ports)

Tells-Step :
    (put : Bool) (read : Result ProxyRawConfig) (old : Proxy) (t : Handled)
    → Tells put read old t
    → Step (phase_of old) (reply_of read t.result) (phase_of t.proxy)
Tells-Step false read old t (same, answered) = rw (same, answered) (keep (phase_of old))
Tells-Step true (err e) old t (same, body, answered) = rw (same, answered) (keep (phase_of old))
Tells-Step true (ok config) old t (runs, always) =
    reply_of-Step (phase_of old) config t.result t.proxy.task runs always

module _ (m : Machine) (from_slice : List ℕ → Result RawConfig) (show : Error → String) where
  -- The replies to the requests, in the order in which `serve` gives them; a panic is the last.
  unfoldable pub replies : List Request → Proxy → History → List Reply
  replies [] p s = []
  replies (request ∷ requests) p s =
      let t = handle m from_slice show p request s in
      let later = replies requests t.proxy t.history in
      let reply = reply_of (read_config m from_slice show request s).0 t.result in
      if panics t.result then reply ∷ [] else reply ∷ later

  -- A server of a whole proxy refines the machine of two phases, whatever requests it is sent and
  -- whatever the machine under it answers: its replies, up to the first call that panics, which ends
  -- the serving, are steps from the phase of the proxy before them to that after them. A refused
  -- request keeps the phase, an answer 200 to a configuration whose told `proxy_ports` are present,
  -- be it as the text of an empty list, leads to a running task, and 200 to one where they are
  -- absent, an error or a panic to no task.
  pub serve-Steps :
      (requests : List Request) (p : Proxy) (s : History)
      → IsWhole p
      → Steps
          (phase_of p)
          (replies requests p s)
          (phase_of (serve m from_slice show requests p s).proxy)
  unfolding serve replies
  serve-Steps [] p s whole = done (phase_of p)
  serve-Steps (request ∷ requests) p s whole =
      let t = handle m from_slice show p request s in
      let (kept, tells) = handle-Tells m from_slice show p request s whole in
      let step = Tells-Step (str_eq request.method "PUT") _ p t tells in
      let rest = serve-Steps requests t.proxy t.history kept in
      elim (Bool-cases (panics t.result)) [
        | inl yes_ ↦ rw yes_ (more _ _ _ _ _ step (done (phase_of t.proxy)))
        | inr no_ ↦ rw no_ (more _ _ _ _ _ step rest)
      ]
