-- ===== src/Controller/ConfigServer/Interleaving.antt =====
-- The task that serves configurations beside the stop of the server, of
-- chaos-tproxy-controller/src/cmd/interactive/handler.rs: `select!` and the mutex as steps.
-- `call` takes the lock before it handles a request, and `stop` keeps it from its start to its end.
-- The body of a request arrives in segments, before or while the call has the lock, and no segment
-- needs ever come; a call for a configuration cannot answer before its body has ended. What it does
-- then, with the lock, is one step, and a panic in it ends the task that serves. A call that waits
-- for the lock may be dropped.
pub mod Accounts
pub mod Inv
pub mod Laws
mod Tests
use chaos_tproxy.Prelude.{
  ℕ, ◌≡◌, Bool, true, false, not, ◌&&◌, ◌||◌, str_eq, ◌++◌, [], ◌∷◌, List, Option, none, some,
  String,
}
use chaos_tproxy.Outcome.{Error, Result, ok, err}
use chaos_tproxy.Controller.Config.{RawConfig}
use chaos_tproxy.Controller.Shell.{History, Machine}
use chaos_tproxy.Controller.Proxy
use chaos_tproxy.Controller.Proxy.{Proxy}
use chaos_tproxy.Controller.Proxy.Pairing.{is_some}
use chaos_tproxy.Controller.ConfigServer.{Request, panics, ConfigServer, handle, tell, wait_for}

-- Who has the mutex around the proxy.
pub data Lock : Type 0 where
  free by_call by_stop : Lock

-- How far `stop` is: not begun, with the lock, with the proxy stopped, with the signal sent, and
-- back with an error of the proxy's stop or with the result of the end.
pub data Stage : Type 0 where
  before locked idle told : Stage
  failed : Error → Stage
  over : Result (Unit {0}) → Stage

pub record System : Type 0 where
  pub proxy : Proxy
  pub history : History
  pub lock : Lock
  -- The request of the call that waits for the lock or has it.
  -- So much of it as has arrived, and whether its body has ended.
  pub asked : Option Request
  pub ended : Bool
  -- The task that serves has not ended.
  pub serving : Bool
  pub stage : Stage

abbrev pub holds_not : Lock → Bool
holds_not by_call = false
holds_not free = true
holds_not by_stop = true

-- The task sees the signal, or that the sender is gone.
abbrev pub is_told : Stage → Bool
is_told told = true
is_told (failed e) = true
is_told (over r) = true
is_told before = false
is_told locked = false
is_told idle = false

-- A request whose body is still to come, and one with a further segment.
abbrev pub head_of : String → Request
head_of method = record { method = method; body = [] }

abbrev pub with_segment : Request → Result (List ℕ) → Request
with_segment request segment = record request { body = request.body ++ segment ∷ [] }

-- A call that reads the body waits for its end.
abbrev pub can_answer : Request → Bool → Bool
can_answer request ended = not (str_eq request.method "PUT") || ended

abbrev pub start_of : ConfigServer → History → System
start_of self s = record {
  proxy = self.proxy;
  history = s;
  lock = free;
  asked = none;
  ended = false;
  serving = is_some self.task;
  stage = before;
}

module _ (m : Machine) (from_slice : List ℕ → Result RawConfig) (show : Error → String) where
  -- `call`, with the lock. A panic unwinds, which frees the lock and ends the task.
  abbrev pub handled : System → Request → System
  handled x request =
      let t = handle m from_slice show x.proxy request x.history in
      record x {
        proxy = t.proxy;
        history = t.history;
        lock = free;
        asked = none;
        serving = not (panics t.result) && x.serving;
      }

  -- `proxy.stop().await?`
  abbrev pub after_stop : Result (Unit {0}) → System → System
  after_stop (ok u) x = record x { stage = idle }
  after_stop (err e) x = record x { stage = failed e; lock = free }

  abbrev pub stopped_proxy : System → System
  stopped_proxy x =
      let t = Proxy.stop m x.proxy x.history in
      after_stop t.result (record x { proxy = t.proxy; history = t.history })

  -- `sender.send(())`, and `handler.await?` with the drop of the lock.
  abbrev pub sent : ConfigServer → System → System
  sent self x = record x { history = (tell m self.sender x.history).1; stage = told }

  abbrev pub joined : ConfigServer → System → System
  joined self x =
      let end = wait_for m self.task x.history in
      record x { history = end.1; stage = over end.0; lock = free }

  pub data Step (self : ConfigServer) : System → System → Type 0 where
    arrive :
        (x : System) (method : String)
        → x.serving ≡ true
        → x.asked ≡ none
        → Step self x (record x { asked = some (head_of method); ended = false })
    receive :
        (x : System) (request : Request) (segment : Result (List ℕ))
        → x.asked ≡ some request
        → x.ended ≡ false
        → Step self x (record x { asked = some (with_segment request segment) })
    end_body : (x : System) → Step self x (record x { ended = true })
    drop : (x : System) → holds_not x.lock ≡ true → Step self x (record x { asked = none })
    lock_call :
        (x : System) (request : Request)
        → x.asked ≡ some request
        → x.lock ≡ free
        → Step self x (record x { lock = by_call })
    answer_call :
        (x : System) (request : Request)
        → x.asked ≡ some request
        → x.lock ≡ by_call
        → can_answer request x.ended ≡ true
        → Step self x (handled x request)
    lock_stop :
        (x : System)
        → x.stage ≡ before
        → x.lock ≡ free
        → Step self x (record x { lock = by_stop; stage = locked })
    stop_proxy : (x : System) → x.stage ≡ locked → Step self x (stopped_proxy x)
    send : (x : System) → x.stage ≡ idle → Step self x (sent self x)
    end_serving :
        (x : System)
        → is_told x.stage ≡ true
        → holds_not x.lock ≡ true
        → Step self x (record x { serving = false; asked = none })
    join : (x : System) → x.stage ≡ told → x.serving ≡ false → Step self x (joined self x)

  pub data Reaches (self : ConfigServer) : System → System → Type 0 where
    here : (x : System) → Reaches self x x
    after : (x y z : System) → Reaches self x y → Step self y z → Reaches self x z
