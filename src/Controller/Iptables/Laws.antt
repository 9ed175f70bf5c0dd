-- ===== src/Controller/Iptables/Laws.antt =====
-- Where the packet rules of iptables.rs are put.
use chaos_tproxy.Prelude.{◌≡◌, refl, ◌⊎◌, inl, inr, ◌∷◌, Option, none, some, String, All}
use chaos_tproxy.Controller.Shell.{Command}
use chaos_tproxy.Controller.Commands.{NetEnv, ip_netns}
use chaos_tproxy.Controller.Iptables.{redirect, set_iptables, set_iptables_safe}

-- The command runs inside the namespace, or it is a rule of the nat table of ebtables, which
-- `clear_ebtables` flushes.
abbrev pub IsUndone : String → Command → Type 0
IsUndone netns c =
    ((inner : Command) × (c ≡ ip_netns netns inner))
    ⊎ ((args : Command) × (c ≡ "ebtables" ∷ "-t" ∷ "nat" ∷ args))

inside : (netns : String) (inner : Command) → IsUndone netns (ip_netns netns inner)
inside netns inner = inl (inner, refl)

redirect-IsUndone :
    (env : NetEnv) (ports : Option String) (listen_port : String)
    → IsUndone env.netns (redirect env ports listen_port)
redirect-IsUndone env none listen_port = inside env.netns _
redirect-IsUndone env (some ports) listen_port = inside env.netns _

-- Every rule that is set, in either mode, is set by a command inside the network namespace of the
-- environment or in the nat table of ebtables.
pub set_iptables-IsUndone :
    (env : NetEnv) (ports : Option String) (listen_port mac : String)
    → All (IsUndone env.netns) (set_iptables env ports listen_port mac)
      × All (IsUndone env.netns) (set_iptables_safe env mac)
unfolding set_iptables set_iptables_safe
set_iptables-IsUndone env ports listen_port mac =
    let here = inside env.netns in
    (
      (
        here _,
        (
          here _,
          (
            here _,
            (here _, (redirect-IsUndone env ports listen_port, (here _, (inr (_, refl), tt)))),
          ),
        ),
      ),
      (here _, (here _, (here _, (here _, (inr (_, refl), tt))))),
    )
