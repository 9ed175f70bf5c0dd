-- ===== src/Controller/Packets/Tests.antt =====
-- The packets of the set-up on the sample machine.
use chaos_tproxy.Prelude.{◌≡◌, refl, [], ◌∷◌, map}
use chaos_tproxy.Outcome.{ok}
use chaos_tproxy.Controller.Shell.{announce, start_pings}
use chaos_tproxy.Controller.Shell.Sample.{quiet}
use chaos_tproxy.Controller.Packets.{gratuitous_message, pings, gratuitous_arp, try_ping}

announces :
    gratuitous_arp quiet "10.0.0.2" (1 ∷ 2 ∷ []) []
    ≡ (ok tt, announce (gratuitous_message "10.0.0.2" (1 ∷ 2 ∷ [])) ∷ [])
unfolding gratuitous_arp
announces = refl

starts_pings :
    try_ping quiet "10.0.0.1" []
    ≡ (ok tt, start_pings (record { addr = "10.0.0.1"; identifier = 9; timeout = 1 }) ∷ [])
unfolding try_ping
starts_pings = refl

-- The shadowed counter never counts.
same_sequence : map (λ p. p.sequence) (pings 3) ≡ 1 ∷ 1 ∷ 1 ∷ []
same_sequence = refl
