-- ===== src/Tcp/Tests.antt =====
-- Sockets on the sample kernels.
use chaos_tproxy.Prelude.{◌≡◌, refl, ℕ, [], ◌∷◌}
use chaos_tproxy.Outcome.{err, library}
use chaos_tproxy.Outcome.Effects.{Returns}
use chaos_tproxy.Tcp.{
  new_socket, set_transparent, set_ip_transparent, set_socket, bind, connect, new_connector,
}
use chaos_tproxy.Tcp.Laws.{Connects, connect-Connects}
use chaos_tproxy.Tcp.Sample.{client_addr, target_addr, open_kernel, unprivileged, open_kernel-Works}

needs_privileges :
    bind (unprivileged {T = ℕ}) client_addr []
    ≡ (err (library "os error"), new_socket ∷ set_transparent 3 ∷ [])
unfolding bind set_socket set_ip_transparent
needs_privileges = refl

goes_from_client :
    Returns
      (Connects {T = ℕ} client_addr target_addr [])
      (connect open_kernel (new_connector target_addr client_addr) [])
goes_from_client = connect-Connects open_kernel open_kernel-Works client_addr target_addr []
