-- ===== src/Controller/Ports/Tests.antt =====
-- Runs of `get_free_port` of chaos-tproxy-controller/src/proxy/config.rs.
use chaos_tproxy.Prelude.{ℕ, ◌≡◌, ◌≤◌, ◌<◌, refl, [], ◌∷◌, some, arith}
use chaos_tproxy.Outcome.{ok}
use chaos_tproxy.Controller.Ports.{
  free_from, get_free_port, IsFree, FirstFree, get_free_port-FirstFree,
}
use chaos_tproxy.Controller.Ports.Bounds.{get_free_port-finds}

skips_two : get_free_port (some (1025 ∷ 1026 ∷ [])) ≡ ok 1027
unfolding get_free_port free_from
skips_two = refl

get_free_port-FirstFree_example :
    FirstFree 1025 65535 (some (1025 ∷ 1026 ∷ [])) (get_free_port (some (1025 ∷ 1026 ∷ [])))
get_free_port-FirstFree_example = get_free_port-FirstFree (some (1025 ∷ 1026 ∷ []))

get_free_port-finds_example :
    (p : ℕ) × (get_free_port (some (1025 ∷ 1026 ∷ [])) ≡ ok p)
    × (1025 ≤ p)
    × (p < 65535)
    × IsFree (some (1025 ∷ 1026 ∷ [])) p
get_free_port-finds_example = get_free_port-finds (1025 ∷ 1026 ∷ []) (omega arith)
