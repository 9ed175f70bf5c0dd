-- ===== src/Controller/Ports/Bounds.antt =====
-- When the port search cannot fail.
use chaos_tproxy.Prelude.{
  ℕ, zero, suc, ◌+◌, ◌≤◌, ◌<◌, ◌≡◌, sym, subst, false, Bool-cases, inl, inr, List, [], ◌∷◌, some,
  length, arith, leb, if◌then◌else◌, false≢true,
}
use chaos_tproxy.Outcome.{ok}
use chaos_tproxy.Controller.Ports.{
  is_free, free_from, get_free_port, IsFree, FirstFree, get_free_port-FirstFree,
}

-- How many of the ports are `low` or more.
at_least : ℕ → List ℕ → ℕ
at_least low [] = 0
at_least low (p ∷ ports) = if leb low p then suc (at_least low ports) else at_least low ports

at_least-le : (low : ℕ) (ports : List ℕ) → at_least (low + 1) ports ≤ at_least low ports
unfolding at_least
at_least-le low [] = omega arith
at_least-le low (p ∷ ports) = ground (arith, at_least-le low ports)

-- A port that is not free is one of them.
at_least-taken :
    (low : ℕ) (ports : List ℕ)
    → is_free (some ports) low ≡ false
    → at_least (low + 1) ports + 1 ≤ at_least low ports
unfolding at_least
at_least-taken low [] taken = absurd (false≢true (sym taken))
at_least-taken low (p ∷ ports) taken =
    ground (arith, at_least-taken low ports, at_least-le low ports)

at_least-length : (low : ℕ) (ports : List ℕ) → at_least low ports ≤ length ports
unfolding at_least
at_least-length low [] = omega arith
at_least-length low (p ∷ ports) = ground (arith, at_least-length low ports)

free_from-finds :
    (rounds port : ℕ) (ports : List ℕ)
    → at_least port ports < rounds
    → (p : ℕ) × (free_from rounds port (some ports) ≡ ok p)
unfolding free_from
free_from-finds zero port ports few = absurd (omega arith)
free_from-finds (suc rounds) port ports few = elim (Bool-cases (is_free (some ports) port)) [
  | inl free ↦ (port, rw free)
  | inr taken ↦
      let fewer : at_least (port + 1) ports < rounds =
        omega (arith, at_least-taken port ports taken) in
      let (p, found) = free_from-finds rounds (port + 1) ports fewer in (p, rw taken found)
]

-- With fewer than 64510 proxy ports the search always finds a port, one from 1025 up to 65534 that
-- is none of them, so neither the range nor 16 bits are left.
pub get_free_port-finds :
    (ports : List ℕ)
    → length ports < 64510
    → (p : ℕ) × (get_free_port (some ports) ≡ ok p)
      × (1025 ≤ p)
      × (p < 65535)
      × IsFree (some ports) p
unfolding get_free_port
get_free_port-finds ports few =
    let (p, found) = free_from-finds 64510 1025 ports (omega (arith, at_least-length 1025 ports)) in
    let (low, high, free, least) =
      subst (FirstFree 1025 65535 (some ports)) found (get_free_port-FirstFree (some ports)) in
    (p, found, low, high, free)
