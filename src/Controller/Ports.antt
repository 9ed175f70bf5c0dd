-- ===== src/Controller/Ports.antt =====
-- `get_free_port` of chaos-tproxy-controller/src/proxy/config.rs: the port that the proxy listens
-- on. The `for` loop over `1025..u16::MAX` recurs on the rounds that are left, 64510 at the start.
pub mod Bounds
mod Tests
use chaos_tproxy.Prelude.{
  ℕ, zero, suc, ◌+◌, ◌-◌, ◌≤◌, ◌<◌, ◌≡◌, ◌≢◌, ◌↔◌, refl, Bool, true, false, not, List, [], ◌∷◌,
  Option, none, some, arith, ◌==◌, ==_iff, all, All, all_iff, if◌then◌else◌, Bool-cases, inl, inr,
  subst, sym, ◌∙◌, false≢true,
}
use chaos_tproxy.Outcome.{Result, ok, err, ports_exhausted}

abbrev pub first_port : ℕ
first_port = 1025

-- `u16::MAX`, which the range leaves out.
abbrev pub u16_max : ℕ
u16_max = 65535

abbrev pub is_free : Option (List ℕ) → ℕ → Bool
is_free none port = true
is_free (some ports) port = all (λ p. not (p == port)) ports

unfoldable pub free_from : ℕ → ℕ → Option (List ℕ) → Result ℕ
free_from zero port ports = err ports_exhausted
free_from (suc rounds) port ports =
    let rest = free_from rounds (port + 1) ports in if is_free ports port then ok port else rest

unfoldable pub get_free_port : Option (List ℕ) → Result ℕ
get_free_port ports = free_from (u16_max - first_port) first_port ports

-- The port is none of the ports that the proxy takes over.
abbrev pub IsFree : Option (List ℕ) → ℕ → Type 0
IsFree none port = Unit
IsFree (some ports) port = All (λ p. p ≢ port) ports

ne_iff : (p q : ℕ) → (not (p == q) ≡ true) ↔ (p ≢ q)
ne_iff p q = (λ e. ground arith, λ n. ground arith)

is_free_iff : (ports : Option (List ℕ)) (port : ℕ) → (is_free ports port ≡ true) ↔ IsFree ports port
is_free_iff none port = (λ e. tt, λ u. refl)
is_free_iff (some ports) port =
    all_iff (λ p. p ≢ port) (λ p. not (p == port)) (λ p. ne_iff p port) ports

-- What a search over `rounds` ports from `port` answers.
abbrev pub FirstFree : ℕ → ℕ → Option (List ℕ) → Result ℕ → Type 0
FirstFree low high ports (ok p) =
    (low ≤ p) × (p < high) × IsFree ports p × ((q : ℕ) → low ≤ q → q < p → ¬ IsFree ports q)
FirstFree low high ports (err e) =
    (e ≡ ports_exhausted) × ((q : ℕ) → low ≤ q → q < high → ¬ IsFree ports q)

-- A port that is not free can be put in front of the range.
FirstFree-extend :
    (low high : ℕ) (ports : Option (List ℕ)) (r : Result ℕ)
    → ¬ IsFree ports low
    → FirstFree (low + 1) high ports r
    → FirstFree low high ports r
FirstFree-extend low high ports r taken f = extend r f
  where
    lowest : (q : ℕ) → low ≤ q → (low + 1 ≤ q → ¬ IsFree ports q) → ¬ IsFree ports q
    lowest q h above free = elim (Bool-cases (q == low)) [
      | inl same ↦ taken (subst (IsFree ports) ((==_iff q low).0 same) free)
      | inr other ↦ above (ground arith) free
    ]

    extend : (r : Result ℕ) → FirstFree (low + 1) high ports r → FirstFree low high ports r
    extend (ok p) (at_least, below, free, least) =
        (omega arith, below, free, λ q h k. lowest q h (λ h'. least q h' k))
    extend (err e) (same, all_taken) = (same, λ q h k. lowest q h (λ h'. all_taken q h' k))

free_from-FirstFree :
    (rounds port high : ℕ) (ports : Option (List ℕ))
    → high ≡ port + rounds
    → FirstFree port high ports (free_from rounds port ports)
unfolding free_from
free_from-FirstFree zero port high ports e = (refl, λ q h k. absurd (omega arith))
free_from-FirstFree (suc rounds) port high ports e = elim (Bool-cases (is_free ports port)) [
  | inl free ↦
      rw free
        (omega arith, omega arith, (is_free_iff ports port).0 free, λ q h k. absurd (omega arith))
  | inr taken ↦ rw taken (
      FirstFree-extend port high ports (free_from rounds (port + 1) ports)
        (λ f. false≢true (sym taken ∙ (is_free_iff ports port).1 f))
        (free_from-FirstFree rounds (port + 1) high ports (omega arith)))
]

-- The port is the lowest from 1025 up to 65534 that is not a proxy port, and the search fails, with
-- the error of the source, exactly if all of these are proxy ports.
pub get_free_port-FirstFree :
    (ports : Option (List ℕ)) → FirstFree 1025 65535 ports (get_free_port ports)
unfolding get_free_port
get_free_port-FirstFree ports = free_from-FirstFree 64510 1025 65535 ports (omega arith)
