-- ===== src/Controller/Net/Laws.antt =====
-- Which interface the functions of bridge.rs choose.
use chaos_tproxy.Prelude.{◌≡◌, refl, List, [], ◌∷◌, ◌++◌, All, true, false, Bool-cases, inl, inr}
use chaos_tproxy.Outcome.{Result, ok, err, no_valid_interface}
use chaos_tproxy.Controller.Net.{NetworkInterface, is_usable, get_default_interface}

-- The first usable interface of the list, or the error if none is usable.
abbrev pub Chooses : List NetworkInterface → Result NetworkInterface → Type 0
Chooses interfaces (ok i) =
    (before : List NetworkInterface) × (after : List NetworkInterface) × (interfaces
      ≡ before ++ i ∷ after)
    × All (λ j. is_usable j ≡ false) before
    × (is_usable i ≡ true)
Chooses interfaces (err e) = (e ≡ no_valid_interface) × All (λ j. is_usable j ≡ false) interfaces

Chooses-skip :
    (j : NetworkInterface) (interfaces : List NetworkInterface) (r : Result NetworkInterface)
    → is_usable j ≡ false
    → Chooses interfaces r
    → Chooses (j ∷ interfaces) r
Chooses-skip j interfaces (ok i) skip (before, after, split, unusable, usable) =
    (j ∷ before, after, rw split, (skip, unusable), usable)
Chooses-skip j interfaces (err e) skip (same, unusable) = (same, (skip, unusable))

-- The default interface is the first that is up, has an address and is no loopback, and there is an
-- error exactly if no interface is so.
pub get_default_interface-Chooses :
    (interfaces : List NetworkInterface) → Chooses interfaces (get_default_interface interfaces)
unfolding get_default_interface
get_default_interface-Chooses [] = (refl, tt)
get_default_interface-Chooses (i ∷ interfaces) = elim (Bool-cases (is_usable i)) [
  | inl usable ↦ rw usable ([], interfaces, refl, tt, usable)
  | inr skip ↦ rw skip (Chooses-skip i interfaces _ skip (get_default_interface-Chooses interfaces))
]
