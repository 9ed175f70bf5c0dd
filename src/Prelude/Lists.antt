-- ===== src/Prelude/Lists.antt =====
-- Lists and options under Boolean tests: Rust's `iter().all`, `iter().any`, `iter().filter`,
-- and predicates by recursion with the lemmas that decide them.
use Prim.Native.Nat.{ℕ, suc}
use mathlib.Core.Path.{◌≡◌, refl}
use mathlib.Core.Logic.{◌↔◌, ◌⊎◌, inl, inr}
use mathlib.Core.Bool.{Bool, true, false, ◌&&◌, ◌||◌}
use mathlib.Core.Option.{Option, none, some}
use mathlib.Core.List.{List, [], ◌∷◌, ◌++◌}
use chaos_tproxy.Prelude.Tests.{if◌then◌else◌, Bool-cases, and_iff}

module _ {ℓ} {A : Type ℓ} where
  abbrev pub length : List A → ℕ
  length [] = 0
  length (x ∷ xs) = suc (length xs)

  abbrev pub all : (A → Bool) → List A → Bool
  all p [] = true
  all p (x ∷ xs) = p x && all p xs

  abbrev pub any : (A → Bool) → List A → Bool
  any p [] = false
  any p (x ∷ xs) = p x || any p xs

  abbrev pub filter : (A → Bool) → List A → List A
  filter p [] = []
  filter p (x ∷ xs) = if p x then x ∷ filter p xs else filter p xs

  abbrev pub find : (A → Bool) → List A → Option A
  find p [] = none
  find p (x ∷ xs) = if p x then some x else find p xs

  -- `option.iter().all(p)`
  abbrev pub all_some : (A → Bool) → Option A → Bool
  all_some p none = true
  all_some p (some x) = p x

module _ {ℓ} {A : Type ℓ} (P : A → Type 0) where
  abbrev pub All : List A → Type 0
  All [] = Unit
  All (x ∷ xs) = P x × All xs

  abbrev pub Some : List A → Type 0
  Some [] = ⊥
  Some (x ∷ xs) = P x ⊎ Some xs

  -- A constraint that is absent holds of everything.
  abbrev pub Given : Option A → Type 0
  Given none = Unit
  Given (some x) = P x

  pub all_iff :
      (p : A → Bool) → ((x : A) → (p x ≡ true) ↔ P x) → (xs : List A) → (all p xs ≡ true) ↔ All xs
  all_iff p e [] = (λ _. tt, λ _. refl)
  all_iff p e (x ∷ xs) = and_iff (p x) (all p xs) (e x) (all_iff p e xs)

  pub any_iff :
      (p : A → Bool) → ((x : A) → (p x ≡ true) ↔ P x) → (xs : List A) → (any p xs ≡ true) ↔ Some xs
  any_iff p e [] = (λ h. cc, λ h. absurd h)
  any_iff p e (x ∷ xs) = elim (Bool-cases (p x)) [
    | inl yes_ ↦ (λ _. inl ((e x).0 yes_), λ _. rw yes_)
    | inr no_ ↦ (
      λ h. inr ((any_iff p e xs).0 (rw no_ at h)),
      λ s. elim s [ inl px ↦ rw ((e x).1 px) | inr later ↦ rw no_ ((any_iff p e xs).1 later) ],
    )
  ]

  pub all_some_iff :
      (p : A → Bool)
      → ((x : A) → (p x ≡ true) ↔ P x)
      → (o : Option A) → (all_some p o ≡ true) ↔ Given o
  all_some_iff p e none = (λ _. tt, λ _. refl)
  all_some_iff p e (some x) = e x

  pub All-append : (xs ys : List A) → All xs → All ys → All (xs ++ ys)
  All-append [] ys hx hy = hy
  All-append (x ∷ xs) ys hx hy = (hx.0, All-append xs ys hx.1 hy)

pub All-weaken {ℓ} :
    {A : Type ℓ} (P Q : A → Type 0) (xs : List A) → ((x : A) → P x → Q x) → All P xs → All Q xs
All-weaken P Q [] weaker h = tt
All-weaken P Q (x ∷ xs) weaker h = (weaker x h.0, All-weaken P Q xs weaker h.1)
