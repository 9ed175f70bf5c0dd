-- ===== src/Controller/Proxy/Names.antt =====
-- The prefix of the names that `NetEnv::new` gives to what it creates.
use text.Mathlib.Text.{starts_with}
use chaos_tproxy.Prelude.{
  ◌≡◌, refl, ap, Bool, true, false, not, if◌then◌else◌, ◌&&◌, Bool-cases, inl, inr, List, [], ◌∷◌,
  ◌++◌, All, all, String,
}
use chaos_tproxy.Outcome.{Result, ok, err}
use chaos_tproxy.Controller.Net.{NetworkInterface}
use chaos_tproxy.Controller.Proxy.{key_of, fresh_prefix}

-- No interface has a name that starts with the key.
abbrev pub IsFree : List NetworkInterface → String → Type 0
IsFree interfaces key = All (λ i. starts_with i.name key ≡ false) interfaces

-- Some interface has such a name.
abbrev pub is_taken : List NetworkInterface → String → Bool
is_taken [] key = false
is_taken (i ∷ interfaces) key = if starts_with i.name key then true else is_taken interfaces key

-- The key is that of the first identifier that is not taken.
abbrev pub Draws : List NetworkInterface → List String → Result String → Type 0
Draws interfaces uuids (ok key) =
    (before : List String) × (uuid : String) × (after : List String) × (uuids
      ≡ before ++ uuid ∷ after)
    × All (λ u. is_taken interfaces (key_of u) ≡ true) before
    × (key ≡ key_of uuid)
    × IsFree interfaces key
Draws interfaces uuids (err e) = All (λ u. is_taken interfaces (key_of u) ≡ true) uuids

abbrev unused : List NetworkInterface → String → Bool
unused interfaces key = all (λ i. not (starts_with i.name key)) interfaces

free_parts : (b c : Bool) → not b && c ≡ true → (b ≡ false) × (c ≡ true)
free_parts false c free = (refl, free)
free_parts true c free = cc

unused-IsFree :
    (interfaces : List NetworkInterface) (key : String)
    → unused interfaces key ≡ true
    → IsFree interfaces key
unused-IsFree [] key free = tt
unused-IsFree (i ∷ interfaces) key free =
    let (other, rest) = free_parts (starts_with i.name key) (unused interfaces key) free in
    (other, unused-IsFree interfaces key rest)

used_parts :
    (b c d : Bool) → (c ≡ false → d ≡ true) → not b && c ≡ false → (if b then true else d) ≡ true
used_parts true c d later used = refl
used_parts false c d later used = later used

unused-is_taken :
    (interfaces : List NetworkInterface) (key : String)
    → unused interfaces key ≡ false
    → is_taken interfaces key ≡ true
unused-is_taken [] key used = cc
unused-is_taken (i ∷ interfaces) key used =
    used_parts (starts_with i.name key) (unused interfaces key) (is_taken interfaces key)
      (unused-is_taken interfaces key) used

Draws-skip :
    (interfaces : List NetworkInterface) (uuid : String) (uuids : List String) (r : Result String)
    → is_taken interfaces (key_of uuid) ≡ true
    → Draws interfaces uuids r
    → Draws interfaces (uuid ∷ uuids) r
Draws-skip interfaces uuid uuids (ok key) taken (before, found, after, split, skipped, same, free) =
    (uuid ∷ before, found, after, ap (◌∷◌ uuid) split, (taken, skipped), same, free)
Draws-skip interfaces uuid uuids (err e) taken skipped = (taken, skipped)

-- The prefix of an environment is the key of the first identifier that no interface's name starts
-- with; the search gives none only if all identifiers are taken.
pub fresh_prefix-Draws :
    (interfaces : List NetworkInterface) (uuids : List String)
    → Draws interfaces uuids (fresh_prefix interfaces uuids)
unfolding fresh_prefix
fresh_prefix-Draws interfaces [] = tt
fresh_prefix-Draws interfaces (uuid ∷ uuids) = elim (Bool-cases (unused interfaces (key_of uuid))) [
  | inl free ↦
      rw free ([], uuid, uuids, refl, tt, refl, unused-IsFree interfaces (key_of uuid) free)
  | inr used ↦ rw used (
      Draws-skip interfaces uuid uuids _ (unused-is_taken interfaces (key_of uuid) used)
        (fresh_prefix-Draws interfaces uuids))
]
