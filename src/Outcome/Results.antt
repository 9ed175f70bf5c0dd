-- ===== src/Outcome/Results.antt =====
-- Sequencing of `anyhow::Result` (the `?` operator), and the combinators that the source uses.
use chaos_tproxy.Prelude.{◌≡◌, refl, List, [], ◌∷◌, Option, none, some}
use chaos_tproxy.Outcome.{Result, ok, err, panicked}

-- The `?` operator: an error ends the function.
infixl 5 ◌>>=◌
abbrev pub ◌>>=◌ {ℓ κ} : {X : Type ℓ} {Y : Type κ} → Result X → (X → Result Y) → Result Y
err problem >>= rest = err problem
ok x >>= rest = rest x

-- `.unwrap()`, of an option and of a result
abbrev pub unwrap {ℓ} : {A : Type ℓ} → Option A → Result A
unwrap none = err panicked
unwrap (some a) = ok a

abbrev pub unwrap_result {ℓ} : {A : Type ℓ} → Result A → Result A
unwrap_result (ok a) = ok a
unwrap_result (err e) = err panicked

-- `option.map(f).transpose()`
abbrev pub transpose {ℓ κ} :
    {A : Type ℓ} {B : Type κ} → (A → Result B) → Option A → Result (Option B)
transpose f none = ok none
transpose f (some a) = do b ← f a; ok (some b)

-- `into_iter().map(f).collect::<Result<Vec<_>, _>>()`: the first error ends it.
abbrev pub collect {ℓ κ} : {A : Type ℓ} {B : Type κ} → (A → Result B) → List A → Result (List B)
collect f [] = ok []
collect f (x ∷ xs) = do y ← f x; ys ← collect f xs; ok (y ∷ ys)

-- A chain that succeeds did so at each step.
pub ok_parts {ℓ κ} :
    {X : Type ℓ} {Y : Type κ} (step : Result X) (rest : X → Result Y) {y : Y}
    → (step >>= rest) ≡ ok y
    → (x : X) × (step ≡ ok x) × (rest x ≡ ok y)
ok_parts (err problem) rest both = cc
ok_parts (ok x) rest both = (x, refl, both)

pub ok-injective {ℓ} : {A : Type ℓ} {a b : A} → ok a ≡ ok b → a ≡ b
ok-injective h = cc

pub collect-cons {ℓ κ} :
    {A : Type ℓ} {B : Type κ} (f : A → Result B) (x : A) (xs : List A) {y : B} {ys : List B}
    → f x ≡ ok y
    → collect f xs ≡ ok ys
    → collect f (x ∷ xs) ≡ ok (y ∷ ys)
collect-cons f x xs p q = rw (p, q)
