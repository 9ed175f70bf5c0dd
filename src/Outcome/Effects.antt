-- ===== src/Outcome/Effects.antt =====
-- Code that acts on the outside: the acts so far are its state, and whatever the outside answers may
-- depend on all of them. An error ends the code and leaves its acts.
use chaos_tproxy.Prelude.{◌≡◌, refl, subst, List, [], ◌∷◌, ◌++◌}
use chaos_tproxy.Outcome.{Error, Result, ok, err}
use chaos_tproxy.Outcome.Results.{unwrap_result}

abbrev pub Eff : Type 0 → Type 0 → Type 0
Eff X A = List X → Result A × List X

module _ {X : Type 0} where
  abbrev pub proceed : {A B : Type 0} → Result A × List X → (A → Eff X B) → Result B × List X
  proceed (err e, s) k = (err e, s)
  proceed (ok a, s) k = k a s

  infixl 5 ◌>>=◌ ◌>>◌
  abbrev pub ◌>>=◌ : {A B : Type 0} → Eff X A → (A → Eff X B) → Eff X B
  (m >>= k) s = proceed (m s) k

  abbrev pub ◌>>◌ : {B : Type 0} → Eff X (Unit {0}) → Eff X B → Eff X B
  m >> k = m >>= λ _. k

  abbrev pub give : {A : Type 0} → A → Eff X A
  give a s = (ok a, s)

  abbrev pub of_result : {A : Type 0} → Result A → Eff X A
  of_result r s = (r, s)

  -- An act, and the answer to it.
  abbrev pub act : {A : Type 0} → X → (List X → Result A) → Eff X A
  act a answer s = (answer s, s ++ a ∷ [])

  abbrev pub recovered : {A : Type 0} → Result A × List X → A → Result A × List X
  recovered (ok a, s) d = (ok a, s)
  recovered (err e, s) d = (ok d, s)

  -- `unwrap_or_else` with a value after a logged error.
  abbrev pub recover : {A : Type 0} → Eff X A → A → Eff X A
  recover m d s = recovered (m s) d

  -- `.unwrap()` of what code returns.
  abbrev pub unwrapped : {A : Type 0} → Eff X A → Eff X A
  unwrapped m s = (unwrap_result (m s).0, (m s).1)

  pub recovered_tt : (r : Result (Unit {0})) (s : List X) → recovered (r, s) tt ≡ (ok tt, s)
  recovered_tt (ok u) s = refl
  recovered_tt (err e) s = refl

  -- What holds of the value and the acts of code that succeeds.
  abbrev pub OnOk : {A : Type 0} → (A → List X → Type 0) → Result A × List X → Type 0
  OnOk P (ok a, s) = P a s
  OnOk P (err e, s) = Unit {0}

  pub OnOk-weaken :
      {A : Type 0} (P Q : A → List X → Type 0) (x : Result A × List X)
      → ((a : A) (s : List X) → P a s → Q a s)
      → OnOk P x
      → OnOk Q x
  OnOk-weaken P Q (ok a, s) weaker p = weaker a s p
  OnOk-weaken P Q (err e, s) weaker p = tt

  -- The rule for a part whose own result has been described, and that for an answer.
  pub OnOk-part :
      {A B : Type 0} (Q : A → List X → Type 0) (P : B → List X → Type 0) (first : Result A × List X)
      (next : A → Eff X B)
      → OnOk Q first
      → ((a : A) (s : List X) → Q a s → OnOk P (next a s))
      → OnOk P (proceed first next)
  OnOk-part Q P (ok a, s) next q rest = rest a s q
  OnOk-part Q P (err e, s) next q rest = tt

  pub OnOk-answer :
      {A B : Type 0} (P : B → List X → Type 0) (answer : Result A) (s : List X) (next : A → Eff X B)
      → ((a : A) → answer ≡ ok a → OnOk P (next a s))
      → OnOk P (proceed (answer, s) next)
  OnOk-answer P (ok a) s next rest = rest a refl
  OnOk-answer P (err e) s next rest = tt

  pub OnOk-last :
      {A : Type 0} (P : A → List X → Type 0) (answer : Result A) (s : List X)
      → ((a : A) → answer ≡ ok a → P a s)
      → OnOk P (answer, s)
  OnOk-last P (ok a) s rest = rest a refl
  OnOk-last P (err e) s rest = tt

  -- The same for what holds if the code fails.
  abbrev pub OnErr : {A : Type 0} → (Error → List X → Type 0) → Result A × List X → Type 0
  OnErr Q (ok a, s) = Unit {0}
  OnErr Q (err e, s) = Q e s

  pub OnErr-weaken :
      {A : Type 0} (P Q : Error → List X → Type 0) (x : Result A × List X)
      → ((e : Error) (s : List X) → P e s → Q e s)
      → OnErr P x
      → OnErr Q x
  OnErr-weaken P Q (ok a, s) weaker p = tt
  OnErr-weaken P Q (err e, s) weaker p = weaker e s p

  pub OnErr-itself :
      {A : Type 0} (Q : Error → List X → Type 0) (x : Result A × List X)
      → ((e : Error) (s : List X) → x ≡ (err e, s) → Q e s)
      → OnErr Q x
  OnErr-itself Q (ok a, s) rest = tt
  OnErr-itself Q (err e, s) rest = rest e s refl

  pub OnErr-part :
      {A B : Type 0} (P : A → List X → Type 0) (Q : Error → List X → Type 0)
      (first : Result A × List X) (next : A → Eff X B)
      → OnOk P first
      → OnErr Q first
      → ((a : A) (s : List X) → P a s → OnErr Q (next a s))
      → OnErr Q (proceed first next)
  OnErr-part P Q (ok a, s) next p q rest = rest a s p
  OnErr-part P Q (err e, s) next p q rest = q

  pub OnErr-answer :
      {A B : Type 0} (Q : Error → List X → Type 0) (answer : Result A) (s : List X)
      (next : A → Eff X B)
      → ((e : Error) → answer ≡ err e → Q e s)
      → ((a : A) → answer ≡ ok a → OnErr Q (next a s))
      → OnErr Q (proceed (answer, s) next)
  OnErr-answer Q (ok a) s next fails rest = rest a refl
  OnErr-answer Q (err e) s next fails rest = fails e refl

  -- Code that succeeds, and what it gives then.
  abbrev pub IsOk : {A : Type 0} → Result A × List X → Type 0
  IsOk (ok a, s) = Unit {0}
  IsOk (err e, s) = ⊥

  abbrev pub Returns : {A : Type 0} → (A → List X → Type 0) → Result A × List X → Type 0
  Returns P (ok a, s) = P a s
  Returns P (err e, s) = ⊥

  pub IsOk-answer :
      {A B : Type 0} (answer : Result A) (s : List X) (next : A → Eff X B)
      → (a : A) × (answer ≡ ok a)
      → ((a : A) → IsOk (next a s))
      → IsOk (proceed (answer, s) next)
  IsOk-answer (ok a) s next given rest = rest a
  IsOk-answer (err e) s next (a, same) rest = cc

  pub IsOk-part :
      {A B : Type 0} (first : Result A × List X) (next : A → Eff X B)
      → IsOk first
      → ((a : A) (s : List X) → IsOk (next a s))
      → IsOk (proceed first next)
  IsOk-part (ok a, s) next given rest = rest a s
  IsOk-part (err e, s) next given rest = elim given [ ]

  pub IsOk-last :
      {A : Type 0} (answer : Result A) (s : List X) → (a : A) × (answer ≡ ok a) → IsOk (answer, s)
  IsOk-last (ok a) s given = tt
  IsOk-last (err e) s (a, same) = cc

  pub Returns-both :
      {A : Type 0} (P : A → List X → Type 0) (x : Result A × List X)
      → IsOk x
      → OnOk P x
      → Returns P x
  Returns-both P (ok a, s) given p = p
  Returns-both P (err e, s) given p = given

  -- The same for what holds of the acts whether the code succeeds or fails.
  pub Always-answer :
      {A B : Type 0} (P : List X → Type 0) (answer : Result A) (s : List X) (next : A → Eff X B)
      → P s
      → ((a : A) → answer ≡ ok a → P (next a s).1)
      → P (proceed (answer, s) next).1
  Always-answer P (ok a) s next here rest = rest a refl
  Always-answer P (err e) s next here rest = here

  pub Always-part :
      {A B : Type 0} (P : List X → Type 0) (first : Result A × List X) (next : A → Eff X B)
      → P first.1
      → ((a : A) (s : List X) → P s → P (next a s).1)
      → P (proceed first next).1
  Always-part P (ok a, s) next here rest = rest a s here
  Always-part P (err e, s) next here rest = here

  pub OnOk-elim :
      {A : Type 0} (P : A → List X → Type 0) (x : Result A × List X) {a : A} {s : List X}
      → OnOk P x
      → x ≡ (ok a, s)
      → P a s
  OnOk-elim P x p e = subst (OnOk P) e p
