-- ===== src/Outcome/Runs.antt =====
-- Sequencing of runs, their effects and their results.
use chaos_tproxy.Prelude.{◌≡◌, refl, ap, List, [], ◌∷◌, ◌++◌, Bool, true, false}
use chaos_tproxy.Outcome.{Error, Result, ok, err, Run, done, failed, after}
use chaos_tproxy.Outcome.Results.{◌>>=◌ as and_then}

module _ {E : Type 0} where
  abbrev pub lift : {A : Type 0} → Result A → Run E A
  lift (ok a) = done a
  lift (err e) = failed e

  -- The effects of the first part come first, and an error ends the run.
  infixl 5 ◌>>=◌ ◌>>◌
  abbrev pub ◌>>=◌ : {A B : Type 0} → Run E A → (A → Run E B) → Run E B
  done a >>= k = k a
  failed e >>= k = failed e
  after x m >>= k = after x (m >>= k)

  abbrev pub ◌>>◌ : {B : Type 0} → Run E (Unit {0}) → Run E B → Run E B
  m >> k = m >>= λ _. k

  abbrev pub events : {A : Type 0} → Run E A → List E
  events (done a) = []
  events (failed e) = []
  events (after x m) = x ∷ events m

  abbrev pub result : {A : Type 0} → Run E A → Result A
  result (done a) = ok a
  result (failed e) = err e
  result (after x m) = result m

  -- An early return by an error.
  abbrev pub fail_if : Bool → Error → Run E (Unit {0})
  fail_if true e = failed e
  fail_if false e = done tt

  pub result->>= :
      {A B : Type 0} (m : Run E A) (k : A → Run E B)
      → result (m >>= k) ≡ and_then (result m) (λ a. result (k a))
  result->>= (done a) k = refl
  result->>= (failed e) k = refl
  result->>= (after x m) k = result->>= m k

  -- The effects of what follows a result.
  abbrev pub events_of : {A B : Type 0} → Result A → (A → Run E B) → List E
  events_of (ok a) k = events (k a)
  events_of (err e) k = []

  pub events->>= :
      {A B : Type 0} (m : Run E A) (k : A → Run E B)
      → events (m >>= k) ≡ events m ++ events_of (result m) k
  events->>= (done a) k = refl
  events->>= (failed e) k = refl
  events->>= (after x m) k = ap (◌∷◌ x) (events->>= m k)
