-- ===== src/Outcome/Adds.antt =====
-- Code that acts on the outside adds to the acts so far, and all that it adds is of one kind.
use chaos_tproxy.Prelude.{
  ◌≡◌, refl, ◌∙◌, sym, ap, List, [], ◌∷◌, ◌++◌, append_assoc, append-nil, All, All-append,
}
use chaos_tproxy.Outcome.{Result, ok, err}
use chaos_tproxy.Outcome.Effects.{Eff, proceed, recovered}

module _ {X : Type 0} (P : X → Type 0) where
  -- The run starts from a history and only adds acts of the kind to it.
  pub record Adds {A : Type 0} (s : List X) (x : Result A × List X) : Type 0 where
    pub added : List X
    pub follows : x.1 ≡ s ++ added
    pub of_kind : All P added

  pub Adds-refl : {A : Type 0} (s : List X) (r : Result A) → Adds s (r, s)
  Adds-refl s r = record { added = []; follows = sym (append-nil s); of_kind = tt }

  pub Adds-act : {A : Type 0} (s : List X) (a : X) (r : Result A) → P a → Adds s (r, s ++ a ∷ [])
  Adds-act s a r here = record { added = a ∷ []; follows = refl; of_kind = (here, tt) }

  pub Adds-trans :
      {A B : Type 0} (s : List X) (x : Result A × List X) (y : Result B × List X)
      → Adds s x
      → Adds x.1 y
      → Adds s y
  Adds-trans s x y p q = record {
    added = p.added ++ q.added;
    follows = q.follows ∙ (ap (λ z. z ++ q.added) p.follows ∙ append_assoc s p.added q.added);
    of_kind = All-append P p.added q.added p.of_kind q.of_kind;
  }

  -- What fails and what is recovered from have added the same.
  Adds-same :
      {A B : Type 0} (s : List X) (x : Result A × List X) (y : Result B × List X)
      → y.1 ≡ x.1
      → Adds s x
      → Adds s y
  Adds-same s x y same p = record {
    added = p.added;
    follows = same ∙ p.follows;
    of_kind = p.of_kind;
  }

  pub Adds-proceed :
      {A B : Type 0} (s : List X) (x : Result A × List X) (k : A → Eff X B)
      → Adds s x
      → ((a : A) (t : List X) → Adds t (k a t))
      → Adds s (proceed x k)
  Adds-proceed s (err e, t) k p q = Adds-same s (err e, t) (err e, t) refl p
  Adds-proceed s (ok v, t) k p q = Adds-trans s (ok v, t) (k v t) p (q v t)

  pub Adds-answer :
      {A B : Type 0} (s : List X) (r : Result A) (k : A → Eff X B)
      → ((a : A) → Adds s (k a s))
      → Adds s (proceed (r, s) k)
  Adds-answer s (err e) k q = Adds-refl s (err e)
  Adds-answer s (ok v) k q = q v

  pub Adds-recovered :
      {A : Type 0} (s : List X) (x : Result A × List X) (d : A) → Adds s x → Adds s (recovered x d)
  Adds-recovered s (ok v, t) d p = p
  Adds-recovered s (err e, t) d p = Adds-same s (err e, t) (ok d, t) refl p
