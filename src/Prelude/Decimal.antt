-- ===== src/Prelude/Decimal.antt =====
-- `ToString` of unsigned integers, and `join` of texts.
use Prim.Native.Nat.{ℕ, zero, suc, ◌/◌, ◌%◌}
use Prim.Native.String
use Prim.Native.String.{String}
use mathlib.Core.List.{List, [], ◌∷◌}
use chaos_tproxy.Prelude.Tests.{ltb, if◌then◌else◌}

abbrev pub digit : ℕ → String
digit zero = "0"
digit (suc zero) = "1"
digit (suc (suc zero)) = "2"
digit (suc (suc (suc zero))) = "3"
digit (suc (suc (suc (suc zero)))) = "4"
digit (suc (suc (suc (suc (suc zero))))) = "5"
digit (suc (suc (suc (suc (suc (suc zero)))))) = "6"
digit (suc (suc (suc (suc (suc (suc (suc zero))))))) = "7"
digit (suc (suc (suc (suc (suc (suc (suc (suc zero)))))))) = "8"
digit _ = "9"

-- The rounds are one for each digit; `suc n` rounds are enough for `n`.
unfoldable pub digits_from : ℕ → ℕ → String
digits_from zero n = ""
digits_from (suc rounds) n =
    let more = String.◌++◌ (digits_from rounds (n / 10)) (digit (n % 10)) in
    if ltb n 10 then digit n else more

unfoldable pub show_nat : ℕ → String
unfolding digits_from
show_nat n = digits_from (suc n) n

unfoldable pub join : String → List String → String
join sep [] = ""
join sep (s ∷ []) = s
join sep (s ∷ t ∷ ts) = String.◌++◌ s (String.◌++◌ sep (join sep (t ∷ ts)))
