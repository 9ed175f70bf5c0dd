-- ===== src/Controller/Config/PortsText.antt =====
-- The text that carries the proxy ports to the rules of iptables, and a reader of it: `multiport`
-- takes decimal numbers with commas between them.
use Prim.Native.Char.{code}
use Prim.Native.String
use chaos_tproxy.Prelude.{
  ℕ, zero, suc, ◌+◌, ◌*◌, ◌-◌, ◌/◌, ◌%◌, ◌<◌, ◌≡◌, refl, sym, ◌∙◌, ap, ◌≢◌, Bool, true, false,
  Bool-cases, inl, inr, ◌&&◌, List, [], ◌∷◌, ◌++◌, append_assoc, append-nil, Option, none, some,
  String, map, arith, ltb, leb, ◌==◌, if◌then◌else◌, digit, digits_from, show_nat, join,
}
use mathlib.Core.Option
use chaos_tproxy.Controller.Config.{ports_text}

abbrev codes : String → List ℕ
codes String.[] = []
codes (String.◌∷◌ c s) = code c ∷ codes s

codes-append : (s t : String) → codes (String.◌++◌ s t) ≡ codes s ++ codes t
codes-append String.[] t = ap codes (λ i. String.append.nil t i)
codes-append (String.◌∷◌ c s) t =
    ap codes (λ i. String.append.cons c s t i) ∙ ap (λ x. code c ∷ x) (codes-append s t)

abbrev or_zero : Option ℕ → ℕ
or_zero none = 0
or_zero (some n) = n

abbrev is_digit : ℕ → Bool
is_digit c = leb b'0' c && leb c b'9'

-- The value so far, with one more digit.
abbrev extended : Option ℕ → ℕ → Option ℕ
extended seen c = some (or_zero seen * 10 + (c - b'0'))

abbrev ended_by : Option ℕ → Option (List ℕ) → Option (List ℕ)
ended_by none rest = none
ended_by (some n) rest = Option.map (λ ns. n ∷ ns) rest

-- The number that is being read is `none` until its first digit: no number is empty.
read_from : List ℕ → Option ℕ → Option (List ℕ)
read_from [] seen = ended_by seen (some [])
read_from (c ∷ cs) seen = elim (is_digit c) [
  | true ↦ read_from cs (extended seen c)
  | false ↦ if c == b',' then ended_by seen (read_from cs none) else none
]

pub read_ports : String → Option (List ℕ)
unfolding read_from
read_ports text = read_from (codes text) none

codes-digit : (d : ℕ) → d < 10 → codes (digit d) ≡ (b'0' + d) ∷ []
codes-digit zero low = refl
codes-digit (suc zero) low = refl
codes-digit (suc (suc zero)) low = refl
codes-digit (suc (suc (suc zero))) low = refl
codes-digit (suc (suc (suc (suc zero)))) low = refl
codes-digit (suc (suc (suc (suc (suc zero))))) low = refl
codes-digit (suc (suc (suc (suc (suc (suc zero)))))) low = refl
codes-digit (suc (suc (suc (suc (suc (suc (suc zero))))))) low = refl
codes-digit (suc (suc (suc (suc (suc (suc (suc (suc zero)))))))) low = refl
codes-digit (suc (suc (suc (suc (suc (suc (suc (suc (suc zero))))))))) low = refl
codes-digit (suc (suc (suc (suc (suc (suc (suc (suc (suc (suc d)))))))))) low = absurd (omega arith)

read_from_digit_step :
    (c : ℕ) (cs : List ℕ) (seen : Option ℕ)
    → is_digit c ≡ true
    → read_from (c ∷ cs) seen ≡ read_from cs (extended seen c)
unfolding read_from
read_from_digit_step c cs seen e = rw (read_from, e) refl

read_from-digit :
    (d : ℕ) (cs : List ℕ) (seen : Option ℕ)
    → d < 10
    → read_from (codes (digit d) ++ cs) seen ≡ read_from cs (some (or_zero seen * 10 + d))
read_from-digit d cs seen low =
    let in_range : is_digit (b'0' + d) ≡ true = ground arith in
    let same : (b'0' + d) - b'0' ≡ d = omega arith in
    rw (codes-digit d low) (
      read_from_digit_step (b'0' + d) cs seen in_range
      ∙ ap (λ x. read_from cs (some (or_zero seen * 10 + x))) same)

-- `rounds` above `n` are one for each digit.
read_from-digits_from :
    (rounds n : ℕ) (cs : List ℕ)
    → n < rounds
    → read_from (codes (digits_from rounds n) ++ cs) none ≡ read_from cs (some n)
unfolding digits_from
read_from-digits_from zero n cs few = absurd (omega arith)
read_from-digits_from (suc rounds) n cs few = elim (Bool-cases (ltb n 10)) [
  | inl low ↦
      let value : 0 * 10 + n ≡ n = omega arith in
      rw low (read_from-digit n cs none (ground arith) ∙ ap (λ x. read_from cs (some x)) value)
  | inr high ↦
      let tenth : n / 10 < rounds = ground arith in
      let last : n % 10 < 10 = omega arith in
      let whole : n / 10 * 10 + n % 10 ≡ n = omega arith in
      let before : String = digits_from rounds (n / 10) in
      let after : String = digit (n % 10) in
      rw (high, codes-append before after, append_assoc (codes before) (codes after) cs)
        (read_from-digits_from rounds (n / 10) (codes after ++ cs) tenth
          ∙ read_from-digit (n % 10) cs (some (n / 10)) last
          ∙ ap (λ x. read_from cs (some x)) whole)
]

read_from-show_nat :
    (n : ℕ) (cs : List ℕ) → read_from (codes (show_nat n) ++ cs) none ≡ read_from cs (some n)
unfolding show_nat
read_from-show_nat n cs = read_from-digits_from (suc n) n cs (omega arith)

read_from-join :
    (p : ℕ) (ports : List ℕ)
    → read_from (codes (join "," (map show_nat (p ∷ ports)))) none ≡ some (p ∷ ports)
unfolding join read_from
read_from-join p [] =
    ap (λ x. read_from x none) (sym (append-nil (codes (show_nat p)))) ∙ read_from-show_nat p []
read_from-join p (q ∷ ports) =
    let rest : String = join "," (map show_nat (q ∷ ports)) in
    rw (codes-append (show_nat p) (String.◌++◌ "," rest), codes-append "," rest)
      (read_from-show_nat p (codes "," ++ codes rest)
        ∙ ap (ended_by (some p)) (read_from-join q ports))

-- The text of any ports, of which there is at least one, reads back as these ports, in order.
pub read_ports-ports_text :
    (ports : List ℕ) → ports ≢ [] → read_ports (ports_text ports) ≡ some ports
unfolding read_ports ports_text
read_ports-ports_text [] some_port = absurd (some_port refl)
read_ports-ports_text (p ∷ ports) some_port = read_from-join p ports
