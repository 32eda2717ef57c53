-- ===== src/Text/Decimal.antt =====
-- The decimal form of a u64, as format! writes it into the name of a request's property.
use native.Mathlib.Decide.{dec_lt}
use clipbus.Base.{
  ℕ, zero, suc, ◌+◌, ◌*◌, ◌/◌, ◌%◌, ◌<◌, ◌≡◌, sym, ap, ◌∙◌, List, [], ◌∷◌, arith, ◌-◌,
}

-- The digits of n, given that n < 10 ^ fuel, before those in tail.
digits : ℕ → ℕ → List ℕ → List ℕ
digits zero n tail = tail
digits (suc fuel) n tail =
    let more = digits fuel (n / 10) ((b'0' + n % 10) ∷ tail) in
    elim (dec_lt n 10) [ yes p ↦ (b'0' + n) ∷ tail | no p ↦ more ]

-- {request_id}: n digits are more than a number n needs, so the fuel suffices.
pub decimal : ℕ → List ℕ
unfolding digits
decimal n = digits (suc n) n []

-- the number that a row of digits stands for, after what is read already
unfoldable pub decimal_value : ℕ → List ℕ → ℕ
decimal_value acc [] = acc
decimal_value acc (d ∷ ds) = decimal_value (acc * 10 + (d - b'0')) ds

decimal_value-digits :
    (fuel n : ℕ) (tail : List ℕ)
    → n < fuel
    → decimal_value 0 (digits fuel n tail) ≡ decimal_value n tail
unfolding digits decimal_value
decimal_value-digits zero n tail h = elim h [ ]
decimal_value-digits (suc fuel) n tail h =
    ground (arith, decimal_value-digits fuel (n / 10) ((b'0' + n % 10) ∷ tail))

-- Reading a printed number gives it back.
pub decimal_value-decimal : (n : ℕ) → decimal_value 0 (decimal n) ≡ n
unfolding decimal decimal_value
decimal_value-decimal n = decimal_value-digits (suc n) n [] (omega arith)

pub decimal_injective : (m n : ℕ) → decimal m ≡ decimal n → m ≡ n
decimal_injective m n e =
    sym (decimal_value-decimal m) ∙ ap (decimal_value 0) e ∙ decimal_value-decimal n
