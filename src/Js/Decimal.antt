-- ===== src/Js/Decimal.antt =====
-- A number in a template literal: its decimal digits.
use Prim.Native.Nat.{◌/◌, ◌%◌}
use aideep_websocket.Common.{
  ℕ, suc, zero, ◌+◌, ◌-◌, ◌*◌, ◌≤◌, ◌≡◌, sym, ◌∙◌, ap, Text, [], ◌∷◌, arith, ltb, if◌then◌else◌,
}

-- The digits of a number before those that are there, on fuel.
abbrev digits : ℕ → ℕ → Text → Text
digits zero n rest = (48 + n) ∷ rest
digits (suc fuel) n rest =
    let more = digits fuel (n / 10) ((48 + n % 10) ∷ rest) in
    if ltb n 10 then (48 + n) ∷ rest else more

-- `${n}`
unfoldable pub decimal : ℕ → Text
decimal n = digits n n []

-- Number(text), for a text of digits
value : ℕ → Text → ℕ
value n [] = n
value n (c ∷ rest) = value (n * 10 + (c - 48)) rest

-- As much fuel as the number is enough.
value-digits : (fuel n : ℕ) (rest : Text) → n ≤ fuel → value 0 (digits fuel n rest) ≡ value n rest
unfolding value
value-digits zero n rest h = ground arith
value-digits (suc fuel) n rest h = ground (arith, value-digits fuel (n / 10) ((48 + n % 10) ∷ rest))

pub decimal_injective : {m n : ℕ} → decimal m ≡ decimal n → m ≡ n
unfolding decimal value
decimal_injective {m} {n} e =
    sym (value-digits m m [] (omega arith)) ∙ ap (value 0) e ∙ value-digits n n [] (omega arith)
