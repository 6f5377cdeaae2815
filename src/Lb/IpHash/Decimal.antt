-- ===== src/Lb/IpHash/Decimal.antt =====
-- The digits of a number, as `{}` writes them.
use bytehub.Prelude.{
  ℕ, zero, suc, ◌+◌, ◌/◌, ◌%◌, ◌≡◌, true, List, [], ◌∷◌, ◌==◌, arith, Bool-cases, inl, inr,
}
use bytehub.Prelude.Text.{is_digit, All}
use bytehub.Lb.IpHash.{decimal_from, decimal}

digit-is_digit : (n : ℕ) → is_digit (48 + n % 10) ≡ true
unfolding is_digit
digit-is_digit n = ground arith

decimal_from-digits :
    (fuel n : ℕ) (acc : List ℕ) → All is_digit acc → All is_digit (decimal_from fuel n acc)
unfolding decimal_from
decimal_from-digits zero n acc h = h
decimal_from-digits (suc fuel) n acc h =
    let h' : All is_digit ((48 + n % 10) ∷ acc) = (digit-is_digit n, h) in
    elim (Bool-cases (n / 10 == 0)) [
      | inl e ↦ rw e h'
      | inr e ↦ rw e (decimal_from-digits fuel (n / 10) ((48 + n % 10) ∷ acc) h')
    ]

pub decimal-digits : (n : ℕ) → All is_digit (decimal n)
unfolding decimal
decimal-digits n = decimal_from-digits 20 n [] tt
