-- ===== src/Lb/Balancer/Digits.antt =====
-- A parser of a `u8` for the tests.
use bytehub.Prelude.{
  ℕ, zero, suc, ◌+◌, ◌*◌, ◌-◌, ◌<◌, ◌≡◌, refl, Bool, true, false, ◌&&◌, Option, none, some, List,
  [], ◌∷◌, ltb, leb, ◌==◌, if◌then◌else◌, arith,
}
use bytehub.Lb.IpHash.{decimal}
use bytehub.Lb.Balancer.Written.{IsParser}

digits_from : ℕ → List ℕ → Option ℕ
digits_from acc [] = if ltb acc 256 then some acc else none
digits_from acc (c ∷ cs) =
    let rest = digits_from (acc * 10 + (c - 48)) cs in if leb 48 c && leb c 57 then rest else none

unfoldable pub parse_u8 : List ℕ → Option ℕ
unfolding digits_from
parse_u8 [] = none
parse_u8 (c ∷ cs) = digits_from 0 (c ∷ cs)

reads : ℕ → Bool
reads n = elim (parse_u8 (decimal n)) [ none ↦ false | some m ↦ m == n ]

all_below : ℕ → Bool
unfolding reads
all_below zero = true
all_below (suc n) = reads n && all_below n

table : all_below 256 ≡ true
unfolding all_below parse_u8 decimal
table = refl

reads_below : (k n : ℕ) → all_below k ≡ true → n < k → reads n ≡ true
unfolding all_below
reads_below zero n h lt = elim lt [ ]
reads_below (suc k) n h lt = ground (arith, reads_below k n)

reads-some : (o : Option ℕ) (n : ℕ) → elim o [ none ↦ false | some m ↦ m == n ] ≡ true → o ≡ some n
reads-some none n h = absurd cc
reads-some (some m) n h = ground arith

pub parse_u8-IsParser : IsParser parse_u8
unfolding parse_u8 reads
parse_u8-IsParser = record {
  parse-decimal = λ n h. reads-some (parse_u8 (decimal n)) n (reads_below 256 n table h);
  parse-nil = refl;
}
