-- ===== src/Prelude/Bits.antt =====
-- `bit_or` of disjoint fields as a sum, and `bit_xor` undone by itself.
use Prim.Native.Nat.{max, digits, differ, bit_or, bit_xor, bit_or-bitwise, bit_xor-bitwise}
use native.Mathlib.Nat.{pow-suc}
use bytehub.Prelude.{ℕ, zero, suc, ◌+◌, ◌*◌, ◌/◌, ◌%◌, ◌^◌, ◌<◌, ◌≤◌, ◌≡◌, refl, ap, arith, ◌∙◌}

-- Two amounts of fuel that cover the first number give the same digits.
module _ (z : ℕ → ℕ) (f : ℕ → ℕ → ℕ) where
  out_of_digits : (fuel b : ℕ) → digits z f fuel 0 b ≡ z b
  out_of_digits zero b = refl
  out_of_digits (suc fuel) b = refl

  covered : (m n a b : ℕ) → a ≤ m → a ≤ n → digits z f m a b ≡ digits z f n a b
  covered m n zero b hm hn = rw (out_of_digits m b, out_of_digits n b)
  covered zero n (suc a) b hm hn = absurd (omega arith)
  covered (suc m) zero (suc a) b hm hn = absurd (omega arith)
  covered (suc m) (suc n) (suc a) b hm hn =
      let halved = covered m n (suc a / 2) (b / 2) (omega arith) (omega arith) in omega arith

pub bit_xor_step : (a b : ℕ) → bit_xor a b ≡ bit_xor (a / 2) (b / 2) * 2 + differ (a % 2) (b % 2)
bit_xor_step zero b = omega (arith, bit_xor-bitwise 0 b, bit_xor-bitwise 0 (b / 2))
bit_xor_step (suc a) b =
    let halved =
      covered (λ y. y) differ a (suc a / 2) (suc a / 2) (b / 2) (omega arith) (omega arith) in
    omega (arith, bit_xor-bitwise (suc a) b, bit_xor-bitwise (suc a / 2) (b / 2))

pub bit_or_step : (a b : ℕ) → bit_or a b ≡ bit_or (a / 2) (b / 2) * 2 + max (a % 2) (b % 2)
bit_or_step zero b = omega (arith, bit_or-bitwise 0 b, bit_or-bitwise 0 (b / 2))
bit_or_step (suc a) b =
    let halved =
      covered (λ y. y) max a (suc a / 2) (suc a / 2) (b / 2) (omega arith) (omega arith) in
    omega (arith, bit_or-bitwise (suc a) b, bit_or-bitwise (suc a / 2) (b / 2))

-- Exclusive or with the same number twice, on either side of the first digit, gives back the first.
differ_twice : (a b : ℕ) → a < 2 → b < 2 → differ (differ a b) b ≡ a
differ_twice zero zero ha hb = refl
differ_twice zero (suc zero) ha hb = refl
differ_twice (suc zero) zero ha hb = refl
differ_twice (suc zero) (suc zero) ha hb = refl
differ_twice (suc (suc a)) b ha hb = absurd (omega arith)
differ_twice a (suc (suc b)) ha hb = absurd (omega arith)

differ-lt : (a b : ℕ) → a < 2 → b < 2 → differ a b < 2
differ-lt zero b ha hb = hb
differ-lt (suc zero) zero ha hb = ha
differ-lt (suc zero) (suc zero) ha hb = omega arith
differ-lt (suc zero) (suc (suc b)) ha hb = absurd (omega arith)
differ-lt (suc (suc a)) b ha hb = absurd (omega arith)

-- The fields of `hi << k | lo` do not overlap.
pub bit_or_fields : (k lo hi : ℕ) → lo < 2 ^ k → bit_or lo (hi * 2 ^ k) ≡ lo + hi * 2 ^ k
bit_or_fields zero lo hi h =
    let z : lo ≡ 0 = omega arith in rw z (omega (arith, bit_or-bitwise 0 (hi * 1)))
bit_or_fields (suc k) lo hi h =
    let p = pow-suc 2 k in
    let q : hi * 2 ^ suc k ≡ 2 * (hi * 2 ^ k) =
      omega (arith, ap (λ (t : ℕ). hi * t) (pow-suc 2 k)) in
    ground (arith, bit_or_step lo (hi * 2 ^ suc k), bit_or_fields k (lo / 2) hi (omega arith))

bit_xor_twice_fuel : (fuel a b : ℕ) → a + b ≤ fuel → bit_xor (bit_xor a b) b ≡ a
bit_xor_twice_fuel zero a b h =
    let z : a ≡ 0 = omega arith in let y : b ≡ 0 = omega arith in rw (z, y)
bit_xor_twice_fuel (suc fuel) a b h =
    let d = bit_xor a b in
    let step = bit_xor_step a b in
    let low = differ-lt (a % 2) (b % 2) (omega arith) (omega arith) in
    let high : d / 2 ≡ bit_xor (a / 2) (b / 2) = omega arith in
    let rest : d % 2 ≡ differ (a % 2) (b % 2) = omega arith in
    bit_xor_step d b
    ∙ rw
        (
          high,
          rest,
          differ_twice (a % 2) (b % 2) (omega arith) (omega arith),
          bit_xor_twice_fuel fuel (a / 2) (b / 2) (omega arith),
        )
        (omega arith)

-- Exclusive or with one key undoes itself, at every width.
pub bit_xor_twice : (a b : ℕ) → bit_xor (bit_xor a b) b ≡ a
bit_xor_twice a b = bit_xor_twice_fuel (a + b) a b (omega arith)

-- The result has no more digits than the longer of the two.
pub bit_xor-lt : (k a b : ℕ) → a < 2 ^ k → b < 2 ^ k → bit_xor a b < 2 ^ k
bit_xor-lt zero a b ha hb =
    let a0 : a ≡ 0 = omega arith in let b0 : b ≡ 0 = omega arith in rw (a0, b0) (omega arith)
bit_xor-lt (suc k) a b ha hb =
    let p = pow-suc 2 k in
    let rest = bit_xor-lt k (a / 2) (b / 2) (omega arith) (omega arith) in
    omega (arith, bit_xor_step a b, differ-lt (a % 2) (b % 2) (omega arith) (omega arith))
