-- ===== src/Lb/IpHash/Hash.antt =====
-- The module `chash` of bytehub_lb/src/ip_hash.rs, on lists of bytes. The sums and products are
-- `unchecked_add` and `unchecked_mul` of `u32`; they wrap here, which is what the values in the tests
-- of that file need.
use Prim.Native.Nat.{bit_or, bit_xor}
use bytehub.Prelude.{ℕ, ◌+◌, ◌*◌, ◌/◌, ◌%◌, ◌^◌, ◌≡◌, refl, List, [], ◌∷◌, add32, length, drop}
pub mod Agree

abbrev pub seed : ℕ
seed = 0xbc9f1d34

abbrev pub m : ℕ
m = 0xc6a4a793

abbrev pub mul32 : ℕ → ℕ → ℕ
mul32 a b = a * b % 2 ^ 32

abbrev pub start_hash : ℕ → ℕ
start_hash len = bit_xor seed (mul32 len m)

-- The bytes of a `u32`, the lowest first.
abbrev pub or_word : ℕ → ℕ → ℕ → ℕ → ℕ
or_word b0 b1 b2 b3 = bit_or (bit_or (bit_or b0 (b1 * 2 ^ 8)) (b2 * 2 ^ 16)) (b3 * 2 ^ 24)

pub mix : ℕ → ℕ → ℕ
mix h w = let h' = mul32 (add32 h w) m in bit_xor h' (h' / 2 ^ 16)

-- The last byte: `h = h + b0`, times `m`, and the high byte folded in.
pub mix_last : ℕ → ℕ → ℕ
mix_last h b0 = let h' = mul32 (add32 h b0) m in bit_xor h' (h' / 2 ^ 24)

-- The rounds of `while len >= 4`, then the three tests on what is left.
pub chash_from : ℕ → List ℕ → ℕ
unfolding mix mix_last
chash_from h (b0 ∷ b1 ∷ b2 ∷ b3 ∷ rest) = chash_from (mix h (or_word b0 b1 b2 b3)) rest
chash_from h (b0 ∷ b1 ∷ b2 ∷ []) = mix_last (add32 (add32 h (b2 * 2 ^ 16)) (b1 * 2 ^ 8)) b0
chash_from h (b0 ∷ b1 ∷ []) = mix_last (add32 h (b1 * 2 ^ 8)) b0
chash_from h (b0 ∷ []) = mix_last h b0
chash_from h [] = h

unfoldable pub chash : List ℕ → ℕ
unfolding chash_from
chash buf = chash_from (start_hash (length buf)) buf

-- A `u32` in memory, read and brought to little-endian order.
abbrev pub le_word : ℕ → ℕ → ℕ → ℕ → ℕ
le_word b0 b1 b2 b3 = b0 + b1 * 2 ^ 8 + b2 * 2 ^ 16 + b3 * 2 ^ 24

-- The loop over the aligned words. What is left of a word at the end is the suffix of `align_to`,
-- which is not read.
pub mix_words : ℕ → List ℕ → ℕ
unfolding mix
mix_words h (b0 ∷ b1 ∷ b2 ∷ b3 ∷ rest) = mix_words (mix h (le_word b0 b1 b2 b3)) rest
mix_words h (b0 ∷ b1 ∷ b2 ∷ []) = h
mix_words h (b0 ∷ b1 ∷ []) = h
mix_words h (b0 ∷ []) = h
mix_words h [] = h

-- `skip` is the length of the prefix that `align_to` splits off, where the bytes of the address do
-- not stand at a multiple of four.
unfoldable pub chash_for_ip : ℕ → List ℕ → ℕ
unfolding mix_words
chash_for_ip skip buf = mix_words (start_hash (length buf)) (drop skip buf)
