-- ===== src/Lb/IpHash/Hash/Agree.antt =====
-- The two hash functions of bytehub_lb/src/ip_hash.rs against one another.
use bytehub.Prelude.Bits.{bit_or_fields}
use bytehub.Prelude.{ℕ, zero, suc, ◌+◌, ◌*◌, ◌%◌, ◌^◌, ◌≡◌, ◌<◌, refl, List, [], ◌∷◌, arith, length}
use bytehub.Lb.IpHash.Hash.{chash, chash_for_ip, chash_from, mix_words, mix, or_word, le_word}

-- Values that the unit tests of ip_hash.rs give.
chash_empty : chash [] ≡ 3164544308
unfolding chash
chash_empty = refl

chash_123 : chash (b'1' ∷ b'2' ∷ b'3' ∷ []) ≡ 4219602657
unfolding chash
chash_123 = refl

chash_abcdefg : chash (b'a' ∷ b'b' ∷ b'c' ∷ b'd' ∷ b'e' ∷ b'f' ∷ b'g' ∷ []) ≡ 2383090994
unfolding chash
chash_abcdefg = refl

abbrev pub AreBytes : List ℕ → Type 0
AreBytes [] = Unit {0}
AreBytes (b ∷ bs) = (b < 256) × AreBytes bs

or_word-le_word :
    (b0 b1 b2 b3 : ℕ) → b0 < 256 → b1 < 256 → b2 < 256 → or_word b0 b1 b2 b3 ≡ le_word b0 b1 b2 b3
or_word-le_word b0 b1 b2 b3 h0 h1 h2 =
    let one = bit_or_fields 8 b0 b1 (omega arith) in
    let two = bit_or_fields 16 (b0 + b1 * 2 ^ 8) b2 (omega arith) in
    let three = bit_or_fields 24 (b0 + b1 * 2 ^ 8 + b2 * 2 ^ 16) b3 (omega arith) in
    rw (one, two, three)

chash_from-mix_words :
    (h : ℕ) (buf : List ℕ) → AreBytes buf → length buf % 4 ≡ 0 → chash_from h buf ≡ mix_words h buf
unfolding chash_from mix_words
chash_from-mix_words h [] bytes aligned = refl
chash_from-mix_words h (b0 ∷ []) bytes aligned = absurd (omega arith)
chash_from-mix_words h (b0 ∷ b1 ∷ []) bytes aligned = absurd (omega arith)
chash_from-mix_words h (b0 ∷ b1 ∷ b2 ∷ []) bytes aligned = absurd (omega arith)
chash_from-mix_words h (b0 ∷ b1 ∷ b2 ∷ b3 ∷ rest) bytes aligned =
    rw (or_word-le_word b0 b1 b2 b3 bytes.0 bytes.1.0 bytes.1.1.0)
      (chash_from-mix_words (mix h (le_word b0 b1 b2 b3)) rest bytes.1.1.1.1 (omega arith))

-- On an address of whole words that stands at a multiple of four, the hash for addresses is the
-- general hash.
pub chash-chash_for_ip :
    (buf : List ℕ) → AreBytes buf → length buf % 4 ≡ 0 → chash buf ≡ chash_for_ip 0 buf
unfolding chash chash_for_ip
chash-chash_for_ip buf bytes aligned = chash_from-mix_words _ buf bytes aligned

-- An IPv4 address that does not stand at a multiple of four: nothing of it is read, and every
-- address has the same hash.
pub chash_for_ip_misaligned :
    (skip a0 a1 a2 a3 b0 b1 b2 b3 : ℕ)
    → 0 < skip
    → skip < 4
    → chash_for_ip skip (a0 ∷ a1 ∷ a2 ∷ a3 ∷ []) ≡ chash_for_ip skip (b0 ∷ b1 ∷ b2 ∷ b3 ∷ [])
unfolding chash_for_ip mix_words
chash_for_ip_misaligned zero a0 a1 a2 a3 b0 b1 b2 b3 lo hi = absurd (omega arith)
chash_for_ip_misaligned (suc zero) a0 a1 a2 a3 b0 b1 b2 b3 lo hi = refl
chash_for_ip_misaligned (suc (suc zero)) a0 a1 a2 a3 b0 b1 b2 b3 lo hi = refl
chash_for_ip_misaligned (suc (suc (suc zero))) a0 a1 a2 a3 b0 b1 b2 b3 lo hi = refl
chash_for_ip_misaligned (suc (suc (suc (suc n)))) a0 a1 a2 a3 b0 b1 b2 b3 lo hi =
    absurd (omega arith)
