-- ===== src/Io/Obfs.antt =====
-- The obfuscation prefix of bytehub_io/src/bidi_copy.rs on lists of bytes: 10 random bytes with a tag
-- of 4, masked by the key, then garbage whose length the random bytes give. The random bytes and the
-- garbage are arguments. The masking indexes the key, so the key is not empty.
pub mod RoundTrip
pub mod Session
mod Tests
use Prim.Native.Nat.{bit_xor}
use bytehub.Prelude.{
  ℕ, zero, suc, ◌+◌, ◌-◌, ◌*◌, ◌/◌, ◌%◌, ◌^◌, ◌≡◌, refl, Bool, true, false, ◌&&◌, ◌||◌, Option,
  none, some, List, [], ◌∷◌, ◌++◌, ltb, leb, if◌then◌else◌, length, take, drop, get_or,
}
use bytehub.Prelude.Bytes.{◌=?◌}

-- `h ^= b; h = h.wrapping_mul(FNV_PRIME)` for each byte.
pub fnv_mix : ℕ → List ℕ → ℕ
fnv_mix h [] = h
fnv_mix h (b ∷ bs) = fnv_mix (bit_xor h b * 16777619 % 2 ^ 32) bs

abbrev pub to_le_bytes : ℕ → List ℕ
to_le_bytes h = h % 256 ∷ h / 256 % 256 ∷ h / 65536 % 256 ∷ h / 16777216 % 256 ∷ []

pub avalanche : ℕ → ℕ
avalanche h =
    let h1 = bit_xor h (h / 2 ^ 16) in let h2 = h1 * 73244475 % 2 ^ 32 in bit_xor h2 (h2 / 2 ^ 16)

pub keyed_hash_tag : List ℕ → List ℕ → List ℕ
unfolding fnv_mix avalanche
keyed_hash_tag content key = to_le_bytes (avalanche (fnv_mix (fnv_mix 2166136261 key) content))

abbrev is_digit : ℕ → Bool
is_digit b = leb b'0' b && leb b b'9'

abbrev is_qualifying : ℕ → Bool
is_qualifying b = leb b'a' b && leb b b'z' || is_digit b

pub qualifying : List ℕ → List ℕ
qualifying [] = []
qualifying (b ∷ bs) = let rest = qualifying bs in if is_qualifying b then b ∷ rest else rest

pub digit_of : ℕ → ℕ
digit_of b = if is_digit b then b - b'0' else (b - b'a' + 1) % 10

-- The number that the digits of the bytes write.
pub parse_digits : ℕ → List ℕ → ℕ
unfolding digit_of
parse_digits acc [] = acc
parse_digits acc (b ∷ bs) = parse_digits (acc * 10 + digit_of b) bs

-- Of the last three of the qualifying bytes, of which the callers have three at least.
pub compute_garbage_len : List ℕ → ℕ
unfolding qualifying parse_digits
compute_garbage_len raw =
    let filtered = qualifying raw in parse_digits 0 (drop (length filtered - 3) filtered)

-- `*byte ^= key[i % key.len()]`, from index `i`.
pub mask : List ℕ → ℕ → List ℕ → List ℕ
mask key i [] = []
mask key i (b ∷ bs) = bit_xor b (get_or key (i % length key) 0) ∷ mask key (suc i) bs

pub generate_dynamic_obfs_v2 : List ℕ → List ℕ → List ℕ → List ℕ
unfolding mask keyed_hash_tag
generate_dynamic_obfs_v2 key content garbage =
    mask key 0 (content ++ keyed_hash_tag content key) ++ garbage

-- What is left of the stream, or the error: the stream has ended, or the prefix is not valid.
pub data Consumed : Type 0 where
  rest : List ℕ → Consumed
  unexpected_eof invalid : Consumed

-- The tests on what has been read: whether the stream was too short, the 10 bytes and the tag, both
-- unmasked; `body` is the stream after them.
pub check_prefix : List ℕ → Bool → List ℕ → List ℕ → List ℕ → Consumed
unfolding keyed_hash_tag qualifying compute_garbage_len
check_prefix key short content tag body =
    if short
    then unexpected_eof
    else if tag =? keyed_hash_tag content key
    then (if ltb (length (qualifying content)) 3
        then invalid
        else if ltb (length body) (compute_garbage_len content)
        then unexpected_eof
        else rest (drop (compute_garbage_len content) body))
    else invalid

pub consume_dynamic_obfs_v2 : List ℕ → List ℕ → Consumed
unfolding mask check_prefix
consume_dynamic_obfs_v2 key stream =
    let header = mask key 0 (take 14 stream) in
    check_prefix key (ltb (length stream) 14) (take 10 header) (drop 10 header) (drop 14 stream)
