-- ===== src/Io/Obfs/RoundTrip.antt =====
-- The obfuscation prefix is read back, for bytehub_io/src/bidi_copy.rs.
use bytehub.Prelude.{
  ℕ, suc, ◌≤◌, ◌≡◌, ◌∙◌, refl, ap, Bool, true, false, List, [], ◌∷◌, ◌++◌, ltb, length, take, drop,
  get_or, length-append, take-append, drop-append, ++_assoc, arith, ◌%◌,
}
use mathlib.Core.Path.{ap₂}
use bytehub.Prelude.Bits.{bit_xor_twice}
use bytehub.Prelude.Bytes.{◌=?◌}
use bytehub.Io.Obfs.{
  keyed_hash_tag, qualifying, compute_garbage_len, mask, generate_dynamic_obfs_v2, Consumed,
  check_prefix, consume_dynamic_obfs_v2,
}

mask-mask : (key : List ℕ) (i : ℕ) (bs : List ℕ) → mask key i (mask key i bs) ≡ bs
unfolding mask
mask-mask key i [] = refl
mask-mask key i (b ∷ bs) =
    ap₂ (λ (x : ℕ) (xs : List ℕ). x ∷ xs) (bit_xor_twice b (get_or key (i % length key) 0))
      (mask-mask key (suc i) bs)

length-mask : (key : List ℕ) (i : ℕ) (bs : List ℕ) → length (mask key i bs) ≡ length bs
unfolding mask
length-mask key i [] = refl
length-mask key i (b ∷ bs) = ap suc (length-mask key (suc i) bs)

=?_refl : (bs : List ℕ) → (bs =? bs) ≡ true
=?_refl [] = refl
=?_refl (b ∷ bs) = ground (arith, =?_refl bs)

length-tag : (content key : List ℕ) → length (keyed_hash_tag content key) ≡ 4
unfolding keyed_hash_tag
length-tag content key = refl

module _ (key content garbage more : List ℕ) (ten : length content ≡ 10) where
  plain : List ℕ
  plain = content ++ keyed_hash_tag content key

  length-plain : length plain ≡ 14
  unfolding plain
  length-plain =
      omega (arith, length-append content (keyed_hash_tag content key), length-tag content key)

  stream-split :
      generate_dynamic_obfs_v2 key content garbage ++ more ≡ mask key 0 plain ++ (garbage ++ more)
  unfolding generate_dynamic_obfs_v2 plain
  stream-split = ++_assoc (mask key 0 plain) garbage more

  masked : List ℕ
  masked = mask key 0 plain

  header-unmasked : mask key 0 (take 14 (masked ++ (garbage ++ more))) ≡ plain
  unfolding masked
  header-unmasked =
      rw
        (take-append 14 (mask key 0 plain) (garbage ++ more)
          (length-mask key 0 plain ∙ length-plain))
        (mask-mask key 0 plain)

  body-left : drop 14 (masked ++ (garbage ++ more)) ≡ garbage ++ more
  unfolding masked
  body-left =
      drop-append 14 (mask key 0 plain) (garbage ++ more) (length-mask key 0 plain ∙ length-plain)

  long_enough : ltb (length (masked ++ (garbage ++ more))) 14 ≡ false
  unfolding masked
  long_enough =
      let n = length-append (mask key 0 plain) (garbage ++ more) in
      let k = length-mask key 0 plain in let f = length-plain in ground (arith, n, k, f)

  content-first : take 10 plain ≡ content
  unfolding plain
  content-first = take-append 10 content (keyed_hash_tag content key) ten

  tag-last : drop 10 plain ≡ keyed_hash_tag content key
  unfolding plain
  tag-last = drop-append 10 content (keyed_hash_tag content key) ten

  check_prefix-rest :
      3 ≤ length (qualifying content)
      → length garbage ≡ compute_garbage_len content
      → check_prefix key false content (keyed_hash_tag content key) (garbage ++ more)
        ≡ Consumed.rest more
  unfolding check_prefix
  check_prefix-rest enough size =
      let n = length-append garbage more in
      let three : ltb (length (qualifying content)) 3 ≡ false = ground arith in
      let full : ltb (length (garbage ++ more)) (compute_garbage_len content) ≡ false =
        ground (arith, n) in
      let tag = =?_refl (keyed_hash_tag content key) in
      rw (tag, three, full)
        (ap Consumed.rest (drop-append (compute_garbage_len content) garbage more size))

  -- A prefix made of 10 bytes, three or more of them letters or digits, and of as much garbage as
  -- they say, is accepted by a reader with the same key, and exactly the prefix is taken away.
  pub consume-generate :
      3 ≤ length (qualifying content)
      → length garbage ≡ compute_garbage_len content
      → consume_dynamic_obfs_v2 key (generate_dynamic_obfs_v2 key content garbage ++ more)
        ≡ Consumed.rest more
  unfolding consume_dynamic_obfs_v2 masked
  consume-generate enough size =
      ap (consume_dynamic_obfs_v2 key) stream-split
      ∙ ap₂
          (λ (short : Bool) (h : List ℕ).
            check_prefix key short (take 10 h) (drop 10 h) (drop 14 (masked ++ (garbage ++ more))))
          long_enough header-unmasked
      ∙ ap₂ (λ (c t : List ℕ). check_prefix key false c t (drop 14 (masked ++ (garbage ++ more))))
          content-first tag-last
      ∙ ap (check_prefix key false content (keyed_hash_tag content key)) body-left
      ∙ check_prefix-rest enough size
