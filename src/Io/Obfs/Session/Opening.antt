-- ===== src/Io/Obfs/Session/Opening.antt =====
-- How the opening of an obfuscated relay, of bytehub_io/src/bidi_copy.rs, treats its two streams.
use bytehub.Prelude.{
  ℕ, ◌<◌, ◌≤◌, ◌≡◌, refl, ap, sym, ◌∙◌, subst, Bool, true, false, Option, none, some, List, [], ◌∷◌,
  ◌++◌, length, take, drop, ltb, if◌then◌else◌, arith, Bool-cases, inl, inr, ++_assoc,
}
use bytehub.Prelude.Bytes.{◌=?◌}
use bytehub.Io.Stream.{Error}
use bytehub.Io.Copy.{obfuscate}
use bytehub.Io.Copy.Content.{obfuscate-append, obfuscate_twice}
use bytehub.Io.Obfs.{
  keyed_hash_tag, qualifying, compute_garbage_len, mask, generate_dynamic_obfs_v2, Consumed, rest,
  unexpected_eof, invalid, check_prefix, consume_dynamic_obfs_v2,
}
use bytehub.Io.Obfs.RoundTrip.{consume-generate}
use bytehub.Io.Obfs.Session.{
  Result, Whole, WholeLaws, obfs_key, combined, failure, skip_garbage, check_header, after_header,
  consume,
}

check_bytes : List ℕ → Consumed
check_bytes bs =
    let header = mask obfs_key 0 (take 14 bs) in
    check_prefix obfs_key false (take 10 header) (drop 10 header) (drop 14 bs)

consume_short :
    (bs : List ℕ) → ltb (length bs) 14 ≡ true → consume_dynamic_obfs_v2 obfs_key bs ≡ unexpected_eof
unfolding consume_dynamic_obfs_v2 check_prefix
consume_short bs short = rw short refl

consume_long :
    (bs : List ℕ)
    → ltb (length bs) 14 ≡ false
    → consume_dynamic_obfs_v2 obfs_key bs ≡ check_bytes bs
unfolding consume_dynamic_obfs_v2 check_bytes
consume_long bs long =
    let header = mask obfs_key 0 (take 14 bs) in
    ap (λ (t : Bool). check_prefix obfs_key t (take 10 header) (drop 10 header) (drop 14 bs)) long

-- The first bytes are obfuscated as those that follow them.
combined-prefix :
    (content garbage first later : List ℕ)
    → combined content garbage first ++ obfuscate 1 later
      ≡ generate_dynamic_obfs_v2 obfs_key content garbage ++ obfuscate 1 (first ++ later)
unfolding combined
combined-prefix content garbage [] later = refl
combined-prefix content garbage (b ∷ bs) later =
    ++_assoc (generate_dynamic_obfs_v2 obfs_key content garbage) (obfuscate 1 (b ∷ bs))
      (obfuscate 1 later)
    ∙ ap (λ (t : List ℕ). generate_dynamic_obfs_v2 obfs_key content garbage ++ t)
        (sym (obfuscate-append 1 (b ∷ bs) later))

module _ {S : Type 0} (io : Whole S) (laws : WholeLaws io) where
  -- The outcome on the stream as the outcome on the bytes that it gives.
  unfoldable pub IsConsumed : Consumed → S × Option Error → Type 0
  IsConsumed (rest more) o = (o.1 ≡ none) × (laws.unread o.0 ≡ more)
  IsConsumed unexpected_eof o = o.1 ≡ some Error.unexpected_eof
  IsConsumed invalid o = o.1 ≡ some Error.invalid_data

  IsConsumed-if :
      (b : Bool) (x y : Consumed) (u v : S × Option Error)
      → (b ≡ true → IsConsumed x u)
      → (b ≡ false → IsConsumed y v)
      → IsConsumed (if b then x else y) (if b then u else v)
  IsConsumed-if true x y u v h k = h refl
  IsConsumed-if false x y u v h k = k refl

  skip_garbage-IsConsumed :
      (n : ℕ) (s : S) (bs : List ℕ)
      → laws.unread s ≡ bs
      → IsConsumed
          (if ltb (length bs) n then unexpected_eof else rest (drop n bs))
          (skip_garbage io n s)
  unfolding skip_garbage IsConsumed failure
  skip_garbage-IsConsumed n s bs e = elim (Bool-cases (ltb (length bs) n)) [
    | inl short ↦
        rw
          (
            short,
            laws.read_short n s
                (subst (λ (t : List ℕ). length t < n) (sym e) (ground (arith, short))),
          )
          refl
    | inr long ↦
        let (r, u) =
          laws.read_enough n s
            (subst (λ (t : List ℕ). n ≤ length t) (sym e) (ground (arith, long))) in
        rw (long, r) (refl, u ∙ ap (λ (t : List ℕ). drop n t) e)
  ]

  check_header-IsConsumed :
      (s : S) (content tag bs : List ℕ)
      → laws.unread s ≡ bs
      → IsConsumed (check_prefix obfs_key false content tag bs) (check_header io s content tag)
  unfolding check_prefix check_header IsConsumed
  check_header-IsConsumed s content tag bs e =
      IsConsumed-if (tag =? keyed_hash_tag content obfs_key) _ _ _ _
        (λ same.
          IsConsumed-if (ltb (length (qualifying content)) 3) _ _ _ _ (λ few. refl)
            (λ enough. skip_garbage-IsConsumed (compute_garbage_len content) s bs e))
        (λ other. refl)

  header_short :
      (s : S)
      → (io.read_exact 14 s).1 ≡ Result.err Error.unexpected_eof
      → IsConsumed unexpected_eof (consume io s)
  unfolding consume after_header IsConsumed
  header_short s e = rw e refl

  after_header-IsConsumed :
      (s : S) (r : Result (List ℕ)) (bs : List ℕ)
      → r ≡ Result.ok (take 14 bs)
      → laws.unread s ≡ drop 14 bs
      → IsConsumed (check_bytes bs) (after_header io s r)
  unfolding after_header check_bytes
  after_header-IsConsumed s r bs e u =
      let plain = mask obfs_key 0 (take 14 bs) in
      subst (λ (t : Result (List ℕ)). IsConsumed (check_bytes bs) (after_header io s t)) (sym e)
        (check_header-IsConsumed s (take 10 plain) (drop 10 plain) (drop 14 bs) u)

  -- Taking the prefix from a stream has the outcome that the reading of its bytes has: the prefix is
  -- gone and what follows is unread, the stream has ended, or the prefix is refused.
  pub consume-IsConsumed :
      (s : S) → IsConsumed (consume_dynamic_obfs_v2 obfs_key (laws.unread s)) (consume io s)
  unfolding consume
  consume-IsConsumed s =
      let bs = laws.unread s in
      elim (Bool-cases (ltb (length bs) 14)) [
        | inl short ↦
            subst (λ (t : Consumed). IsConsumed t (consume io s)) (sym (consume_short bs short))
              (header_short s (laws.read_short 14 s (ground (arith, short))))
        | inr long ↦
            let (e, u) = laws.read_enough 14 s (ground (arith, long)) in
            subst (λ (t : Consumed). IsConsumed t (consume io s)) (sym (consume_long bs long))
              (after_header-IsConsumed (io.read_exact 14 s).0 (io.read_exact 14 s).1 bs e u)
      ]

  -- What one end sends, its prefix with the first bytes and then all that its copy obfuscates, the other
  -- end recovers: it takes the prefix away without an error and its copy shows the bytes as they were
  -- before. The prefix holds 10 bytes, three or more of them letters or digits, and the garbage is as
  -- long as they say.
  pub consume-recovers :
      (s : S) (content garbage first later : List ℕ)
      → length content ≡ 10
      → 3 ≤ length (qualifying content)
      → length garbage ≡ compute_garbage_len content
      → laws.unread s ≡ combined content garbage first ++ obfuscate 1 later
      → ((consume io s).1 ≡ none) × (obfuscate 2 (laws.unread (consume io s).0) ≡ first ++ later)
  unfolding IsConsumed
  consume-recovers s content garbage first later ten enough size e =
      let prefix = generate_dynamic_obfs_v2 obfs_key content garbage in
      let taken =
        ap (consume_dynamic_obfs_v2 obfs_key) (e ∙ combined-prefix content garbage first later)
        ∙ consume-generate obfs_key content garbage (obfuscate 1 (first ++ later)) ten enough
            size in
      let (fine, left) =
        subst (λ (t : Consumed). IsConsumed t (consume io s)) taken (consume-IsConsumed s) in
      (
        fine,
        ap (λ (t : List ℕ). obfuscate 2 t) left ∙ obfuscate_twice 1 2 (first ++ later) refl refl,
      )
