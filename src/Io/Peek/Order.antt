-- ===== src/Io/Peek/Order.antt =====
-- Peeking neither loses nor reorders what a stream gives, for bytehub_io/src/peek.rs.
use mathlib.Core.Path.{ap₂}
use Prim.Native.Nat.{min}
use bytehub.Prelude.{
  ℕ, ◌+◌, ◌-◌, ◌≤◌, ◌≡◌, ap, sym, ◌∙◌, subst, List, [], ◌∷◌, ◌++◌, length, take, drop, ltb, ◌==◌,
  arith, Bool-cases, inl, inr, append-nil, ++_assoc, drop-drop, drop-take, take-append-drop,
  take-take, drop-append_le, length-append, length-take, length-drop, take-append,
}
use bytehub.Io.Stream.{Poll, ready, error, pending, Stream, got, Laws}
use bytehub.Io.Peek.{
  PeekStream, new_alloc, filled_slice, filled, unfilled, try_reset, keep, poll_peek, peek,
  poll_read,
}

-- A caller looks at bytes or reads them.
pub data Call : Type 0 where
  look read : ℕ → Call

module _ {T : Type 0} (stream : Stream T) where
  -- The bytes that the reads of some calls hand out, and the stream after them.
  pub run : List Call → PeekStream T → List ℕ × PeekStream T
  run [] pk = ([], pk)
  run (look n ∷ calls) pk = run calls (peek stream n pk).0
  run (read n ∷ calls) pk =
      let (later, pk') = run calls (poll_read stream n pk).0 in
      (got (poll_read stream n pk).1 ++ later, pk')

module _ {T : Type 0} (stream : Stream T) (laws : Laws stream) where
  -- With `x` handed out, what the inner stream gave is `x` and then the bytes that are kept.
  pub record IsKept (x : List ℕ) (pk : PeekStream T) : Type 0 where
    pub given : laws.received pk.io ≡ x ++ filled_slice stream pk
    pub rd-wr : pk.rd ≤ pk.wr
    pub wr-len : pk.wr ≤ length pk.buf

  filled_slice-keep :
      (pk : PeekStream T) (bs : List ℕ)
      → pk.rd ≤ pk.wr
      → pk.wr ≤ length pk.buf
      → filled_slice stream (keep stream pk (Poll.ready bs)) ≡ filled_slice stream pk ++ bs
  unfolding filled_slice keep
  filled_slice-keep pk bs h k =
      let rest = drop (pk.wr + length bs) pk.buf in
      let front = take pk.wr pk.buf in
      let slice = take (pk.wr - pk.rd) (drop pk.rd pk.buf) in
      let left : drop pk.rd (front ++ (bs ++ rest)) ≡ (slice ++ bs) ++ rest =
        drop-append_le pk.rd front (bs ++ rest) (omega (arith, length-take pk.wr pk.buf, k, h))
        ∙ ap (λ (t : List ℕ). t ++ (bs ++ rest)) (drop-take pk.rd pk.wr pk.buf)
        ∙ sym (++_assoc slice bs rest) in
      ap (λ (t : List ℕ). take (pk.wr + length bs - pk.rd) t) left
      ∙ take-append (pk.wr + length bs - pk.rd) (slice ++ bs) rest (
          omega (
            arith,
            length-append slice bs,
            length-take (pk.wr - pk.rd) (drop pk.rd pk.buf),
            length-drop pk.rd pk.buf,
            h,
            k,
          ))

  -- Of the bytes that are kept, some are handed out.
  filled_slice-split :
      (pk : PeekStream T) (len : ℕ)
      → len ≤ pk.wr - pk.rd
      → filled_slice stream pk
        ≡ take len (drop pk.rd pk.buf) ++ filled_slice stream (record pk { rd = pk.rd + len })
  unfolding filled_slice
  filled_slice-split pk len le =
      let slice = take (pk.wr - pk.rd) (drop pk.rd pk.buf) in
      let k : pk.wr - pk.rd - len ≡ pk.wr - (pk.rd + len) = omega arith in
      sym (take-append-drop len slice)
      ∙ ap₂ (λ (s t : List ℕ). s ++ t) (take-take len (pk.wr - pk.rd) (drop pk.rd pk.buf) le)
          (drop-take len (pk.wr - pk.rd) (drop pk.rd pk.buf)
            ∙ ap₂ (λ (i : ℕ) (t : List ℕ). take i t) k (drop-drop pk.rd len pk.buf))

  filled_slice_empty : (pk : PeekStream T) → pk.rd ≡ pk.wr → filled_slice stream pk ≡ []
  unfolding filled_slice
  filled_slice_empty pk e = let z : pk.wr - pk.rd ≡ 0 = omega (arith, e) in rw z

  try_reset-IsKept : (x : List ℕ) (pk : PeekStream T) → IsKept x pk → IsKept x (try_reset stream pk)
  unfolding try_reset filled filled_slice
  try_reset-IsKept x pk h = elim (Bool-cases (pk.wr - pk.rd == 0)) [
    | inr some_left ↦ rw some_left h
    | inl all ↦ rw all (record {
      given =
          h.given
          ∙ ap (λ (t : List ℕ). x ++ t) (filled_slice_empty pk (ground (arith, all, h.rd-wr)));
      rd-wr = omega arith;
      wr-len = omega arith;
    })
  ]

  keep-IsKept :
      (x : List ℕ) (pk : PeekStream T) (io : T) (p : Poll (List ℕ))
      → IsKept x pk
      → laws.received io ≡ laws.received pk.io ++ got p
      → length (got p) ≤ length pk.buf - pk.wr
      → IsKept x (keep stream (record pk { io = io }) p)
  unfolding keep filled_slice
  keep-IsKept x pk io (ready bs) h e fits = record {
    given =
        e
        ∙ ap (λ (t : List ℕ). t ++ bs) h.given
        ∙ ++_assoc x (filled_slice stream pk) bs
        ∙ ap (λ (t : List ℕ). x ++ t)
            (sym (filled_slice-keep (record pk { io = io }) bs h.rd-wr h.wr-len));
    rd-wr = omega (arith, h.rd-wr);
    wr-len = omega (
      arith,
      length-append (take pk.wr pk.buf) (bs ++ drop (pk.wr + length bs) pk.buf),
      length-append bs (drop (pk.wr + length bs) pk.buf),
      length-take pk.wr pk.buf,
      h.wr-len,
      fits,
    );
  }
  keep-IsKept x pk io (error y) h e fits = record {
    given = e ∙ append-nil (laws.received pk.io) ∙ h.given;
    rd-wr = h.rd-wr;
    wr-len = h.wr-len;
  }
  keep-IsKept x pk io pending h e fits = record {
    given = e ∙ append-nil (laws.received pk.io) ∙ h.given;
    rd-wr = h.rd-wr;
    wr-len = h.wr-len;
  }

  poll_peek-IsKept :
      (x : List ℕ) (pk : PeekStream T) → IsKept x pk → IsKept x (poll_peek stream pk).0
  unfolding poll_peek unfilled
  poll_peek-IsKept x pk h =
      let room = length pk.buf - pk.wr in
      keep-IsKept x pk (stream.poll_read room pk.io).0 (stream.poll_read room pk.io).1 h
        (laws.read-received room pk.io) (laws.length-read room pk.io)

  peek-IsKept :
      (x : List ℕ) (n : ℕ) (pk : PeekStream T) → IsKept x pk → IsKept x (peek stream n pk).0
  unfolding peek
  peek-IsKept x n pk h =
      let h0 = try_reset-IsKept x pk h in
      elim (Bool-cases (ltb 0 (unfilled stream (try_reset stream pk)))) [
        | inl room ↦ rw room (poll_peek-IsKept x (try_reset stream pk) h0)
        | inr full ↦ rw full h0
      ]

  poll_read-IsKept :
      (x : List ℕ) (n : ℕ) (pk : PeekStream T)
      → IsKept x pk
      → IsKept (x ++ got (poll_read stream n pk).1) (poll_read stream n pk).0
  unfolding poll_read filled_slice
  poll_read-IsKept x n pk h = elim (Bool-cases (pk.rd == pk.wr)) [
    | inl all ↦
        let (io, p) = stream.poll_read n pk.io in
        let nothing = filled_slice_empty pk (ground (arith, all)) in
        rw all (record {
          given =
              laws.read-received n pk.io
              ∙ ap (λ (t : List ℕ). t ++ got (stream.poll_read n pk.io).1)
                  (h.given ∙ ap (λ (t : List ℕ). x ++ t) nothing ∙ append-nil x)
              ∙ sym (append-nil (x ++ got (stream.poll_read n pk.io).1))
              ∙ ap (λ (t : List ℕ). (x ++ got (stream.poll_read n pk.io).1) ++ t) (sym nothing);
          rd-wr = h.rd-wr;
          wr-len = h.wr-len;
        })
    | inr some_left ↦
        let len = min (pk.wr - pk.rd) n in
        rw some_left (record {
          given =
              h.given
              ∙ ap (λ (t : List ℕ). x ++ t) (filled_slice-split pk len (omega arith))
              ∙ sym (
                  ++_assoc x (take len (drop pk.rd pk.buf))
                    (filled_slice stream (record pk { rd = pk.rd + len })));
          rd-wr = omega (arith, h.rd-wr);
          wr-len = h.wr-len;
        })
  ]

  run-IsKept :
      (calls : List Call) (x : List ℕ) (pk : PeekStream T)
      → IsKept x pk
      → IsKept (x ++ (run stream calls pk).0) (run stream calls pk).1
  unfolding run
  run-IsKept [] x pk h = subst (λ (t : List ℕ). IsKept t pk) (sym (append-nil x)) h
  run-IsKept (look n ∷ calls) x pk h =
      run-IsKept calls x (peek stream n pk).0 (peek-IsKept x n pk h)
  run-IsKept (read n ∷ calls) x pk h =
      let bs = got (poll_read stream n pk).1 in
      let pk' = (poll_read stream n pk).0 in
      subst (λ (t : List ℕ). IsKept t (run stream calls pk').1)
        (++_assoc x bs (run stream calls pk').0)
        (run-IsKept calls (x ++ bs) pk' (poll_read-IsKept x n pk h))

  -- From a new wrapper on, whatever a caller looks at or reads and in whatever order: what the reads
  -- hand out, and then the bytes that are still kept, are all that the inner stream gave, in order.
  pub run-in_order :
      (io : T) (n : ℕ) (calls : List Call)
      → let o = run stream calls (new_alloc stream io n) in
        laws.received o.1.io ≡ laws.received io ++ (o.0 ++ filled_slice stream o.1)
  unfolding new_alloc filled_slice
  run-in_order io n calls =
      let o = run stream calls (new_alloc stream io n) in
      let start : IsKept (laws.received io) (new_alloc stream io n) = record {
        given = sym (append-nil (laws.received io));
        rd-wr = omega arith;
        wr-len = omega arith;
      } in
      (run-IsKept calls (laws.received io) (new_alloc stream io n) start).given
      ∙ ++_assoc (laws.received io) o.0 (filled_slice stream o.1)
