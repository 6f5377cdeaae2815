-- ===== src/Io/Peek/Panic.antt =====
-- When a look at the bytes panics, for bytehub_io/src/peek.rs.
use bytehub.Prelude.{
  ℕ, ◌+◌, ◌-◌, ◌<◌, ◌≡◌, refl, sym, subst, false, List, ltb, leb, ◌==◌, arith, Bool-cases, inl, inr,
}
use bytehub.Io.Stream.{Poll, Stream}
use bytehub.Io.Peek.{
  PeekStream, Peeked, filled, unfilled, try_reset, keep, poll_peek, copy_left, after_peek, peek,
}

module _ {T : Type 0} (stream : Stream T) where
  copy_left-panicked :
      (pk : PeekStream T) (len : ℕ) → 0 < pk.rd → copy_left stream pk len ≡ Peeked.panicked
  unfolding copy_left
  copy_left-panicked pk len used =
      let longer : (pk.rd + len == len) ≡ false = ground arith in
      elim (Bool-cases (leb (pk.rd + len) (filled stream pk))) [
        | inl fits ↦ rw (fits, longer) refl
        | inr past ↦ rw past refl
      ]

  after_peek-panicked :
      (pk : PeekStream T) (io : T) (n : ℕ) (p : Poll (List ℕ)) (bs : List ℕ)
      → 0 < pk.rd
      → p ≡ Poll.ready bs
      → after_peek stream (keep stream (record pk { io = io }) p) n p ≡ Peeked.panicked
  unfolding after_peek keep
  after_peek-panicked pk io n p bs used e =
      subst
        (λ (t : Poll (List ℕ)).
          after_peek stream (keep stream (record pk { io = io }) t) n t ≡ Peeked.panicked)
        (sym e) (copy_left-panicked (keep stream (record pk { io = io }) (Poll.ready bs)) _ used)

  -- A look at the bytes panics where some of the kept bytes have been read and some have not, when the
  -- read that comes first, if the buffer has room for it, is successful.
  pub peek-panicked :
      (n : ℕ) (pk : PeekStream T) (bs : List ℕ)
      → 0 < pk.rd
      → pk.rd < pk.wr
      → (stream.poll_read (unfilled stream pk) pk.io).1 ≡ Poll.ready bs
      → (peek stream n pk).1 ≡ Peeked.panicked
  unfolding peek poll_peek try_reset filled
  peek-panicked n pk bs used left e =
      let kept : (pk.wr - pk.rd == 0) ≡ false = ground arith in
      elim (Bool-cases (ltb 0 (unfilled stream pk))) [
        | inl room ↦
            rw (kept, room)
              (after_peek-panicked pk (stream.poll_read (unfilled stream pk) pk.io).0 n
                (stream.poll_read (unfilled stream pk) pk.io).1 bs used e)
        | inr full ↦ rw (kept, full) (copy_left-panicked pk _ used)
      ]
