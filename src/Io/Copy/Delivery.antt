-- ===== src/Io/Copy/Delivery.antt =====
-- What the copy of one direction hands over, for bytehub_io/src/buf.rs.
use mathlib.Core.Option.{some-injective}
use bytehub.Prelude.{
  ℕ, zero, suc, ◌-◌, ◌%◌, ◌^◌, ◌<◌, ◌≡◌, refl, ap, sym, subst, ◌∙◌, true, Option, some, List, [],
  ◌++◌, ◌==◌, length, arith, Bool-cases, inl, inr, append-nil,
}
use bytehub.Io.Stream.{Poll, Stream, Laws}
use bytehub.Io.Copy.{
  new, obfuscate, Copying, Flow, go_on, return, then_do, unwritten, fill, finish, write_all, round,
  poll_copy,
}
use bytehub.Io.Copy.Content.{
  length-obfuscate, IsRelayed, IsOutcome, Holds, Holds-then_do, unwritten_empty,
}
use bytehub.Io.Copy.Reads.{fill-Holds}
use bytehub.Io.Copy.Writes.{write_out-Holds, finish-Holds}

module _ {A B : Type 0} (reader : Stream A) (writer : Stream B) (rl : Laws reader)
    (wl : Laws writer) (mode : ℕ) (r0 s0 : List ℕ) where
  abbrev Relayed : Copying A B → Type 0
  Relayed = IsRelayed rl wl mode r0 s0

  round-Holds :
      (nanos : ℕ) (st : Copying A B)
      → Relayed st
      → Holds Relayed (round reader writer mode nanos st)
  unfolding round write_all
  round-Holds nanos st h =
      Holds-then_do Relayed
        (then_do (fill reader writer mode nanos st) (write_all reader writer mode))
        (finish reader writer mode)
        (Holds-then_do Relayed (fill reader writer mode nanos st) (write_all reader writer mode)
          (fill-Holds reader writer rl wl mode r0 s0 nanos st h)
          (λ st' h'.
            write_out-Holds reader writer rl wl mode r0 s0 (st'.buf.cap - st'.buf.pos) st' h'))
        (finish-Holds reader writer rl wl mode r0 s0)

  -- What the states after a poll satisfy, with its result.
  abbrev Polled : Option (Poll ℕ) × Copying A B → Type 0
  Polled o = Relayed o.1 × ((p : Poll ℕ) → o.0 ≡ some p → IsOutcome p o.1)

  pub poll_copy-Polled :
      (nanos : ℕ → ℕ) (fuel : ℕ) (st : Copying A B)
      → Relayed st
      → Polled (poll_copy reader writer mode nanos fuel st)
  unfolding poll_copy
  poll_copy-Polled nanos zero st h = (h, λ p e. absurd cc)
  poll_copy-Polled nanos (suc fuel) st h =
      after_round (round reader writer mode (nanos fuel) st) (round-Holds (nanos fuel) st h)
        (poll_copy-Polled nanos fuel)
    where
      after_round :
          (m : Flow (Copying A B))
          → Holds Relayed m
          → ((st' : Copying A B)
              → Relayed st'
              → Polled (poll_copy reader writer mode nanos fuel st'))
          → Polled (elim m [
            | go_on st' ↦ poll_copy reader writer mode nanos fuel st'
            | return p st' ↦ (some p, st')
          ])
      after_round (go_on st') k rest = rest st' k
      after_round (return p st') (k, o) rest =
          (k, λ q e. subst (λ (t : Poll ℕ). IsOutcome t st') (some-injective p q e) o)

-- With the outcome of a success the invariant is of a whole transfer.
pub delivered :
    {A B : Type 0} {reader : Stream A} {writer : Stream B} (rl : Laws reader) (wl : Laws writer)
    (mode : ℕ) (r0 s0 : List ℕ) (n : ℕ) (st : Copying A B)
    → IsRelayed rl wl mode r0 s0 st
    → IsOutcome (Poll.ready n) st
    → (x : List ℕ) × (rl.received st.r ≡ r0 ++ x)
      × (wl.sent st.w ≡ s0 ++ obfuscate mode x)
      × (n ≡ length x % 2 ^ 64)
      × (rl.at_eof st.r ≡ true)
delivered rl wl mode r0 s0 n st k (count, all, done) =
    let whole : k.written_bytes ≡ obfuscate mode k.read_bytes =
      sym (append-nil k.written_bytes)
      ∙ ap (λ (t : List ℕ). k.written_bytes ++ t)
          (sym (unwritten_empty st.buf (omega (arith, all))))
      ∙ k.content in
    (
      k.read_bytes,
      k.read_eq,
      k.written_eq ∙ ap (λ (t : List ℕ). s0 ++ t) whole,
      count
          ∙ k.amt_eq
          ∙ ap (λ (t : ℕ). t % 2 ^ 64)
              (ap (λ (t : List ℕ). length t) whole ∙ length-obfuscate mode k.read_bytes),
      k.done_at_eof done,
    )

module _ {A B : Type 0} (reader : Stream A) (writer : Stream B) (rl : Laws reader)
    (wl : Laws writer) (mode : ℕ) where
  -- The copies that polls reach from a new buffer between two streams.
  pub data IsReached (a : A) (b : B) (bytes : List ℕ) : Copying A B → Type 0 where
    started : IsReached a b bytes (record { r = a; w = b; buf = new bytes })
    polled :
        {st : Copying A B}
        → IsReached a b bytes st
        → (nanos : ℕ → ℕ) (fuel : ℕ)
        → IsReached a b bytes (poll_copy reader writer mode nanos fuel st).1

  module _ (a : A) (b : B) (bytes : List ℕ) (room : 0 < length bytes) where
    pub start-IsRelayed :
        IsRelayed rl wl mode (rl.received a) (wl.sent b) (record { r = a; w = b; buf = new bytes })
    unfolding new obfuscate unwritten
    start-IsRelayed = record {
      read_bytes = [];
      written_bytes = [];
      read_eq = sym (append-nil (rl.received a));
      written_eq = sym (append-nil (wl.sent b));
      content = elim (Bool-cases (mode == 0)) [
        | inl plain ↦ rw plain refl
        | inr hidden ↦ rw hidden refl
      ];
      amt_eq = omega arith;
      pos-cap = omega arith;
      cap-len = omega arith;
      has_room = room;
      done_at_eof = λ e. absurd cc;
    }

    pub reached-IsRelayed :
        (st : Copying A B)
        → IsReached a b bytes st
        → IsRelayed rl wl mode (rl.received a) (wl.sent b) st
    reached-IsRelayed _ started = start-IsRelayed
    reached-IsRelayed _ (polled {st = st} h nanos fuel) =
        (poll_copy-Polled reader writer rl wl mode (rl.received a) (wl.sent b) nanos fuel st
          (reached-IsRelayed st h)).0

    -- At every poll the writer has been given, in order and without loss, the bytes that were read,
    -- exclusive-ored with 0x5A when the relay is obfuscated, less those that the buffer still holds.
    pub reached-in_order :
        (st : Copying A B)
        → IsReached a b bytes st
        → (x : List ℕ) × (y : List ℕ) × (rl.received st.r ≡ rl.received a ++ x)
          × (wl.sent st.w ≡ wl.sent b ++ y)
          × (y ++ unwritten st.buf ≡ obfuscate mode x)
    reached-in_order st h =
        let k = reached-IsRelayed st h in
        (k.read_bytes, k.written_bytes, k.read_eq, k.written_eq, k.content)

    -- A copy that reports success has met the end of its reader, has given the writer every byte that
    -- was read, in order, exclusive-ored with 0x5A when the relay is obfuscated, and reports their
    -- number, modulo 2^64. This holds however many polls it took and however they were cut short.
    pub poll_copy-delivers :
        (st : Copying A B)
        → IsReached a b bytes st
        → (nanos : ℕ → ℕ) (fuel n : ℕ)
        → (poll_copy reader writer mode nanos fuel st).0 ≡ some (Poll.ready n)
        → let end = (poll_copy reader writer mode nanos fuel st).1 in
          (x : List ℕ) × (rl.received end.r ≡ rl.received a ++ x)
          × (wl.sent end.w ≡ wl.sent b ++ obfuscate mode x)
          × (n ≡ length x % 2 ^ 64)
          × (rl.at_eof end.r ≡ true)
    poll_copy-delivers st h nanos fuel n e =
        let (k, o) =
          poll_copy-Polled reader writer rl wl mode (rl.received a) (wl.sent b) nanos fuel st
            (reached-IsRelayed st h) in
        delivered rl wl mode (rl.received a) (wl.sent b) n
          (poll_copy reader writer mode nanos fuel st).1 k (o (Poll.ready n) e)
