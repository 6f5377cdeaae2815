-- ===== src/Io/Copy/Bidi/Relay.antt =====
-- The two directions of a relay together, for the future BidiCopy of bytehub_io/src/bidi_copy.rs.
use mathlib.Core.Option.{some-injective}
use bytehub.Prelude.{ℕ, ◌<◌, ◌≡◌, ap, subst, Bool, false, Option, none, some, List, length}
use bytehub.Io.Stream.{Poll, ready, error, pending, Stream, Laws}
use bytehub.Io.Copy.{new}
use bytehub.Io.Copy.Delivery.{start-IsRelayed}
use bytehub.Io.Copy.Bidi.{
  TransferState, Way, transfer, BidiCopy, combine, combine_with, poll_back, after_a_to_b, poll,
}
use bytehub.Io.Copy.Bidi.Delivery.{
  IsDelivered, IsOnWay, moved-IsOnWay, transfer-IsPolled, transfer-IsKept,
}

first_of : Poll (ℕ × ℕ) → Poll ℕ
first_of (ready (n, m)) = Poll.ready n
first_of (error e) = Poll.error e
first_of pending = Poll.pending

second_of : Poll (ℕ × ℕ) → Poll ℕ
second_of (ready (n, m)) = Poll.ready m
second_of (error e) = Poll.error e
second_of pending = Poll.pending

-- Without the feature, a pair of counts is of two successes.
combine-ready :
    (p q : Poll ℕ) (n m : ℕ)
    → combine false p q ≡ Poll.ready (n, m)
    → (p ≡ Poll.ready n) × (q ≡ Poll.ready m)
unfolding combine first_of second_of
combine-ready (error e) q n m h = absurd cc
combine-ready (ready a) (error e) n m h = absurd cc
combine-ready pending (error e) n m h = absurd cc
combine-ready (ready a) (ready b) n m h = (ap first_of h, ap second_of h)
combine-ready (ready a) pending n m h = absurd cc
combine-ready pending (ready b) n m h = absurd cc
combine-ready pending pending n m h = absurd cc

combine_with-some :
    (p : Poll ℕ) (q : Option (Poll ℕ)) (n m : ℕ)
    → combine_with false p q ≡ some (Poll.ready (n, m))
    → (p ≡ Poll.ready n) × (q ≡ some (Poll.ready m))
unfolding combine_with
combine_with-some p none n m h = absurd cc
combine_with-some p (some q) n m h =
    let (x, y) = combine-ready p q n m (some-injective _ _ h) in (x, ap some y)

module _ {A B : Type 0} (sa : Stream A) (sb : Stream B) (la : Laws sa) (lb : Laws sb) (mode : ℕ)
    (a0 : A) (b0 : B) where
  -- Each direction is on its way since the streams `a0` and `b0`.
  pub IsRelaying : BidiCopy A B → Type 0
  IsRelaying st =
      IsOnWay la lb mode (la.received a0) (lb.sent b0) st.a st.b st.a_to_b
      × IsOnWay lb la mode (lb.received b0) (la.sent a0) st.b st.a st.b_to_a

  module _ (nanos : ℕ → ℕ) (fuel : ℕ) where
    poll_back-IsRelaying :
        (brutal : Bool) (p : Poll ℕ) (way : Way A B) (back : TransferState)
        → IsOnWay la lb mode (la.received a0) (lb.sent b0) way.r way.w way.state
        → IsOnWay lb la mode (lb.received b0) (la.sent a0) way.w way.r back
        → IsRelaying (poll_back sa sb mode brutal nanos fuel p way back).1
    unfolding poll_back IsRelaying
    poll_back-IsRelaying brutal p way back h k =
        let (s, q, e) =
          transfer-IsKept sb sa lb la mode nanos fuel (lb.received b0) (la.sent a0) way.w way.r
            back in
        (
          moved-IsOnWay la lb mode (la.received a0) (lb.sent b0) way.r _ way.w _ way.state q e s h,
          (transfer-IsPolled sb sa lb la mode nanos fuel (lb.received b0) (la.sent a0) way.w way.r
              back k).0,
        )

    after_a_to_b-IsRelaying :
        (brutal : Bool) (p : Option (Poll ℕ)) (way : Way A B) (back : TransferState)
        → IsOnWay la lb mode (la.received a0) (lb.sent b0) way.r way.w way.state
        → IsOnWay lb la mode (lb.received b0) (la.sent a0) way.w way.r back
        → IsRelaying (after_a_to_b sa sb mode brutal nanos fuel p way back).1
    unfolding after_a_to_b IsRelaying
    after_a_to_b-IsRelaying brutal (some (ready n)) way back h k =
        poll_back-IsRelaying brutal (Poll.ready n) way back h k
    after_a_to_b-IsRelaying brutal (some pending) way back h k =
        poll_back-IsRelaying brutal Poll.pending way back h k
    after_a_to_b-IsRelaying brutal (some (error x)) way back h k = (h, k)
    after_a_to_b-IsRelaying brutal none way back h k = (h, k)

    -- The direction from the second stream to the first, after the other one was polled.
    back-IsOnWay :
        (st : BidiCopy A B)
        → IsRelaying st
        → let way = (transfer sa sb mode nanos fuel st.a st.b st.a_to_b).1 in
          IsOnWay lb la mode (lb.received b0) (la.sent a0) way.w way.r st.b_to_a
    unfolding IsRelaying
    back-IsOnWay st (h, k) =
        let (s, q, e) =
          transfer-IsKept sa sb la lb mode nanos fuel (la.received a0) (lb.sent b0) st.a st.b
            st.a_to_b in
        moved-IsOnWay lb la mode (lb.received b0) (la.sent a0) st.b _ st.a _ st.b_to_a q e s k

    poll-IsRelaying :
        (brutal : Bool) (st : BidiCopy A B)
        → IsRelaying st
        → IsRelaying (poll sa sb mode brutal nanos fuel st).1
    unfolding poll IsRelaying
    poll-IsRelaying brutal st h =
        after_a_to_b-IsRelaying brutal (transfer sa sb mode nanos fuel st.a st.b st.a_to_b).0
          (transfer sa sb mode nanos fuel st.a st.b st.a_to_b).1 st.b_to_a
          (transfer-IsPolled sa sb la lb mode nanos fuel (la.received a0) (lb.sent b0) st.a st.b
            st.a_to_b h.0).0
          (back-IsOnWay st h)

    abbrev Succeeded : Option (Poll (ℕ × ℕ)) × BidiCopy A B → Type 0
    Succeeded o =
        (n m : ℕ)
        → o.0 ≡ some (Poll.ready (n, m))
        → (o.1.a_to_b ≡ TransferState.done n) × (o.1.b_to_a ≡ TransferState.done m)

    poll_back-Succeeded :
        (p : Poll ℕ) (way : Way A B) (back : TransferState)
        → IsOnWay lb la mode (lb.received b0) (la.sent a0) way.w way.r back
        → ((n : ℕ) → p ≡ Poll.ready n → way.state ≡ TransferState.done n)
        → Succeeded (poll_back sa sb mode false nanos fuel p way back)
    unfolding poll_back
    poll_back-Succeeded p way back k first n m e =
        let second =
          (transfer-IsPolled sb sa lb la mode nanos fuel (lb.received b0) (la.sent a0) way.w way.r
            back k).1 in
        let (x, y) =
          combine_with-some p (transfer sb sa mode nanos fuel way.w way.r back).0 n m e in
        (first n x, second m y)

    after_a_to_b-Succeeded :
        (p : Option (Poll ℕ)) (way : Way A B) (back : TransferState)
        → IsOnWay lb la mode (lb.received b0) (la.sent a0) way.w way.r back
        → ((n : ℕ) → p ≡ some (Poll.ready n) → way.state ≡ TransferState.done n)
        → Succeeded (after_a_to_b sa sb mode false nanos fuel p way back)
    unfolding after_a_to_b
    after_a_to_b-Succeeded (some (ready x)) way back k first =
        poll_back-Succeeded (Poll.ready x) way back k (λ n e. first n (ap some e))
    after_a_to_b-Succeeded (some pending) way back k first =
        poll_back-Succeeded Poll.pending way back k (λ n e. first n (ap some e))
    after_a_to_b-Succeeded (some (error x)) way back k first = λ n m e. absurd cc
    after_a_to_b-Succeeded none way back k first = λ n m e. absurd cc

    poll-Succeeded :
        (st : BidiCopy A B) → IsRelaying st → Succeeded (poll sa sb mode false nanos fuel st)
    unfolding poll IsRelaying
    poll-Succeeded st h =
        after_a_to_b-Succeeded (transfer sa sb mode nanos fuel st.a st.b st.a_to_b).0
          (transfer sa sb mode nanos fuel st.a st.b st.a_to_b).1 st.b_to_a (back-IsOnWay st h)
          (transfer-IsPolled sa sb la lb mode nanos fuel (la.received a0) (lb.sent b0) st.a st.b
            st.a_to_b h.0).1

  -- The relays that polls reach from two streams and two new buffers, with either setting of the feature.
  pub data IsReached (bytes bytes' : List ℕ) : BidiCopy A B → Type 0 where
    started : IsReached bytes bytes' (record {
      a = a0;
      b = b0;
      a_to_b = TransferState.running (new bytes);
      b_to_a = TransferState.running (new bytes');
    })
    polled :
        {st : BidiCopy A B}
        → IsReached bytes bytes' st
        → (brutal : Bool) (nanos : ℕ → ℕ) (fuel : ℕ)
        → IsReached bytes bytes' (poll sa sb mode brutal nanos fuel st).1

  module _ (bytes bytes' : List ℕ) (room : 0 < length bytes) (room' : 0 < length bytes') where
    reached-IsRelaying : (st : BidiCopy A B) → IsReached bytes bytes' st → IsRelaying st
    unfolding IsRelaying IsOnWay
    reached-IsRelaying _ started = (
      start-IsRelayed sa sb la lb mode a0 b0 bytes room,
      start-IsRelayed sb sa lb la mode b0 a0 bytes' room',
    )
    reached-IsRelaying _ (polled {st = st} h brutal nanos fuel) =
        poll-IsRelaying nanos fuel brutal st (reached-IsRelaying st h)

    -- A relay that reports success has given each side, in order, every byte that the other side gave
    -- until its end, exclusive-ored with 0x5A when the relay is obfuscated, and reports the numbers of
    -- these bytes, modulo 2^64. This is without the feature that ends with the first direction.
    pub poll-delivers :
        (st : BidiCopy A B)
        → IsReached bytes bytes' st
        → (nanos : ℕ → ℕ) (fuel n m : ℕ)
        → (poll sa sb mode false nanos fuel st).0 ≡ some (Poll.ready (n, m))
        → let end = (poll sa sb mode false nanos fuel st).1 in
          IsDelivered la lb mode (la.received a0) (lb.sent b0) n end.a end.b
          × IsDelivered lb la mode (lb.received b0) (la.sent a0) m end.b end.a
    unfolding IsRelaying IsOnWay
    poll-delivers st h nanos fuel n m e =
        let k = reached-IsRelaying st h in
        let (x, y) = poll-Succeeded nanos fuel st k n m e in
        let (p, q) = poll-IsRelaying nanos fuel false st k in
        let end = (poll sa sb mode false nanos fuel st).1 in
        (
          subst
              (λ (t : TransferState).
                IsOnWay la lb mode (la.received a0) (lb.sent b0) end.a end.b t)
              x p,
          subst
              (λ (t : TransferState).
                IsOnWay lb la mode (lb.received b0) (la.sent a0) end.b end.a t)
              y q,
        )
