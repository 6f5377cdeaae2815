-- ===== src/Io/Copy/Bidi.antt =====
-- Both directions of a relay: bytehub_io/src/bidi_copy.rs from TransferState to the future BidiCopy.
pub mod Delivery
pub mod Relay
mod Tests
use bytehub.Prelude.{ℕ, ◌≡◌, Bool, true, false, Option, none, some, List}
use bytehub.Io.Stream.{Error, Poll, ready, error, pending, Nothing, Stream}
use bytehub.Io.Copy.{CopyBuffer, Copying, poll_copy}

pub data TransferState : Type 0 where
  running : CopyBuffer → TransferState
  shutting_down : ℕ → TransferState
  done : ℕ → TransferState

-- A direction with its reader and its writer.
pub record Way (A B : Type 0) : Type 0 where
  pub r : A
  pub w : B
  pub state : TransferState

module _ {A B : Type 0} (reader : Stream A) (writer : Stream B) (mode : ℕ) (nanos : ℕ → ℕ)
    (fuel : ℕ) where
  pub after_shutdown : ℕ → A → B → Poll Nothing → Option (Poll ℕ) × Way A B
  after_shutdown n a b (ready x) =
      (some (Poll.ready n), record { r = a; w = b; state = TransferState.done n })
  after_shutdown n a b (error e) =
      (some (Poll.error e), record { r = a; w = b; state = TransferState.shutting_down n })
  after_shutdown n a b pending =
      (some Poll.pending, record { r = a; w = b; state = TransferState.shutting_down n })

  pub shut_down : ℕ → A → B → Option (Poll ℕ) × Way A B
  unfolding after_shutdown
  shut_down n a b = after_shutdown n a (writer.poll_shutdown b).0 (writer.poll_shutdown b).1

  pub after_copy : Option (Poll ℕ) → Copying A B → Option (Poll ℕ) × Way A B
  unfolding shut_down
  after_copy (some (ready n)) st = shut_down n st.r st.w
  after_copy (some (error e)) st =
      (some (Poll.error e), record { r = st.r; w = st.w; state = TransferState.running st.buf })
  after_copy (some pending) st =
      (some Poll.pending, record { r = st.r; w = st.w; state = TransferState.running st.buf })
  after_copy none st = (none, record { r = st.r; w = st.w; state = TransferState.running st.buf })

  pub transfer : A → B → TransferState → Option (Poll ℕ) × Way A B
  unfolding after_copy
  transfer a b (running c) =
      let (p, st) = poll_copy reader writer mode nanos fuel (record { r = a; w = b; buf = c }) in
      after_copy p st
  transfer a b (shutting_down n) = shut_down n a b
  transfer a b (done n) =
      (some (Poll.ready n), record { r = a; w = b; state = TransferState.done n })

  -- The same loop for the other direction; its streams stand in each other's place.
  abbrev pub transfer2 : A → B → TransferState → Option (Poll ℕ) × Way A B
  transfer2 a b t = transfer a b t

pub record BidiCopy (A B : Type 0) : Type 0 where
  pub a : A
  pub b : B
  pub a_to_b : TransferState
  pub b_to_a : TransferState

-- The two results, neither of which is an error of the first direction, as the feature
-- "brutal-shutdown" or its absence has them.
pub combine : Bool → Poll ℕ → Poll ℕ → Poll (ℕ × ℕ)
combine brutal (error e) q = Poll.error e
combine brutal (ready n) (error e) = Poll.error e
combine brutal pending (error e) = Poll.error e
combine brutal (ready n) (ready m) = Poll.ready (n, m)
combine false (ready n) pending = Poll.pending
combine true (ready n) pending = Poll.ready (n, 0)
combine false pending (ready m) = Poll.pending
combine true pending (ready m) = Poll.ready (0, m)
combine brutal pending pending = Poll.pending

-- Of the second direction's result, which is none when its copy runs out of rounds.
pub combine_with : Bool → Poll ℕ → Option (Poll ℕ) → Option (Poll (ℕ × ℕ))
unfolding combine
combine_with brutal p none = none
combine_with brutal p (some q) = some (combine brutal p q)

module _ {A B : Type 0} (sa : Stream A) (sb : Stream B) (mode : ℕ) (brutal : Bool) (nanos : ℕ → ℕ)
    (fuel : ℕ) where
  -- The second direction, after the first.
  pub poll_back : Poll ℕ → Way A B → TransferState → Option (Poll (ℕ × ℕ)) × BidiCopy A B
  unfolding transfer combine_with
  poll_back p way back =
      let (q, way') = transfer2 sb sa mode nanos fuel way.w way.r back in
      (
        combine_with brutal p q,
        record { a = way'.w; b = way'.r; a_to_b = way.state; b_to_a = way'.state },
      )

  pub after_a_to_b :
      Option (Poll ℕ) → Way A B → TransferState → Option (Poll (ℕ × ℕ)) × BidiCopy A B
  unfolding poll_back
  after_a_to_b (some (ready n)) way back = poll_back (Poll.ready n) way back
  after_a_to_b (some pending) way back = poll_back Poll.pending way back
  after_a_to_b (some (error e)) way back =
      (some (Poll.error e), record { a = way.r; b = way.w; a_to_b = way.state; b_to_a = back })
  after_a_to_b none way back =
      (none, record { a = way.r; b = way.w; a_to_b = way.state; b_to_a = back })

  -- None when a copy runs out of its rounds.
  pub poll : BidiCopy A B → Option (Poll (ℕ × ℕ)) × BidiCopy A B
  unfolding transfer after_a_to_b
  poll st =
      let (p, way) = transfer sa sb mode nanos fuel st.a st.b st.a_to_b in
      after_a_to_b p way st.b_to_a
