-- ===== src/Io/Copy/Bidi/Delivery.antt =====
-- What a relay of both directions hands over, for bytehub_io/src/bidi_copy.rs.
use bytehub.Prelude.{ℕ, ◌%◌, ◌^◌, ◌≡◌, refl, ◌∙◌, true, Option, none, some, List, ◌++◌, length}
use bytehub.Io.Stream.{Poll, ready, error, pending, Nothing, Stream, Laws}
use bytehub.Io.Copy.{obfuscate, Copying, poll_copy}
use bytehub.Io.Copy.Content.{IsRelayed, IsOutcome}
use bytehub.Io.Copy.Delivery.{delivered, poll_copy-Polled}
use bytehub.Io.Copy.Frame.{IsFramed, poll_copy-IsFramed}
use bytehub.Io.Copy.Bidi.{
  TransferState, running, shutting_down, done, Way, after_shutdown, shut_down, after_copy, transfer,
}

module _ {A B : Type 0} {reader : Stream A} {writer : Stream B} (rl : Laws reader)
    (wl : Laws writer) (mode : ℕ) (r0 s0 : List ℕ) where
  -- The writer has all that the reader gave until its end, and `n` is the number of these bytes.
  pub IsDelivered : ℕ → A → B → Type 0
  IsDelivered n a b =
      (x : List ℕ) × (rl.received a ≡ r0 ++ x)
      × (wl.sent b ≡ s0 ++ obfuscate mode x)
      × (n ≡ length x % 2 ^ 64)
      × (rl.at_eof a ≡ true)

  unfoldable pub IsOnWay : A → B → TransferState → Type 0
  unfolding IsDelivered
  IsOnWay a b (running c) = IsRelayed rl wl mode r0 s0 (record { r = a; w = b; buf = c })
  IsOnWay a b (shutting_down n) = IsDelivered n a b
  IsOnWay a b (done n) = IsDelivered n a b

  -- The other direction may write to the reader and read from the writer.
  moved-IsDelivered :
      (n : ℕ) (a a' : A) (b b' : B)
      → rl.received a' ≡ rl.received a
      → rl.at_eof a' ≡ rl.at_eof a
      → wl.sent b' ≡ wl.sent b
      → IsDelivered n a b
      → IsDelivered n a' b'
  unfolding IsDelivered
  moved-IsDelivered n a a' b b' er ee es (x, r, s, c, e) = (x, er ∙ r, es ∙ s, c, ee ∙ e)

  pub moved-IsOnWay :
      (a a' : A) (b b' : B) (t : TransferState)
      → rl.received a' ≡ rl.received a
      → rl.at_eof a' ≡ rl.at_eof a
      → wl.sent b' ≡ wl.sent b
      → IsOnWay a b t
      → IsOnWay a' b' t
  unfolding IsOnWay
  moved-IsOnWay a a' b b' (running c) er ee es h = record {
    read_bytes = h.read_bytes;
    written_bytes = h.written_bytes;
    read_eq = er ∙ h.read_eq;
    written_eq = es ∙ h.written_eq;
    content = h.content;
    amt_eq = h.amt_eq;
    pos-cap = h.pos-cap;
    cap-len = h.cap-len;
    has_room = h.has_room;
    done_at_eof = λ d. ee ∙ h.done_at_eof d;
  }
  moved-IsOnWay a a' b b' (shutting_down n) er ee es h = moved-IsDelivered n a a' b b' er ee es h
  moved-IsOnWay a a' b b' (done n) er ee es h = moved-IsDelivered n a a' b b' er ee es h

module _ {A B : Type 0} (reader : Stream A) (writer : Stream B) (rl : Laws reader)
    (wl : Laws writer) (mode : ℕ) (nanos : ℕ → ℕ) (fuel : ℕ) (r0 s0 : List ℕ) where
  -- A direction after a poll; the result of a success is its state.
  abbrev IsPolled : Option (Poll ℕ) × Way A B → Type 0
  IsPolled o =
      IsOnWay rl wl mode r0 s0 o.1.r o.1.w o.1.state
      × ((n : ℕ) → o.0 ≡ some (Poll.ready n) → o.1.state ≡ TransferState.done n)

  after_shutdown-IsPolled :
      (n : ℕ) (a : A) (b : B) (p : Poll Nothing)
      → IsDelivered rl wl mode r0 s0 n a b
      → IsPolled (after_shutdown reader writer mode nanos fuel n a b p)
  unfolding after_shutdown IsOnWay
  after_shutdown-IsPolled n a b (ready x) h = (h, λ m e. cc)
  after_shutdown-IsPolled n a b (error x) h = (h, λ m e. absurd cc)
  after_shutdown-IsPolled n a b pending h = (h, λ m e. absurd cc)

  shut_down-IsPolled :
      (n : ℕ) (a : A) (b : B)
      → IsDelivered rl wl mode r0 s0 n a b
      → IsPolled (shut_down reader writer mode nanos fuel n a b)
  unfolding shut_down
  shut_down-IsPolled n a b h =
      after_shutdown-IsPolled n a (writer.poll_shutdown b).0 (writer.poll_shutdown b).1 (
        moved-IsDelivered rl wl mode r0 s0 n a a b (writer.poll_shutdown b).0 refl refl
          (wl.shutdown-sent b) h)

  after_copy-IsPolled :
      (p : Option (Poll ℕ)) (st : Copying A B)
      → IsRelayed rl wl mode r0 s0 st
      → ((q : Poll ℕ) → p ≡ some q → IsOutcome q st)
      → IsPolled (after_copy reader writer mode nanos fuel p st)
  unfolding after_copy IsOnWay IsDelivered
  after_copy-IsPolled (some (ready n)) st h o =
      shut_down-IsPolled n st.r st.w (delivered rl wl mode r0 s0 n st h (o (Poll.ready n) refl))
  after_copy-IsPolled (some (error x)) st h o = (h, λ m e. absurd cc)
  after_copy-IsPolled (some pending) st h o = (h, λ m e. absurd cc)
  after_copy-IsPolled none st h o = (h, λ m e. absurd cc)

  pub transfer-IsPolled :
      (a : A) (b : B) (t : TransferState)
      → IsOnWay rl wl mode r0 s0 a b t
      → IsPolled (transfer reader writer mode nanos fuel a b t)
  unfolding transfer IsOnWay
  transfer-IsPolled a b (running c) h =
      let st : Copying A B = record { r = a; w = b; buf = c } in
      let (k, o) = poll_copy-Polled reader writer rl wl mode r0 s0 nanos fuel st h in
      after_copy-IsPolled (poll_copy reader writer mode nanos fuel st).0
        (poll_copy reader writer mode nanos fuel st).1 k o
  transfer-IsPolled a b (shutting_down n) h = shut_down-IsPolled n a b h
  transfer-IsPolled a b (done n) h = (h, λ m e. cc)

  -- What the other direction relies on.
  abbrev IsKept : A → B → Option (Poll ℕ) × Way A B → Type 0
  IsKept a b o =
      (rl.sent o.1.r ≡ rl.sent a)
      × (wl.received o.1.w ≡ wl.received b)
      × (wl.at_eof o.1.w ≡ wl.at_eof b)

  after_shutdown-IsKept :
      (n : ℕ) (a a' : A) (b b' : B) (p : Poll Nothing)
      → rl.sent a' ≡ rl.sent a
      → wl.received b' ≡ wl.received b
      → wl.at_eof b' ≡ wl.at_eof b
      → IsKept a b (after_shutdown reader writer mode nanos fuel n a' b' p)
  unfolding after_shutdown
  after_shutdown-IsKept n a a' b b' (ready x) s q e = (s, q, e)
  after_shutdown-IsKept n a a' b b' (error x) s q e = (s, q, e)
  after_shutdown-IsKept n a a' b b' pending s q e = (s, q, e)

  shut_down-IsKept :
      (n : ℕ) (a a' : A) (b b' : B)
      → rl.sent a' ≡ rl.sent a
      → wl.received b' ≡ wl.received b
      → wl.at_eof b' ≡ wl.at_eof b
      → IsKept a b (shut_down reader writer mode nanos fuel n a' b')
  unfolding shut_down
  shut_down-IsKept n a a' b b' s q e =
      let (q', e') = wl.shutdown-received b' in
      after_shutdown-IsKept n a a' b (writer.poll_shutdown b').0 (writer.poll_shutdown b').1 s
        (q' ∙ q) (e' ∙ e)

  after_copy-IsKept :
      (a : A) (b : B) (p : Option (Poll ℕ)) (st : Copying A B)
      → IsFramed reader writer rl wl mode (rl.sent a) (wl.received b) (wl.at_eof b) st
      → IsKept a b (after_copy reader writer mode nanos fuel p st)
  unfolding after_copy
  after_copy-IsKept a b (some (ready n)) st h =
      shut_down-IsKept n a st.r b st.w h.kept_sent h.kept_received h.kept_eof
  after_copy-IsKept a b (some (error x)) st h = (h.kept_sent, h.kept_received, h.kept_eof)
  after_copy-IsKept a b (some pending) st h = (h.kept_sent, h.kept_received, h.kept_eof)
  after_copy-IsKept a b none st h = (h.kept_sent, h.kept_received, h.kept_eof)

  pub transfer-IsKept :
      (a : A) (b : B) (t : TransferState)
      → IsKept a b (transfer reader writer mode nanos fuel a b t)
  unfolding transfer
  transfer-IsKept a b (running c) =
      let st : Copying A B = record { r = a; w = b; buf = c } in
      after_copy-IsKept a b (poll_copy reader writer mode nanos fuel st).0
        (poll_copy reader writer mode nanos fuel st).1
        (poll_copy-IsFramed reader writer rl wl mode (rl.sent a) (wl.received b) (wl.at_eof b) nanos
          fuel st (record { kept_sent = refl; kept_received = refl; kept_eof = refl }))
  transfer-IsKept a b (shutting_down n) = shut_down-IsKept n a a b b refl refl refl
  transfer-IsKept a b (done n) = (refl, refl, refl)
