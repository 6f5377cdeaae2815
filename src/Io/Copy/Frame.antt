-- ===== src/Io/Copy/Frame.antt =====
-- What the copy of one direction leaves alone, for bytehub_io/src/buf.rs: what was written to its reader
-- and what was read from its writer.
use bytehub.Prelude.{
  ℕ, zero, suc, ◌-◌, ◌≡◌, ◌∙◌, Bool, true, false, not, ◌&&◌, Option, some, List, [], ◌∷◌, ltb, ◌==◌,
  if◌then◌else◌, length,
}
use bytehub.Io.Stream.{Poll, ready, error, pending, Nothing, Stream, Laws}
use bytehub.Io.Copy.{
  CopyBuffer, target_len, Copying, Flow, go_on, return, then_do, unwritten, after_flush,
  flush_pending, after_read, fill, after_write, write_once, write_out, after_last_flush, finish,
  write_all, round, poll_copy,
}

abbrev state_of : {X : Type 0} → Flow X → X
state_of (go_on x) = x
state_of (return p x) = x

module _ {X : Type 0} (P : X → Type 0) where
  state_of-then_do :
      (m : Flow X) (f : X → Flow X)
      → P (state_of m)
      → ((x : X) → P x → P (state_of (f x)))
      → P (state_of (then_do m f))
  state_of-then_do (go_on x) f h k = k x h
  state_of-then_do (return p x) f h k = h

  state_of-if :
      (b : Bool) (x y : Flow X)
      → P (state_of x)
      → P (state_of y)
      → P (state_of (if b then x else y))
  state_of-if true x y h k = h
  state_of-if false x y h k = k

module _ {A B : Type 0} (reader : Stream A) (writer : Stream B) (rl : Laws reader)
    (wl : Laws writer) (mode : ℕ) (s q : List ℕ) (e : Bool) where
  pub record IsFramed (st : Copying A B) : Type 0 where
    pub kept_sent : rl.sent st.r ≡ s
    pub kept_received : wl.received st.w ≡ q
    pub kept_eof : wl.at_eof st.w ≡ e

  -- The invariant at other buffers and at the next state of the reader or of the writer.
  read_on :
      (st : Copying A B) (n : ℕ) (c : CopyBuffer)
      → IsFramed st
      → IsFramed (record { r = (reader.poll_read n st.r).0; w = st.w; buf = c })
  read_on st n c h = record {
    kept_sent = rl.read-sent n st.r ∙ h.kept_sent;
    kept_received = h.kept_received;
    kept_eof = h.kept_eof;
  }

  write_on :
      (st : Copying A B) (bs : List ℕ) (c : CopyBuffer)
      → IsFramed st
      → IsFramed (record { r = st.r; w = (writer.poll_write bs st.w).0; buf = c })
  write_on st bs c h = record {
    kept_sent = h.kept_sent;
    kept_received = (wl.write-received bs st.w).0 ∙ h.kept_received;
    kept_eof = (wl.write-received bs st.w).1 ∙ h.kept_eof;
  }

  flush_on :
      (st : Copying A B) (c : CopyBuffer)
      → IsFramed st
      → IsFramed (record { r = st.r; w = (writer.poll_flush st.w).0; buf = c })
  flush_on st c h = record {
    kept_sent = h.kept_sent;
    kept_received = (wl.flush-received st.w).0 ∙ h.kept_received;
    kept_eof = (wl.flush-received st.w).1 ∙ h.kept_eof;
  }

  rebuffered : (st : Copying A B) (c : CopyBuffer) → IsFramed st → IsFramed (record st { buf = c })
  rebuffered st c h = record {
    kept_sent = h.kept_sent;
    kept_received = h.kept_received;
    kept_eof = h.kept_eof;
  }

  after_flush-IsFramed :
      (st : Copying A B) (p : Poll Nothing)
      → IsFramed st
      → IsFramed (state_of (after_flush reader writer mode st p))
  unfolding after_flush
  after_flush-IsFramed st (ready n) h = rebuffered st _ h
  after_flush-IsFramed st (error x) h = h
  after_flush-IsFramed st pending h = h

  after_read-IsFramed :
      (st : Copying A B) (p : Poll (List ℕ))
      → IsFramed st
      → IsFramed (state_of (after_read reader writer mode st p))
  unfolding after_read flush_pending
  after_read-IsFramed st (ready []) h = rebuffered st _ h
  after_read-IsFramed st (ready (b ∷ bs)) h = rebuffered st _ h
  after_read-IsFramed st (error x) h = h
  after_read-IsFramed st pending h =
      state_of-if IsFramed st.buf.need_flush _ _
        (after_flush-IsFramed (record st { w = (writer.poll_flush st.w).0 })
          (writer.poll_flush st.w).1 (flush_on st st.buf h))
        h

  fill-IsFramed :
      (nanos : ℕ) (st : Copying A B)
      → IsFramed st
      → IsFramed (state_of (fill reader writer mode nanos st))
  unfolding fill
  fill-IsFramed nanos st h =
      let room = target_len mode (length st.buf.buf) nanos in
      state_of-if IsFramed (st.buf.pos == st.buf.cap && not st.buf.read_done) _ _
        (after_read-IsFramed (record st { r = (reader.poll_read room st.r).0 })
          (reader.poll_read room st.r).1 (read_on st room st.buf h))
        h

  after_write-IsFramed :
      (st : Copying A B) (p : Poll ℕ)
      → IsFramed st
      → IsFramed (state_of (after_write reader writer mode st p))
  unfolding after_write
  after_write-IsFramed st (ready zero) h = h
  after_write-IsFramed st (ready (suc i)) h = rebuffered st _ h
  after_write-IsFramed st (error x) h = h
  after_write-IsFramed st pending h = h

  write_out-IsFramed :
      (fuel : ℕ) (st : Copying A B)
      → IsFramed st
      → IsFramed (state_of (write_out reader writer mode fuel st))
  unfolding write_out write_once
  write_out-IsFramed zero st h = h
  write_out-IsFramed (suc fuel) st h =
      let bytes = unwritten st.buf in
      state_of-if IsFramed (ltb st.buf.pos st.buf.cap) _ _
        (state_of-then_do IsFramed (write_once reader writer mode st)
          (write_out reader writer mode fuel)
          (after_write-IsFramed (record st { w = (writer.poll_write bytes st.w).0 })
            (writer.poll_write bytes st.w).1 (write_on st bytes st.buf h))
          (write_out-IsFramed fuel))
        h

  last_flush-IsFramed :
      (st : Copying A B) (p : Poll Nothing)
      → IsFramed st
      → IsFramed (state_of (after_last_flush reader writer mode st p))
  unfolding after_last_flush
  last_flush-IsFramed st (ready n) h = h
  last_flush-IsFramed st (error x) h = h
  last_flush-IsFramed st pending h = h

  finish-IsFramed :
      (st : Copying A B) → IsFramed st → IsFramed (state_of (finish reader writer mode st))
  unfolding finish
  finish-IsFramed st h =
      state_of-if IsFramed (st.buf.pos == st.buf.cap && st.buf.read_done) _ _
        (last_flush-IsFramed (record st { w = (writer.poll_flush st.w).0 })
          (writer.poll_flush st.w).1 (flush_on st st.buf h))
        h

  round-IsFramed :
      (nanos : ℕ) (st : Copying A B)
      → IsFramed st
      → IsFramed (state_of (round reader writer mode nanos st))
  unfolding round write_all
  round-IsFramed nanos st h =
      state_of-then_do IsFramed
        (then_do (fill reader writer mode nanos st) (write_all reader writer mode))
        (finish reader writer mode)
        (state_of-then_do IsFramed (fill reader writer mode nanos st) (write_all reader writer mode)
          (fill-IsFramed nanos st h)
          (λ st' h'. write_out-IsFramed (st'.buf.cap - st'.buf.pos) st' h'))
        finish-IsFramed

  pub poll_copy-IsFramed :
      (nanos : ℕ → ℕ) (fuel : ℕ) (st : Copying A B)
      → IsFramed st
      → IsFramed (poll_copy reader writer mode nanos fuel st).1
  unfolding poll_copy
  poll_copy-IsFramed nanos zero st h = h
  poll_copy-IsFramed nanos (suc fuel) st h =
      after_round (round reader writer mode (nanos fuel) st) (round-IsFramed (nanos fuel) st h)
        (poll_copy-IsFramed nanos fuel)
    where
      at_end : Option (Poll ℕ) × Copying A B → Type 0
      at_end o = IsFramed o.1

      after_round :
          (m : Flow (Copying A B))
          → IsFramed (state_of m)
          → ((st' : Copying A B)
              → IsFramed st'
              → IsFramed (poll_copy reader writer mode nanos fuel st').1)
          → at_end (elim m [
            | go_on st' ↦ poll_copy reader writer mode nanos fuel st'
            | return p st' ↦ (some p, st')
          ])
      after_round (go_on st') k rest = rest st' k
      after_round (return p st') k rest = k
