-- ===== src/Io/Copy.antt =====
-- The copy of one direction: bytehub_io/src/buf.rs with the buffer in memory of
-- bytehub_io/src/mem_copy.rs. `mode` is the task's OBFS_MODE, and `nanos` the clock's nanoseconds at a
-- round of the loop, by the rounds that are left. A task that polls a stream is one thread.
pub mod Content
pub mod Reads
pub mod Writes
pub mod Delivery
pub mod Progress
pub mod Ends
pub mod Frame
pub mod Bidi
mod Tests
use Prim.Native.Nat.{bit_xor}
use bytehub.Prelude.{
  ℕ, zero, suc, ◌+◌, ◌-◌, ◌*◌, ◌/◌, ◌%◌, ◌^◌, Bool, true, false, not, ◌&&◌, Option, none, some,
  List, [], ◌∷◌, ◌++◌, map, ltb, ◌==◌, if◌then◌else◌, length, take, drop, replicate,
}
use bytehub.Io.Stream.{Error, Poll, ready, error, pending, Nothing, Stream}

pub record CopyBuffer : Type 0 where
  pub read_done : Bool
  pub need_flush : Bool
  pub pos : ℕ
  pub cap : ℕ
  pub amt : ℕ
  pub buf : List ℕ

pub new : List ℕ → CopyBuffer
new bytes = record { read_done = false; need_flush = false; pos = 0; cap = 0; amt = 0; buf = bytes }

-- A random 27 to 62 percent of a large buffer, when the relay is obfuscated.
pub target_len : ℕ → ℕ → ℕ → ℕ
target_len mode max_cap nanos =
    if ltb 128 max_cap && not (mode == 0)
    then (let min_bytes = max_cap * 27 / 100 in
        let max_bytes = max_cap * 62 / 100 in
        let len = min_bytes + nanos % (max_bytes - min_bytes + 1) in if len == 0 then 1 else len)
    else max_cap

pub xor_byte : ℕ → ℕ
xor_byte b = bit_xor b 90

pub obfuscate : ℕ → List ℕ → List ℕ
unfolding xor_byte
obfuscate mode bs = if mode == 0 then bs else map xor_byte bs

-- A reader, a writer and the buffer between them.
pub record Copying (A B : Type 0) : Type 0 where
  pub r : A
  pub w : B
  pub buf : CopyBuffer

-- Whether the loop goes on, or its function returns.
pub data Flow (X : Type 0) : Type 0 where
  go_on : X → Flow X
  return : Poll ℕ → X → Flow X

abbrev pub then_do : {X : Type 0} → Flow X → (X → Flow X) → Flow X
then_do (go_on x) f = f x
then_do (return p x) f = return p x

pub put_bytes : ℕ → List ℕ → CopyBuffer → CopyBuffer
unfolding obfuscate
put_bytes mode bs c = record c { buf = obfuscate mode bs ++ drop (length bs) c.buf }

-- `self.buf[self.pos..self.cap]`.
pub unwritten : CopyBuffer → List ℕ
unwritten c = take (c.cap - c.pos) (drop c.pos c.buf)

pub advance : ℕ → CopyBuffer → CopyBuffer
advance i c = record c { pos = c.pos + i; amt = (c.amt + i) % 2 ^ 64; need_flush = true }

module _ {A B : Type 0} (reader : Stream A) (writer : Stream B) (mode : ℕ) where
  -- The result of `poll_flush`, where the reader is pending.
  pub after_flush : Copying A B → Poll Nothing → Flow (Copying A B)
  after_flush st (ready n) =
      Flow.return Poll.pending (record st { buf = record st.buf { need_flush = false } })
  after_flush st (error e) = Flow.return (Poll.error e) st
  after_flush st pending = Flow.return Poll.pending st

  pub flush_pending : Copying A B → Flow (Copying A B)
  unfolding after_flush
  flush_pending st =
      if st.buf.need_flush
      then after_flush (record st { w = (writer.poll_flush st.w).0 }) (writer.poll_flush st.w).1
      else Flow.return Poll.pending st

  -- The result of `poll_read_buf`.
  pub after_read : Copying A B → Poll (List ℕ) → Flow (Copying A B)
  unfolding put_bytes flush_pending
  after_read st (ready []) = Flow.go_on (record st { buf = record st.buf { read_done = true } })
  after_read st (ready (b ∷ bs)) = Flow.go_on (record st {
    buf = record (put_bytes mode (b ∷ bs) st.buf) { pos = 0; cap = suc (length bs) };
  })
  after_read st (error e) = Flow.return (Poll.error e) st
  after_read st pending = flush_pending st

  pub fill : ℕ → Copying A B → Flow (Copying A B)
  unfolding target_len after_read
  fill nanos st =
      let room = target_len mode (length st.buf.buf) nanos in
      if st.buf.pos == st.buf.cap && not st.buf.read_done
      then after_read (record st { r = (reader.poll_read room st.r).0 })
          (reader.poll_read room st.r).1
      else Flow.go_on st

  -- The result of `poll_write_buf`.
  pub after_write : Copying A B → Poll ℕ → Flow (Copying A B)
  unfolding advance
  after_write st (ready zero) = Flow.return (Poll.error Error.write_zero) st
  after_write st (ready (suc i)) = Flow.go_on (record st { buf = advance (suc i) st.buf })
  after_write st (error e) = Flow.return (Poll.error e) st
  after_write st pending = Flow.return Poll.pending st

  pub write_once : Copying A B → Flow (Copying A B)
  unfolding after_write unwritten
  write_once st =
      let bytes = unwritten st.buf in
      after_write (record st { w = (writer.poll_write bytes st.w).0 })
        (writer.poll_write bytes st.w).1

  -- Each write takes a byte at least, so as many rounds as there are bytes are enough.
  pub write_out : ℕ → Copying A B → Flow (Copying A B)
  unfolding write_once
  write_out zero st = Flow.go_on st
  write_out (suc fuel) st =
      if ltb st.buf.pos st.buf.cap then then_do (write_once st) (write_out fuel) else Flow.go_on st

  pub after_last_flush : Copying A B → Poll Nothing → Flow (Copying A B)
  after_last_flush st (ready n) = Flow.return (Poll.ready st.buf.amt) st
  after_last_flush st (error e) = Flow.return (Poll.error e) st
  after_last_flush st pending = Flow.return Poll.pending st

  pub finish : Copying A B → Flow (Copying A B)
  unfolding after_last_flush
  finish st =
      if st.buf.pos == st.buf.cap && st.buf.read_done
      then after_last_flush (record st { w = (writer.poll_flush st.w).0 })
          (writer.poll_flush st.w).1
      else Flow.go_on st

  pub write_all : Copying A B → Flow (Copying A B)
  unfolding write_out
  write_all st = write_out (st.buf.cap - st.buf.pos) st

  pub round : ℕ → Copying A B → Flow (Copying A B)
  unfolding fill write_all finish
  round nanos st = then_do (then_do (fill nanos st) write_all) finish

  -- None when the rounds run out.
  pub poll_copy : (ℕ → ℕ) → ℕ → Copying A B → Option (Poll ℕ) × Copying A B
  unfolding round
  poll_copy nanos zero st = (none, st)
  poll_copy nanos (suc fuel) st = elim (round (nanos fuel) st) [
    | go_on st' ↦ poll_copy nanos fuel st'
    | return p st' ↦ (some p, st')
  ]
