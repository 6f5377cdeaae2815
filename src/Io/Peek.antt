-- ===== src/Io/Peek.antt =====
-- bytehub_io/src/peek.rs: a stream whose first bytes can be looked at before they are read.
pub mod Order
pub mod Panic
mod Tests
use bytehub.Prelude.{
  ℕ, zero, suc, ◌+◌, ◌-◌, Bool, true, false, List, [], ◌++◌, length, take, drop, replicate, ltb,
  leb, ◌==◌, if◌then◌else◌,
}
use Prim.Native.Nat.{min}
use bytehub.Io.Stream.{Error, Poll, ready, error, pending, Stream}

pub record PeekStream (T : Type 0) : Type 0 where
  pub rd : ℕ
  pub wr : ℕ
  pub io : T
  pub buf : List ℕ

-- What a call of `peek` gives: the bytes, the error of the read, nothing yet, or a panic.
pub data Peeked : Type 0 where
  peeked : List ℕ → Peeked
  failed : Error → Peeked
  waiting panicked : Peeked

module _ {T : Type 0} (stream : Stream T) where
  pub new_alloc : T → ℕ → PeekStream T
  new_alloc io n = record { rd = 0; wr = 0; io = io; buf = replicate n 0 }

  pub filled_slice : PeekStream T → List ℕ
  filled_slice pk = take (pk.wr - pk.rd) (drop pk.rd pk.buf)

  pub capacity : PeekStream T → ℕ
  capacity pk = length pk.buf

  pub filled : PeekStream T → ℕ
  filled pk = pk.wr - pk.rd

  pub unfilled : PeekStream T → ℕ
  unfilled pk = length pk.buf - pk.wr

  pub try_reset : PeekStream T → PeekStream T
  unfolding filled
  try_reset pk = if filled pk == 0 then record pk { rd = 0; wr = 0 } else pk

  -- A read to the end of the buffer, of which the bytes are kept.
  pub keep : PeekStream T → Poll (List ℕ) → PeekStream T
  keep pk (ready bs) = record pk {
    wr = pk.wr + length bs;
    buf = take pk.wr pk.buf ++ (bs ++ drop (pk.wr + length bs) pk.buf);
  }
  keep pk (error e) = pk
  keep pk pending = pk

  pub poll_peek : PeekStream T → PeekStream T × Poll (List ℕ)
  unfolding unfilled keep
  poll_peek pk =
      let (io, p) = stream.poll_read (unfilled pk) pk.io in (keep (record pk { io = io }) p, p)

  -- `left.copy_from_slice(&self.filled_slice()[..self.rd + len])`, where `left` has `len` bytes: the
  -- slice panics past the filled bytes, and the copy if the lengths differ.
  pub copy_left : PeekStream T → ℕ → Peeked
  unfolding filled_slice filled
  copy_left pk len =
      if leb (pk.rd + len) (filled pk)
      then (if pk.rd + len == len
          then Peeked.peeked (take (pk.rd + len) (filled_slice pk))
          else Peeked.panicked)
      else Peeked.panicked

  pub after_peek : PeekStream T → ℕ → Poll (List ℕ) → Peeked
  unfolding copy_left
  after_peek pk n (ready bs) = copy_left pk (min (filled pk) n)
  after_peek pk n (error e) = Peeked.failed e
  after_peek pk n pending = Peeked.waiting

  -- Into a buffer of `n` bytes.
  pub peek : ℕ → PeekStream T → PeekStream T × Peeked
  unfolding try_reset poll_peek after_peek
  peek n pk =
      let pk0 = try_reset pk in
      if ltb 0 (unfilled pk0)
      then ((poll_peek pk0).0, after_peek (poll_peek pk0).0 n (poll_peek pk0).1)
      else (pk0, copy_left pk0 (min (filled pk0) n))

  -- Into a buffer with room for `n` bytes; the inner stream is read where nothing is kept.
  pub poll_read : ℕ → PeekStream T → PeekStream T × Poll (List ℕ)
  poll_read n pk =
      let len = min (pk.wr - pk.rd) n in
      if pk.rd == pk.wr
      then (record pk { io = (stream.poll_read n pk.io).0 }, (stream.poll_read n pk.io).1)
      else (record pk { rd = pk.rd + len }, Poll.ready (take len (drop pk.rd pk.buf)))
