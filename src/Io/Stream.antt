-- ===== src/Io/Stream.antt =====
-- What bytehub_io uses of tokio's streams: the operations of AsyncRead and AsyncWrite, and as laws what
-- their documentation promises.
use bytehub.Prelude.{ℕ, ◌≤◌, ◌<◌, ◌≡◌, Bool, true, List, [], ◌++◌, length, take}

-- `write_zero` and `invalid_data` are errors that bytehub_io makes itself.
pub data Error : Type 0 where
  write_zero unexpected_eof invalid_data : Error
  io : ℕ → Error

-- `Poll<Result<A>>`.
pub data Poll (A : Type 0) : Type 0 where
  ready : A → Poll A
  error : Error → Poll A
  pending : Poll A

-- `()`.
pub data Nothing : Type 0 where
  nothing : Nothing

-- A read takes the room in the buffer and gives the bytes that it put there; a write takes the bytes
-- and gives how many of them it accepted.
pub record Stream (S : Type 0) : Type 0 where
  pub poll_read : ℕ → S → S × Poll (List ℕ)
  pub poll_write : List ℕ → S → S × Poll ℕ
  pub poll_flush : S → S × Poll Nothing
  pub poll_shutdown : S → S × Poll Nothing

abbrev pub got : Poll (List ℕ) → List ℕ
got (ready bs) = bs
got (error e) = []
got pending = []

abbrev pub accepted : Poll ℕ → ℕ
accepted (ready n) = n
accepted (error e) = 0
accepted pending = 0

-- All that has been read from the stream and written to it, whether a read has met the end, and a bound
-- on the reads that can still give bytes before one is pending, as the budget of a task gives.
pub record Laws {S : Type 0} (io : Stream S) : Type 0 where
  pub received : S → List ℕ
  pub sent : S → List ℕ
  pub at_eof : S → Bool
  pub budget : S → ℕ
  pub read-received :
      (n : ℕ) (s : S) → received (io.poll_read n s).0 ≡ received s ++ got (io.poll_read n s).1
  pub length-read : (n : ℕ) (s : S) → length (got (io.poll_read n s).1) ≤ n
  pub read-at_eof :
      (n : ℕ) (s : S)
      → 0 < n
      → (io.poll_read n s).1 ≡ Poll.ready []
      → at_eof (io.poll_read n s).0 ≡ true
  pub read-budget :
      (n : ℕ) (s : S)
      → 0 < length (got (io.poll_read n s).1)
      → budget (io.poll_read n s).0 < budget s
  pub write-sent :
      (bs : List ℕ) (s : S)
      → sent (io.poll_write bs s).0 ≡ sent s ++ take (accepted (io.poll_write bs s).1) bs
  pub accepted-write : (bs : List ℕ) (s : S) → accepted (io.poll_write bs s).1 ≤ length bs
  pub flush-sent : (s : S) → sent (io.poll_flush s).0 ≡ sent s
  pub shutdown-sent : (s : S) → sent (io.poll_shutdown s).0 ≡ sent s
  pub read-sent : (n : ℕ) (s : S) → sent (io.poll_read n s).0 ≡ sent s
  pub write-received :
      (bs : List ℕ) (s : S)
      → (received (io.poll_write bs s).0 ≡ received s) × (at_eof (io.poll_write bs s).0 ≡ at_eof s)
  pub flush-received :
      (s : S)
      → (received (io.poll_flush s).0 ≡ received s) × (at_eof (io.poll_flush s).0 ≡ at_eof s)
  pub shutdown-received :
      (s : S)
      → (received (io.poll_shutdown s).0 ≡ received s) × (at_eof (io.poll_shutdown s).0 ≡ at_eof s)
