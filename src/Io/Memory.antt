-- ===== src/Io/Memory.antt =====
-- Streams in memory for the tests of the copy and of the wrappers of bytehub_io.
use Prim.Native.Nat.{min}
use bytehub.Prelude.{
  ℕ, ◌≡◌, refl, Bool, true, List, [], ◌∷◌, ◌++◌, ◌==◌, length, take, drop, arith, length-take,
  length-drop,
}
use bytehub.Io.Stream.{Poll, nothing, Stream, Laws}

-- A stream in memory, that takes three bytes of a write at most.
pub record Memory : Type 0 where
  pub incoming : List ℕ
  pub seen : List ℕ
  pub out : List ℕ
  pub eof : Bool

abbrev pub memory : Stream Memory
memory = record {
  poll_read = λ n s. (
    record s {
      incoming = drop n s.incoming;
      seen = s.seen ++ take n s.incoming;
      eof = length (take n s.incoming) == 0;
    },
    Poll.ready (take n s.incoming),
  );
  poll_write = λ bs s.
      (record s { out = s.out ++ take (min 3 (length bs)) bs }, Poll.ready (min 3 (length bs)));
  poll_flush = λ s. (s, Poll.ready nothing);
  poll_shutdown = λ s. (s, Poll.ready nothing);
}

pub empty_read : (bs : List ℕ) → Poll.ready bs ≡ Poll.ready [] → (length bs == 0) ≡ true
empty_read [] e = refl
empty_read (b ∷ bs) e = absurd cc

abbrev pub memory_laws : Laws memory
memory_laws = record {
  received = λ s. s.seen;
  sent = λ s. s.out;
  at_eof = λ s. s.eof;
  budget = λ s. length s.incoming;
  read-received = λ n s. refl;
  length-read = λ n s. omega (arith, length-take n s.incoming);
  read-at_eof = λ n s h e. empty_read (take n s.incoming) e;
  read-budget = λ n s h. omega (arith, length-take n s.incoming, length-drop n s.incoming, h);
  write-sent = λ bs s. refl;
  accepted-write = λ bs s. omega arith;
  flush-sent = λ s. refl;
  shutdown-sent = λ s. refl;
  read-sent = λ n s. refl;
  write-received = λ bs s. (refl, refl);
  flush-received = λ s. (refl, refl);
  shutdown-received = λ s. (refl, refl);
}
