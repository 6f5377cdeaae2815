-- ===== src/Io/Peek/Tests.antt =====
-- Calls on a wrapper of bytehub_io/src/peek.rs over a stream in memory.
use bytehub.Prelude.{◌≡◌, refl, false, List, [], ◌∷◌, ◌++◌, arith}
use bytehub.Io.Memory.{Memory, memory, memory_laws}
use bytehub.Io.Peek.{PeekStream, Peeked, new_alloc, filled_slice, unfilled, peek}
use bytehub.Io.Peek.Order.{Call, run, run-in_order}
use bytehub.Io.Peek.Panic.{peek-panicked}

abbrev source : Memory
source = record { incoming = 1 ∷ 2 ∷ 3 ∷ 4 ∷ 5 ∷ []; seen = []; out = []; eof = false }

abbrev calls : List Call
calls = Call.look 2 ∷ Call.read 1 ∷ Call.look 2 ∷ Call.read 9 ∷ Call.read 9 ∷ []

run-in_order_example :
    let o = run memory calls (new_alloc memory source 3) in
    o.1.io.seen ≡ [] ++ (o.0 ++ filled_slice memory o.1)
run-in_order_example = run-in_order memory memory_laws source 3 calls

-- Two of three bytes are kept.
abbrev begun : PeekStream Memory
begun = record { rd = 1; wr = 3; io = source; buf = 7 ∷ 8 ∷ 9 ∷ 0 ∷ [] }

peek-panicked_example : (peek memory 2 begun).1 ≡ Peeked.panicked
unfolding unfilled
peek-panicked_example = peek-panicked memory 2 begun (1 ∷ []) (omega arith) (omega arith) refl
