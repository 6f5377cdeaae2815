-- ===== src/Io/Copy/Tests.antt =====
-- Runs of the copy of bytehub_io/src/buf.rs between two streams in memory.
use bytehub.Prelude.{ℕ, ◌%◌, ◌^◌, ◌≡◌, refl, true, false, some, List, [], ◌∷◌, ◌++◌, length, arith}
use bytehub.Io.Stream.{Poll}
use bytehub.Io.Memory.{Memory, memory, memory_laws}
use bytehub.Io.Copy.{
  new, target_len, obfuscate, xor_byte, Copying, put_bytes, unwritten, after_read, fill, advance,
  after_write, write_once, write_out, after_last_flush, finish, write_all, round, poll_copy,
}
use bytehub.Io.Copy.Delivery.{started, polled, reached-in_order, poll_copy-delivers}
use bytehub.Io.Copy.Progress.{rounds_left}
use bytehub.Io.Copy.Ends.{poll_copy-returns}

abbrev source : Memory
source = record { incoming = 1 ∷ 2 ∷ 3 ∷ 4 ∷ 5 ∷ []; seen = []; out = []; eof = false }

abbrev sink : Memory
sink = record { incoming = []; seen = []; out = []; eof = false }

abbrev buffer : List ℕ
buffer = 0 ∷ 0 ∷ 0 ∷ 0 ∷ []

abbrev begun : Copying Memory Memory
begun = record { r = source; w = sink; buf = new buffer }

-- Five bytes by a buffer of four, written by three at most, in an obfuscated relay.
whole_copy : (poll_copy memory memory 1 (λ k. k) 4 begun).0 ≡ some (Poll.ready 5)
unfolding new poll_copy round fill write_all write_out write_once finish after_read after_write
    after_last_flush target_len put_bytes obfuscate xor_byte unwritten advance
whole_copy = refl

poll_copy-delivers_example :
    (x : List ℕ) × ((poll_copy memory memory 1 (λ k. k) 4 begun).1.r.seen ≡ [] ++ x)
    × ((poll_copy memory memory 1 (λ k. k) 4 begun).1.w.out ≡ [] ++ obfuscate 1 x)
    × (5 ≡ length x % 2 ^ 64)
    × ((poll_copy memory memory 1 (λ k. k) 4 begun).1.r.eof ≡ true)
poll_copy-delivers_example =
    poll_copy-delivers memory memory memory_laws memory_laws 1 source sink buffer (omega arith)
      begun started (λ k. k) 4 5 whole_copy

-- After one round.
abbrev half : Copying Memory Memory
half = (poll_copy memory memory 1 (λ k. k) 1 begun).1

reached-in_order_example :
    (x : List ℕ) × (y : List ℕ) × (half.r.seen ≡ [] ++ x)
    × (half.w.out ≡ [] ++ y)
    × (y ++ unwritten half.buf ≡ obfuscate 1 x)
reached-in_order_example =
    reached-in_order memory memory memory_laws memory_laws 1 source sink buffer (omega arith) half
      (polled started (λ k. k) 1)

poll_copy-returns_example : (p : Poll ℕ) × ((poll_copy memory memory 1 (λ k. k) 6 begun).0 ≡ some p)
unfolding rounds_left new
poll_copy-returns_example =
    poll_copy-returns memory memory memory_laws memory_laws 1 source sink buffer (omega arith) begun
      started (λ k. k) 6 (omega arith)
