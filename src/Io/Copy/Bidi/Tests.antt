-- ===== src/Io/Copy/Bidi/Tests.antt =====
-- A run of both directions of bytehub_io/src/bidi_copy.rs between two streams in memory.
use bytehub.Prelude.{ℕ, ◌≡◌, refl, false, some, List, [], ◌∷◌, arith}
use bytehub.Io.Stream.{Poll}
use bytehub.Io.Copy
use bytehub.Io.Copy.{new}
use bytehub.Io.Memory.{Memory, memory, memory_laws}
use bytehub.Io.Copy.Bidi.{
  TransferState, BidiCopy, poll, transfer, after_copy, shut_down, after_shutdown, after_a_to_b,
  poll_back, combine_with, combine,
}
use bytehub.Io.Copy.Bidi.Delivery.{IsDelivered}
use bytehub.Io.Copy.Bidi.Relay.{started, poll-delivers}

abbrev left : Memory
left = record { incoming = 1 ∷ 2 ∷ 3 ∷ []; seen = []; out = []; eof = false }

abbrev right : Memory
right = record { incoming = 8 ∷ 9 ∷ []; seen = []; out = []; eof = false }

abbrev buffer : List ℕ
buffer = 0 ∷ 0 ∷ []

abbrev begun : BidiCopy Memory Memory
begun = record {
  a = left;
  b = right;
  a_to_b = TransferState.running (new buffer);
  b_to_a = TransferState.running (new buffer);
}

whole_relay : (poll memory memory 1 false (λ k. k) 4 begun).0 ≡ some (Poll.ready (3, 2))
unfolding new poll transfer after_copy shut_down after_shutdown after_a_to_b poll_back combine_with
    combine Copy.poll_copy Copy.round Copy.fill Copy.write_all Copy.write_out Copy.write_once
    Copy.finish Copy.after_read Copy.after_write Copy.after_last_flush Copy.target_len
    Copy.put_bytes Copy.obfuscate Copy.xor_byte Copy.unwritten Copy.advance
whole_relay = refl

abbrev over : BidiCopy Memory Memory
over = (poll memory memory 1 false (λ k. k) 4 begun).1

poll-delivers_example :
    IsDelivered memory_laws memory_laws 1 [] [] 3 over.a over.b
    × IsDelivered memory_laws memory_laws 1 [] [] 2 over.b over.a
poll-delivers_example =
    poll-delivers memory memory memory_laws memory_laws 1 left right buffer buffer (omega arith)
      (omega arith) begun started (λ k. k) 4 3 2 whole_relay
