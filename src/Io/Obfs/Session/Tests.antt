-- ===== src/Io/Obfs/Session/Tests.antt =====
-- An exchange of bytehub_io/src/bidi_copy.rs over streams in memory.
use bytehub.Prelude.{
  ℕ, ◌<◌, ◌≤◌, ◌≡◌, refl, sym, Bool, true, false, none, some, List, [], ◌∷◌, ◌++◌, length, take,
  drop, ltb, arith, take-append-drop,
}
use bytehub.Prelude.Bytes.{bytes}
use bytehub.Io.Stream.{Error}
use bytehub.Io.Copy.{obfuscate}
use bytehub.Io.Obfs.{qualifying, compute_garbage_len}
use bytehub.Io.Obfs.Session.Exchange.{IsClient, IsServer, open_relay-modes}
use bytehub.Io.Obfs.Session.{open_relay, Result, Whole, WholeLaws, combined, consume}
use bytehub.Io.Obfs.Session.Opening.{consume-recovers}

pub record Memory : Type 0 where
  pub unread : List ℕ
  pub sent : List ℕ

abbrev exact : ℕ → Memory → Bool → Memory × Result (List ℕ)
exact n s true = (s, Result.err Error.unexpected_eof)
exact n s false = (record s { unread = drop n s.unread }, Result.ok (take n s.unread))

abbrev memory : Whole Memory
memory = record {
  read_exact = λ n s. exact n s (ltb (length s.unread) n);
  read_within = λ n s. (record s { unread = drop n s.unread }, some (Result.ok (take n s.unread)));
  write_all = λ bs s. (record s { sent = s.sent ++ bs }, none);
}

exact-enough :
    (n : ℕ) (s : Memory) (b : Bool)
    → b ≡ false
    → ((exact n s b).1 ≡ Result.ok (take n s.unread)) × ((exact n s b).0.unread ≡ drop n s.unread)
exact-enough n s true h = absurd cc
exact-enough n s false h = (refl, refl)

exact-short :
    (n : ℕ) (s : Memory) (b : Bool) → b ≡ true → (exact n s b).1 ≡ Result.err Error.unexpected_eof
exact-short n s true h = refl
exact-short n s false h = absurd cc

kept : (n : ℕ) (s : Memory) (b : Bool) → (exact n s b).0.sent ≡ s.sent
kept n s true = refl
kept n s false = refl

enough :
    (n : ℕ) (s : Memory)
    → n ≤ length s.unread
    → ((exact n s (ltb (length s.unread) n)).1 ≡ Result.ok (take n s.unread))
      × ((exact n s (ltb (length s.unread) n)).0.unread ≡ drop n s.unread)
enough n s h = exact-enough n s (ltb (length s.unread) n) (ground arith)

short :
    (n : ℕ) (s : Memory)
    → length s.unread < n
    → (exact n s (ltb (length s.unread) n)).1 ≡ Result.err Error.unexpected_eof
short n s h = exact-short n s (ltb (length s.unread) n) (ground arith)

abbrev memory_laws : WholeLaws memory
memory_laws = record {
  unread = λ s. s.unread;
  sent = λ s. s.sent;
  read_enough = λ n s h. enough n s h;
  read_short = λ n s h. short n s h;
  within-unread = λ n s. sym (take-append-drop n s.unread);
  within-sent = λ n s. refl;
  read_exact-sent = λ n s. kept n s (ltb (length s.unread) n);
  write-sent = λ bs s e. refl;
  write-unread = λ bs s. refl;
}

abbrev content : List ℕ
content = bytes "abcdefg002"

abbrev sent_by_client : Memory
sent_by_client = record {
  unread = combined content (7 ∷ 9 ∷ []) (1 ∷ 2 ∷ []) ++ obfuscate 1 (3 ∷ []);
  sent = [];
}

consume-recovers_example :
    ((consume memory sent_by_client).1 ≡ none)
    × (obfuscate 2 (consume memory sent_by_client).0.unread ≡ 1 ∷ 2 ∷ 3 ∷ [])
unfolding qualifying compute_garbage_len
consume-recovers_example =
    consume-recovers memory memory_laws sent_by_client content (7 ∷ 9 ∷ []) (1 ∷ 2 ∷ []) (3 ∷ [])
      refl (omega arith) refl refl

-- A client whose server has answered, and a server whose client has sent its packet.
open_relay-modes_example :
    IsClient memory memory memory_laws memory_laws content
      (7 ∷ 9 ∷ [])
      sent_by_client
      sent_by_client
      (open_relay memory memory content (7 ∷ 9 ∷ []) 1 sent_by_client sent_by_client)
    × IsServer memory memory memory_laws memory_laws content
        (7 ∷ 9 ∷ [])
        sent_by_client
        sent_by_client
        (open_relay memory memory content (7 ∷ 9 ∷ []) 2 sent_by_client sent_by_client)
open_relay-modes_example =
    open_relay-modes memory memory memory_laws memory_laws content (7 ∷ 9 ∷ []) sent_by_client
      sent_by_client
