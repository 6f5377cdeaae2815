-- ===== src/Io/Obfs/Session.antt =====
-- What opens a relay, before both directions are copied: bidi_copy_buf of bytehub_io/src/bidi_copy.rs.
-- The calls of tokio that read and write whole buffers are parameters; the sleep before the refusal of
-- a prefix is left out.
pub mod Opening
pub mod Exchange
mod Tests
use bytehub.Prelude.{
  ℕ, suc, ◌<◌, ◌≤◌, ◌≡◌, Bool, Option, none, some, List, [], ◌∷◌, ◌++◌, length, take, drop, ltb,
  ◌==◌, if◌then◌else◌,
}
use bytehub.Prelude.Bytes.{bytes, ◌=?◌}
use bytehub.Io.Stream.{Error}
use bytehub.Io.Copy.{obfuscate}
use bytehub.Io.Obfs.{
  keyed_hash_tag, qualifying, compute_garbage_len, mask, generate_dynamic_obfs_v2,
}

-- `io::Result`.
pub data Result (A : Type 0) : Type 0 where
  ok : A → Result A
  err : Error → Result A

-- `read_within` is a read of 200 ms at most: none when the time is over.
pub record Whole (S : Type 0) : Type 0 where
  pub read_exact : ℕ → S → S × Result (List ℕ)
  pub read_within : ℕ → S → S × Option (Result (List ℕ))
  pub write_all : List ℕ → S → S × Option Error

pub obfs_key : List ℕ
obfs_key = bytes "bytehub_obfs_key_2024"

-- The bytes that could be read at once, if any.
abbrev pub first_of : Option (Result (List ℕ)) → List ℕ
first_of none = []
first_of (some (err e)) = []
first_of (some (ok bs)) = bs

-- The prefix and the first bytes, which are exclusive-ored as the copy does with those that follow.
pub combined : List ℕ → List ℕ → List ℕ → List ℕ
combined content garbage [] = generate_dynamic_obfs_v2 obfs_key content garbage
combined content garbage (b ∷ bs) =
    generate_dynamic_obfs_v2 obfs_key content garbage ++ obfuscate 1 (b ∷ bs)

module _ {S : Type 0} (io : Whole S) where
  pub read_first_chunk : S → S × List ℕ
  read_first_chunk s = ((io.read_within 8192 s).0, first_of (io.read_within 8192 s).1)

  pub failure : Result (List ℕ) → Option Error
  failure (ok bs) = none
  failure (err e) = some e

  pub skip_garbage : ℕ → S → S × Option Error
  skip_garbage n s = ((io.read_exact n s).0, failure (io.read_exact n s).1)

  -- The header is unmasked, the 10 bytes and the tag.
  pub check_header : S → List ℕ → List ℕ → S × Option Error
  check_header s content tag =
      if tag =? keyed_hash_tag content obfs_key
      then (if ltb (length (qualifying content)) 3
          then (s, some Error.invalid_data)
          else skip_garbage (compute_garbage_len content) s)
      else (s, some Error.invalid_data)

  pub after_header : S → Result (List ℕ) → S × Option Error
  after_header s (err e) = (s, some e)
  after_header s (ok header) =
      let plain = mask obfs_key 0 header in check_header s (take 10 plain) (drop 10 plain)

  pub consume : S → S × Option Error
  consume s = after_header (io.read_exact 14 s).0 (io.read_exact 14 s).1

-- The streams with which both directions are copied, or the error.
pub data Opened (A B : Type 0) : Type 0 where
  opened : A → B → Opened A B
  failed : Error → A → B → Opened A B

module _ {A B : Type 0} (wa : Whole A) (wb : Whole B) (content garbage : List ℕ) where
  pub client_consumed : A → B × Option Error → Opened A B
  client_consumed a (b, none) = Opened.opened a b
  client_consumed a (b, some x) = Opened.failed x a b

  pub client_written : A → B → Option Error → Opened A B
  unfolding client_consumed
  client_written a b (some e) = Opened.failed e a b
  client_written a b none = client_consumed a (consume wb b)

  -- Mode 1. The first bytes of `a` and the prefix go to `b` together, then the prefix of `b` is taken.
  pub open_client : A → B → Opened A B
  unfolding client_written
  open_client a b =
      let (a', chunk) = read_first_chunk wa a in
      let (b', e) = wb.write_all (combined content garbage chunk) b in client_written a' b' e

  pub server_written : B → A × Option Error → Opened A B
  server_written b (a, some e) = Opened.failed e a b
  server_written b (a, none) = Opened.opened a b

  pub server_answer : A → B → Opened A B
  unfolding server_written
  server_answer a b =
      let (b', chunk) = read_first_chunk wb b in
      server_written b' (wa.write_all (combined content garbage chunk) a)

  pub server_consumed : B → A × Option Error → Opened A B
  unfolding server_answer
  server_consumed b (a, none) = server_answer a b
  server_consumed b (a, some x) = Opened.failed x a b

  -- Mode 2. The prefix of `a` is taken, then the first bytes of `b` and a prefix go to `a` together.
  pub open_server : A → B → Opened A B
  unfolding server_consumed
  open_server a b = server_consumed b (consume wa a)

  -- What is done before both directions are copied.
  pub open_relay : ℕ → A → B → Opened A B
  open_relay mode a b =
      if mode == 1
      then open_client a b
      else if mode == 2
      then open_server a b
      else Opened.opened a b

-- The documented behaviour of the calls: `unread` is what a stream gives before it ends, `sent` what has
-- been written to it.
pub record WholeLaws {S : Type 0} (io : Whole S) : Type 0 where
  pub unread : S → List ℕ
  pub sent : S → List ℕ
  pub read_enough :
      (n : ℕ) (s : S)
      → n ≤ length (unread s)
      → ((io.read_exact n s).1 ≡ Result.ok (take n (unread s)))
        × (unread (io.read_exact n s).0 ≡ drop n (unread s))
  pub read_short :
      (n : ℕ) (s : S)
      → length (unread s) < n
      → (io.read_exact n s).1 ≡ Result.err Error.unexpected_eof
  pub within-unread :
      (n : ℕ) (s : S) → unread s ≡ first_of (io.read_within n s).1 ++ unread (io.read_within n s).0
  pub within-sent : (n : ℕ) (s : S) → sent (io.read_within n s).0 ≡ sent s
  pub read_exact-sent : (n : ℕ) (s : S) → sent (io.read_exact n s).0 ≡ sent s
  pub write-sent :
      (bs : List ℕ) (s : S)
      → (io.write_all bs s).1 ≡ none
      → sent (io.write_all bs s).0 ≡ sent s ++ bs
  pub write-unread : (bs : List ℕ) (s : S) → unread (io.write_all bs s).0 ≡ unread s
