-- ===== src/Io/Copy/Reads.antt =====
-- A read and a flush of the writer keep what the copy has handed over, for bytehub_io/src/buf.rs.
use bytehub.Prelude.{
  ℕ, suc, ◌≤◌, ◌≡◌, refl, ap, sym, ◌∙◌, true, false, not, ◌&&◌, List, [], ◌∷◌, ◌++◌, ◌==◌, length,
  drop, arith, append-nil, ++_assoc, length-append, length-drop,
}
use bytehub.Io.Stream.{Poll, ready, error, pending, Nothing, Stream, got, Laws}
use bytehub.Io.Copy.{
  target_len, obfuscate, Copying, put_bytes, unwritten, after_flush, flush_pending, after_read,
  fill,
}
use bytehub.Io.Copy.Content.{
  length-obfuscate, obfuscate-append, target_len-bounds, IsRelayed, Holds, Holds-if,
  unwritten_empty, unwritten-put_bytes,
}

module _ {A B : Type 0} (reader : Stream A) (writer : Stream B) (rl : Laws reader)
    (wl : Laws writer) (mode : ℕ) (r0 s0 : List ℕ) where
  abbrev Relayed : Copying A B → Type 0
  Relayed = IsRelayed rl wl mode r0 s0

  -- A flush of the writer keeps the invariant, whatever it gives.
  pub flushed :
      (st : Copying A B) → Relayed st → Relayed (record st { w = (writer.poll_flush st.w).0 })
  flushed st h = record {
    read_bytes = h.read_bytes;
    written_bytes = h.written_bytes;
    read_eq = h.read_eq;
    written_eq = wl.flush-sent st.w ∙ h.written_eq;
    content = h.content;
    amt_eq = h.amt_eq;
    pos-cap = h.pos-cap;
    cap-len = h.cap-len;
    has_room = h.has_room;
    done_at_eof = h.done_at_eof;
  }

  unflushed :
      (st : Copying A B)
      → Relayed st
      → Relayed (record st { buf = record st.buf { need_flush = false } })
  unfolding unwritten
  unflushed st h = record {
    read_bytes = h.read_bytes;
    written_bytes = h.written_bytes;
    read_eq = h.read_eq;
    written_eq = h.written_eq;
    content = h.content;
    amt_eq = h.amt_eq;
    pos-cap = h.pos-cap;
    cap-len = h.cap-len;
    has_room = h.has_room;
    done_at_eof = h.done_at_eof;
  }

  after_flush-Holds :
      (st : Copying A B) (p : Poll Nothing)
      → Relayed st
      → Holds Relayed (after_flush reader writer mode st p)
  unfolding after_flush
  after_flush-Holds st (ready n) h = (unflushed st h, tt)
  after_flush-Holds st (error e) h = (h, tt)
  after_flush-Holds st pending h = (h, tt)

  flush_pending-Holds :
      (st : Copying A B) → Relayed st → Holds Relayed (flush_pending reader writer mode st)
  unfolding flush_pending
  flush_pending-Holds st h =
      Holds-if Relayed _ _ st.buf.need_flush (λ e. after_flush-Holds _ _ (flushed st h))
        (λ e. (h, tt))

  -- A reader that gave nothing and met no end.
  idle :
      (st : Copying A B) (r : A)
      → Relayed st
      → rl.received r ≡ rl.received st.r ++ []
      → (st.buf.read_done ≡ true → rl.at_eof r ≡ true)
      → Relayed (record st { r = r })
  idle st r h e eof = record {
    read_bytes = h.read_bytes;
    written_bytes = h.written_bytes;
    read_eq = e ∙ append-nil (rl.received st.r) ∙ h.read_eq;
    written_eq = h.written_eq;
    content = h.content;
    amt_eq = h.amt_eq;
    pos-cap = h.pos-cap;
    cap-len = h.cap-len;
    has_room = h.has_room;
    done_at_eof = eof;
  }

  ended :
      (st : Copying A B)
      → Relayed st
      → rl.at_eof st.r ≡ true
      → Relayed (record st { buf = record st.buf { read_done = true } })
  unfolding unwritten
  ended st h eof = record {
    read_bytes = h.read_bytes;
    written_bytes = h.written_bytes;
    read_eq = h.read_eq;
    written_eq = h.written_eq;
    content = h.content;
    amt_eq = h.amt_eq;
    pos-cap = h.pos-cap;
    cap-len = h.cap-len;
    has_room = h.has_room;
    done_at_eof = λ e. eof;
  }

  -- A read into an empty buffer.
  filled :
      (st : Copying A B) (r : A) (b : ℕ) (bs : List ℕ)
      → Relayed st
      → rl.received r ≡ rl.received st.r ++ (b ∷ bs)
      → st.buf.pos ≡ st.buf.cap
      → st.buf.read_done ≡ false
      → suc (length bs) ≤ length st.buf.buf
      → Relayed (record st {
        r = r;
        buf = record (put_bytes mode (b ∷ bs) st.buf) { pos = 0; cap = suc (length bs) };
      })
  unfolding put_bytes
  filled st r b bs h e empty more room =
      let size : length (obfuscate mode (b ∷ bs) ++ drop (suc (length bs)) st.buf.buf)
          ≡ length st.buf.buf =
        omega (
          arith,
          length-append (obfuscate mode (b ∷ bs)) (drop (suc (length bs)) st.buf.buf),
          length-obfuscate mode (b ∷ bs),
          length-drop (suc (length bs)) st.buf.buf,
        ) in
      let nothing = unwritten_empty st.buf (omega (arith, empty)) in
      record {
        read_bytes = h.read_bytes ++ (b ∷ bs);
        written_bytes = h.written_bytes;
        read_eq =
            e ∙ ap (λ (t : List ℕ). t ++ (b ∷ bs)) h.read_eq ∙ ++_assoc r0 h.read_bytes (b ∷ bs);
        written_eq = h.written_eq;
        content =
            ap (λ (t : List ℕ). h.written_bytes ++ t) (unwritten-put_bytes mode b bs st.buf)
            ∙ ap (λ (t : List ℕ). t ++ obfuscate mode (b ∷ bs))
                (sym (append-nil h.written_bytes)
                  ∙ ap (λ (t : List ℕ). h.written_bytes ++ t) (sym nothing)
                  ∙ h.content)
            ∙ sym (obfuscate-append mode h.read_bytes (b ∷ bs));
        amt_eq = h.amt_eq;
        pos-cap = omega arith;
        cap-len = omega (arith, size, room);
        has_room = omega (arith, size, room);
        done_at_eof = λ d. absurd cc;
      }

  after_read-Holds :
      (st : Copying A B) (r : A) (p : Poll (List ℕ))
      → Relayed st
      → rl.received r ≡ rl.received st.r ++ got p
      → length (got p) ≤ length st.buf.buf
      → (p ≡ Poll.ready [] → rl.at_eof r ≡ true)
      → st.buf.pos ≡ st.buf.cap
      → st.buf.read_done ≡ false
      → Holds Relayed (after_read reader writer mode (record st { r = r }) p)
  unfolding after_read
  after_read-Holds st r (ready []) h e room eof empty more =
      ended (record st { r = r }) (idle st r h e (λ d. absurd cc)) (eof refl)
  after_read-Holds st r (ready (b ∷ bs)) h e room eof empty more =
      filled st r b bs h e empty more room
  after_read-Holds st r (error x) h e room eof empty more = (idle st r h e (λ d. absurd cc), tt)
  after_read-Holds st r pending h e room eof empty more =
      flush_pending-Holds (record st { r = r }) (idle st r h e (λ d. absurd cc))

  pub fill-Holds :
      (nanos : ℕ) (st : Copying A B) → Relayed st → Holds Relayed (fill reader writer mode nanos st)
  unfolding fill
  fill-Holds nanos st h =
      let room = target_len mode (length st.buf.buf) nanos in
      let (some_room, fits) = target_len-bounds mode (length st.buf.buf) nanos h.has_room in
      Holds-if Relayed _ _ (st.buf.pos == st.buf.cap && not st.buf.read_done)
        (λ now.
          after_read-Holds st (reader.poll_read room st.r).0 (reader.poll_read room st.r).1 h
            (rl.read-received room st.r) (omega (arith, rl.length-read room st.r, fits))
            (rl.read-at_eof room st.r some_room) (ground (arith, now)) (ground (arith, now)))
        (λ full. h)
