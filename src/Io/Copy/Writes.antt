-- ===== src/Io/Copy/Writes.antt =====
-- The writes and the last flush keep what the copy has handed over, for bytehub_io/src/buf.rs.
use bytehub.Prelude.{
  ℕ, zero, suc, ◌≤◌, ◌≡◌, refl, ap, ◌∙◌, true, ◌&&◌, List, [], ◌++◌, ltb, ◌==◌, length, take, drop,
  arith, take-append-drop, append-nil, ++_assoc, length-append, length-take,
}
use bytehub.Io.Stream.{Poll, ready, error, pending, Nothing, Stream, accepted, Laws}
use bytehub.Io.Copy.{
  Copying, unwritten, advance, after_write, write_once, write_out, after_last_flush, finish,
}
use bytehub.Io.Copy.Content.{
  IsRelayed, Holds, Holds-then_do, Holds-if, unwritten-advance, length-unwritten,
}
use bytehub.Io.Copy.Reads.{flushed}

module _ {A B : Type 0} (reader : Stream A) (writer : Stream B) (rl : Laws reader)
    (wl : Laws writer) (mode : ℕ) (r0 s0 : List ℕ) where
  abbrev Relayed : Copying A B → Type 0
  Relayed = IsRelayed rl wl mode r0 s0

  written :
      (st : Copying A B) (w : B) (i : ℕ)
      → Relayed st
      → wl.sent w ≡ wl.sent st.w ++ take i (unwritten st.buf)
      → i ≤ length (unwritten st.buf)
      → Relayed (record st { w = w; buf = advance i st.buf })
  unfolding advance
  written st w i h e fits =
      let taken : length (take i (unwritten st.buf)) ≡ i =
        omega (arith, length-take i (unwritten st.buf), fits) in
      let size = length-unwritten st.buf h.cap-len in
      record {
        read_bytes = h.read_bytes;
        written_bytes = h.written_bytes ++ take i (unwritten st.buf);
        read_eq = h.read_eq;
        written_eq =
            e
            ∙ ap (λ (t : List ℕ). t ++ take i (unwritten st.buf)) h.written_eq
            ∙ ++_assoc s0 h.written_bytes (take i (unwritten st.buf));
        content =
            ap (λ (t : List ℕ). (h.written_bytes ++ take i (unwritten st.buf)) ++ t)
              (unwritten-advance i st.buf)
            ∙ ++_assoc h.written_bytes (take i (unwritten st.buf)) (drop i (unwritten st.buf))
            ∙ ap (λ (t : List ℕ). h.written_bytes ++ t) (take-append-drop i (unwritten st.buf))
            ∙ h.content;
        amt_eq =
            omega
              (arith, length-append h.written_bytes (take i (unwritten st.buf)), taken, h.amt_eq);
        pos-cap = omega (arith, size, fits, h.pos-cap);
        cap-len = h.cap-len;
        has_room = h.has_room;
        done_at_eof = h.done_at_eof;
      }

  unwritable :
      (st : Copying A B) (w : B)
      → Relayed st
      → wl.sent w ≡ wl.sent st.w ++ []
      → Relayed (record st { w = w })
  unwritable st w h e = record {
    read_bytes = h.read_bytes;
    written_bytes = h.written_bytes;
    read_eq = h.read_eq;
    written_eq = e ∙ append-nil (wl.sent st.w) ∙ h.written_eq;
    content = h.content;
    amt_eq = h.amt_eq;
    pos-cap = h.pos-cap;
    cap-len = h.cap-len;
    has_room = h.has_room;
    done_at_eof = h.done_at_eof;
  }

  after_write-Holds :
      (st : Copying A B) (w : B) (p : Poll ℕ)
      → Relayed st
      → wl.sent w ≡ wl.sent st.w ++ take (accepted p) (unwritten st.buf)
      → accepted p ≤ length (unwritten st.buf)
      → Holds Relayed (after_write reader writer mode (record st { w = w }) p)
  unfolding after_write
  after_write-Holds st w (ready zero) h e fits = (unwritable st w h e, tt)
  after_write-Holds st w (ready (suc i)) h e fits = written st w (suc i) h e fits
  after_write-Holds st w (error x) h e fits = (unwritable st w h e, tt)
  after_write-Holds st w pending h e fits = (unwritable st w h e, tt)

  pub write_out-Holds :
      (fuel : ℕ) (st : Copying A B)
      → Relayed st
      → Holds Relayed (write_out reader writer mode fuel st)
  unfolding write_out write_once
  write_out-Holds zero st h = h
  write_out-Holds (suc fuel) st h =
      let bytes = unwritten st.buf in
      Holds-if Relayed _ _ (ltb st.buf.pos st.buf.cap)
        (λ more.
          Holds-then_do Relayed (write_once reader writer mode st)
            (write_out reader writer mode fuel)
            (after_write-Holds st (writer.poll_write bytes st.w).0 (writer.poll_write bytes st.w).1
              h (wl.write-sent bytes st.w) (wl.accepted-write bytes st.w))
            (write_out-Holds fuel))
        (λ full. h)

  last_flush-Holds :
      (st : Copying A B) (p : Poll Nothing)
      → Relayed st
      → st.buf.pos ≡ st.buf.cap
      → st.buf.read_done ≡ true
      → Holds Relayed (after_last_flush reader writer mode st p)
  unfolding after_last_flush
  last_flush-Holds st (ready n) h all done = (h, (refl, all, done))
  last_flush-Holds st (error x) h all done = (h, tt)
  last_flush-Holds st pending h all done = (h, tt)

  pub finish-Holds : (st : Copying A B) → Relayed st → Holds Relayed (finish reader writer mode st)
  unfolding finish
  finish-Holds st h =
      Holds-if Relayed _ _ (st.buf.pos == st.buf.cap && st.buf.read_done)
        (λ all.
          last_flush-Holds (record st { w = (writer.poll_flush st.w).0 }) (writer.poll_flush st.w).1
            (flushed reader writer rl wl mode r0 s0 st h) (ground (arith, all))
            (ground (arith, all)))
        (λ more. h)
