-- ===== src/Io/Statistic.antt =====
-- bytehub_io/src/statistic.rs: a stream that counts what is written to it. The counter is of any type
-- with an addition of a number.
use bytehub.Prelude.{ℕ, ◌≡◌, refl, ap, ◌∙◌, List}
use bytehub.Io.Stream.{Poll, ready, error, pending, Stream, Laws}

pub record StatStream (T U : Type 0) : Type 0 where
  pub io : T
  pub stat : U

module _ {T U : Type 0} (io : Stream T) (add : U → ℕ → U) where
  pub count_written : StatStream T U → Poll ℕ → StatStream T U
  count_written st (ready n) = record st { stat = add st.stat n }
  count_written st (error e) = st
  count_written st pending = st

  abbrev pub stat_stream : Stream (StatStream T U)
  stat_stream = record {
    poll_read = λ n st. (record st { io = (io.poll_read n st.io).0 }, (io.poll_read n st.io).1);
    poll_write = λ bs st. (
      count_written (record st { io = (io.poll_write bs st.io).0 }) (io.poll_write bs st.io).1,
      (io.poll_write bs st.io).1,
    );
    poll_flush = λ st. (record st { io = (io.poll_flush st.io).0 }, (io.poll_flush st.io).1);
    poll_shutdown =
        λ st. (record st { io = (io.poll_shutdown st.io).0 }, (io.poll_shutdown st.io).1);
  }

  same_io : (st : StatStream T U) (p : Poll ℕ) → (count_written st p).io ≡ st.io
  unfolding count_written
  same_io st (ready n) = refl
  same_io st (error e) = refl
  same_io st pending = refl

  -- The wrapper is a stream as good as the one in it, so that what is shown of the copy holds through it.
  pub stat_laws : Laws io → Laws stat_stream
  stat_laws laws =
      let written = λ (bs : List ℕ) (st : StatStream T U).
        same_io (record st { io = (io.poll_write bs st.io).0 }) (io.poll_write bs st.io).1 in
      record {
        received = λ st. laws.received st.io;
        sent = λ st. laws.sent st.io;
        at_eof = λ st. laws.at_eof st.io;
        budget = λ st. laws.budget st.io;
        read-received = λ n st. laws.read-received n st.io;
        length-read = λ n st. laws.length-read n st.io;
        read-at_eof = λ n st h e. laws.read-at_eof n st.io h e;
        read-budget = λ n st h. laws.read-budget n st.io h;
        write-sent =
            λ bs st. ap (λ (t : T). laws.sent t) (written bs st) ∙ laws.write-sent bs st.io;
        accepted-write = λ bs st. laws.accepted-write bs st.io;
        flush-sent = λ st. laws.flush-sent st.io;
        shutdown-sent = λ st. laws.shutdown-sent st.io;
        read-sent = λ n st. laws.read-sent n st.io;
        write-received = λ bs st. (
          ap (λ (t : T). laws.received t) (written bs st) ∙ (laws.write-received bs st.io).0,
          ap (λ (t : T). laws.at_eof t) (written bs st) ∙ (laws.write-received bs st.io).1,
        );
        flush-received = λ st. laws.flush-received st.io;
        shutdown-received = λ st. laws.shutdown-received st.io;
      }
