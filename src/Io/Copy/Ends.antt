-- ===== src/Io/Copy/Ends.antt =====
-- A poll of the copy of one direction returns, for bytehub_io/src/buf.rs.
use bytehub.Prelude.{
  ℕ, zero, suc, ◌-◌, ◌<◌, ◌≤◌, ◌≡◌, refl, sym, ◌∙◌, subst, true, false, ◌&&◌, ◌⊎◌, inl, inr, Option,
  some, List, ltb, ◌==◌, length, drop, arith, length-take,
}
use bytehub.Io.Stream.{Poll, ready, error, pending, Nothing, Stream, accepted, Laws}
use bytehub.Io.Copy.{
  Copying, Flow, go_on, return, then_do, unwritten, fill, advance, after_write, write_once,
  write_out, after_last_flush, finish, write_all, round, poll_copy,
}
use bytehub.Io.Copy.Delivery.{IsReached, reached-IsRelayed}
use bytehub.Io.Copy.Progress.{
  GoesOn, GoesOn-then_do, GoesOn-weaker, GoesOn-if, rounds_left, IsFilled, fill-GoesOn,
}

module _ {A B : Type 0} (reader : Stream A) (writer : Stream B) (rl : Laws reader)
    (wl : Laws writer) (mode : ℕ) where
  IsWritten : Copying A B → Copying A B → Type 0
  IsWritten st st' =
      (st'.buf.pos ≡ st'.buf.cap) × (st'.r ≡ st.r) × (st'.buf.read_done ≡ st.buf.read_done)

  IsAdvanced : Copying A B → Copying A B → Type 0
  IsAdvanced st st' =
      (st.buf.pos < st'.buf.pos)
      × (st'.buf.pos ≤ st'.buf.cap)
      × (st'.buf.cap ≡ st.buf.cap)
      × (st'.r ≡ st.r)
      × (st'.buf.read_done ≡ st.buf.read_done)

  after_write-GoesOn :
      (st : Copying A B) (w : B) (p : Poll ℕ)
      → accepted p ≤ st.buf.cap - st.buf.pos
      → st.buf.pos < st.buf.cap
      → GoesOn (IsAdvanced st) (after_write reader writer mode (record st { w = w }) p)
  unfolding after_write IsAdvanced advance
  after_write-GoesOn st w (ready zero) fits more = tt
  after_write-GoesOn st w (ready (suc i)) fits more =
      (omega arith, omega (arith, fits), refl, refl, refl)
  after_write-GoesOn st w (error x) fits more = tt
  after_write-GoesOn st w pending fits more = tt

  write_once-GoesOn :
      (st : Copying A B)
      → st.buf.pos < st.buf.cap
      → GoesOn (IsAdvanced st) (write_once reader writer mode st)
  unfolding write_once unwritten
  write_once-GoesOn st more =
      let bytes = unwritten st.buf in
      after_write-GoesOn st (writer.poll_write bytes st.w).0 (writer.poll_write bytes st.w).1
        (omega (
          arith,
          wl.accepted-write bytes st.w,
          length-take (st.buf.cap - st.buf.pos) (drop st.buf.pos st.buf.buf),
        ))
        more

  write_out-GoesOn :
      (fuel : ℕ) (st0 st : Copying A B)
      → st.buf.pos ≤ st.buf.cap
      → st.buf.cap - st.buf.pos ≤ fuel
      → st.r ≡ st0.r
      → st.buf.read_done ≡ st0.buf.read_done
      → GoesOn (IsWritten st0) (write_out reader writer mode fuel st)
  unfolding write_out IsWritten IsAdvanced
  write_out-GoesOn zero st0 st h enough same flag = (omega (arith, h, enough), same, flag)
  write_out-GoesOn (suc fuel) st0 st h enough same flag =
      GoesOn-if (IsWritten st0) _ _ (ltb st.buf.pos st.buf.cap)
        (λ more.
          GoesOn-then_do (IsAdvanced st) (IsWritten st0) (write_once reader writer mode st)
            (write_out reader writer mode fuel) (write_once-GoesOn st (ground (arith, more)))
            (λ st' k.
              let (less, h', cap, same', flag') = k in
              write_out-GoesOn fuel st0 st' h' (omega (arith, less, h', cap, enough)) (same' ∙ same)
                (flag' ∙ flag)))
        (λ full. (ground (arith, full, h), same, flag))

  finish-GoesOn :
      (st : Copying A B)
      → st.buf.pos ≡ st.buf.cap
      → GoesOn (λ st'. (st' ≡ st) × (st.buf.read_done ≡ false)) (finish reader writer mode st)
  unfolding finish after_last_flush
  finish-GoesOn st all =
      GoesOn-if _ _ _ (st.buf.pos == st.buf.cap && st.buf.read_done)
        (λ e. flushed _ _ (writer.poll_flush st.w).1) (λ e. (refl, ground (arith, all, e)))
    where
      flushed :
          (P : Copying A B → Type 0) (st : Copying A B) (p : Poll Nothing)
          → GoesOn P (after_last_flush reader writer mode st p)
      flushed P st (ready n) = tt
      flushed P st (error e) = tt
      flushed P st pending = tt

  IsEmptied : Copying A B → Copying A B → Type 0
  IsEmptied st0 st =
      (st.buf.pos ≡ st.buf.cap)
      × ((st.buf.read_done ≡ true) ⊎ (rl.budget st.r < rounds_left reader writer rl wl mode st0))

  write_all-GoesOn :
      (st0 st : Copying A B)
      → IsFilled reader writer rl wl mode st0 st
      → GoesOn (IsEmptied st0) (write_all reader writer mode st)
  unfolding write_all IsFilled IsEmptied IsWritten
  write_all-GoesOn st0 st (h, left) =
      GoesOn-weaker (IsWritten st) (IsEmptied st0) _
        (write_out-GoesOn (st.buf.cap - st.buf.pos) st st h (omega arith) refl refl)
        (λ st' k.
          let (all, same, flag) = k in
          (
            all,
            elim left [
              | inl done ↦ inl (flag ∙ done)
              | inr less ↦ inr (
                  subst (λ (t : A). rl.budget t < rounds_left reader writer rl wl mode st0)
                    (sym same) less)
            ],
          ))

  IsCloser : Copying A B → Copying A B → Type 0
  IsCloser st0 st =
      (st.buf.pos ≤ st.buf.cap)
      × (rounds_left reader writer rl wl mode st < rounds_left reader writer rl wl mode st0)

  finish-IsCloser :
      (st0 st : Copying A B)
      → IsEmptied st0 st
      → GoesOn (IsCloser st0) (finish reader writer mode st)
  unfolding IsEmptied IsCloser rounds_left
  finish-IsCloser st0 st (all, left) =
      GoesOn-weaker _ (IsCloser st0) _ (finish-GoesOn st all) (λ st' k.
        let (same, more) = k in
        subst (λ (t : Copying A B). IsCloser st0 t) (sym same)
          (
            omega (arith, all),
            elim left [ inl done ↦ absurd cc | inr less ↦ ground (arith, all, less) ],
          ))

  -- A round that goes on leaves fewer rounds.
  round-GoesOn :
      (nanos : ℕ) (st : Copying A B)
      → st.buf.pos ≤ st.buf.cap
      → GoesOn (IsCloser st) (round reader writer mode nanos st)
  unfolding round
  round-GoesOn nanos st h =
      GoesOn-then_do (IsEmptied st) (IsCloser st)
        (then_do (fill reader writer mode nanos st) (write_all reader writer mode))
        (finish reader writer mode)
        (GoesOn-then_do (IsFilled reader writer rl wl mode st) (IsEmptied st)
          (fill reader writer mode nanos st) (write_all reader writer mode)
          (fill-GoesOn reader writer rl wl mode nanos st h) (write_all-GoesOn st))
        (finish-IsCloser st)

  abbrev Returned : Option (Poll ℕ) × Copying A B → Type 0
  Returned o = (p : Poll ℕ) × (o.0 ≡ some p)

  poll_copy-Returned :
      (nanos : ℕ → ℕ) (fuel : ℕ) (st : Copying A B)
      → st.buf.pos ≤ st.buf.cap
      → rounds_left reader writer rl wl mode st < fuel
      → Returned (poll_copy reader writer mode nanos fuel st)
  unfolding poll_copy IsCloser
  poll_copy-Returned nanos zero st h enough = absurd (omega arith)
  poll_copy-Returned nanos (suc fuel) st h enough =
      after_round (round reader writer mode (nanos fuel) st) (round-GoesOn (nanos fuel) st h)
        (λ st' k. poll_copy-Returned nanos fuel st' k.0 (let less = k.1 in omega arith))
    where
      after_round :
          (m : Flow (Copying A B))
          → GoesOn (IsCloser st) m
          → ((st' : Copying A B)
              → IsCloser st st'
              → Returned (poll_copy reader writer mode nanos fuel st'))
          → Returned (elim m [
            | go_on st' ↦ poll_copy reader writer mode nanos fuel st'
            | return p st' ↦ (some p, st')
          ])
      after_round (go_on st') k rest = rest st' k
      after_round (return p st') k rest = (p, refl)

  -- A poll of a copy between two streams returns, with success, an error or pending, where the rounds
  -- are more than the reads that can still give bytes, and one for a buffer in use.
  pub poll_copy-returns :
      (a : A) (b : B) (bytes : List ℕ)
      → 0 < length bytes
      → (st : Copying A B) → IsReached reader writer rl wl mode a b bytes st
      → (nanos : ℕ → ℕ) (fuel : ℕ) → rounds_left reader writer rl wl mode st < fuel
      → (p : Poll ℕ) × ((poll_copy reader writer mode nanos fuel st).0 ≡ some p)
  poll_copy-returns a b bytes room st h nanos fuel enough =
      poll_copy-Returned nanos fuel st
        (reached-IsRelayed reader writer rl wl mode a b bytes room st h).pos-cap enough
