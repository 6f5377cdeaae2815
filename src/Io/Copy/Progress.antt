-- ===== src/Io/Copy/Progress.antt =====
-- The rounds of the copy of one direction that go on, for bytehub_io/src/buf.rs.
use bytehub.Prelude.{
  ℕ, ◌+◌, ◌<◌, ◌≤◌, ◌≡◌, refl, Bool, true, false, not, ◌&&◌, ◌⊎◌, inl, inr, List, [], ◌∷◌, ltb,
  ◌==◌, if◌then◌else◌, length, arith, Bool-cases,
}
use bytehub.Io.Stream.{Poll, ready, error, pending, Nothing, Stream, got, Laws}
use bytehub.Io.Copy.{
  target_len, Copying, Flow, go_on, return, then_do, after_flush, flush_pending, after_read, fill,
}

-- What holds of the state with which the loop goes on.
abbrev pub GoesOn : {A B : Type 0} → (Copying A B → Type 0) → Flow (Copying A B) → Type 0
GoesOn P (go_on st) = P st
GoesOn P (return p st) = Unit

pub GoesOn-then_do :
    {A B : Type 0} (P Q : Copying A B → Type 0) (m : Flow (Copying A B))
    (f : Copying A B → Flow (Copying A B))
    → GoesOn P m
    → ((st : Copying A B) → P st → GoesOn Q (f st))
    → GoesOn Q (then_do m f)
GoesOn-then_do P Q (go_on st) f h k = k st h
GoesOn-then_do P Q (return p st) f h k = tt

pub GoesOn-weaker :
    {A B : Type 0} (P Q : Copying A B → Type 0) (m : Flow (Copying A B))
    → GoesOn P m
    → ((st : Copying A B) → P st → Q st)
    → GoesOn Q m
GoesOn-weaker P Q (go_on st) h k = k st h
GoesOn-weaker P Q (return p st) h k = tt

pub GoesOn-if :
    {A B : Type 0} (P : Copying A B → Type 0) (x y : Flow (Copying A B)) (b : Bool)
    → (b ≡ true → GoesOn P x)
    → (b ≡ false → GoesOn P y)
    → GoesOn P (if b then x else y)
GoesOn-if P x y true h k = h refl
GoesOn-if P x y false h k = k refl

module _ {A B : Type 0} (reader : Stream A) (writer : Stream B) (rl : Laws reader)
    (wl : Laws writer) (mode : ℕ) where
  -- The rounds that are left: one for each read that may give bytes, and one for a buffer in use.
  unfoldable pub rounds_left : Copying A B → ℕ
  rounds_left st = rl.budget st.r + (if ltb st.buf.pos st.buf.cap then 1 else 0)

  unfoldable pub IsFilled : Copying A B → Copying A B → Type 0
  IsFilled st st' =
      (st'.buf.pos ≤ st'.buf.cap)
      × ((st'.buf.read_done ≡ true) ⊎ (rl.budget st'.r < rounds_left st))

  flush_pending-GoesOn :
      (P : Copying A B → Type 0) (st : Copying A B) → GoesOn P (flush_pending reader writer mode st)
  unfolding flush_pending after_flush
  flush_pending-GoesOn P st =
      GoesOn-if P _ _ st.buf.need_flush (λ e. flushed _ (writer.poll_flush st.w).1) (λ e. tt)
    where
      flushed :
          (st : Copying A B) (p : Poll Nothing) → GoesOn P (after_flush reader writer mode st p)
      flushed st (ready n) = tt
      flushed st (error e) = tt
      flushed st pending = tt

  after_read-GoesOn :
      (st : Copying A B) (r : A) (p : Poll (List ℕ))
      → st.buf.pos ≡ st.buf.cap
      → (0 < length (got p) → rl.budget r < rl.budget st.r)
      → GoesOn (IsFilled st) (after_read reader writer mode (record st { r = r }) p)
  unfolding after_read IsFilled rounds_left
  after_read-GoesOn st r (ready []) empty less = (omega (arith, empty), inl refl)
  after_read-GoesOn st r (ready (b ∷ bs)) empty less =
      (omega arith, inr (let k = less (omega arith) in omega arith))
  after_read-GoesOn st r (error x) empty less = tt
  after_read-GoesOn st r pending empty less = flush_pending-GoesOn _ (record st { r = r })

  pub fill-GoesOn :
      (nanos : ℕ) (st : Copying A B)
      → st.buf.pos ≤ st.buf.cap
      → GoesOn (IsFilled st) (fill reader writer mode nanos st)
  unfolding fill IsFilled rounds_left
  fill-GoesOn nanos st h =
      let room = target_len mode (length st.buf.buf) nanos in
      GoesOn-if (IsFilled st) _ _ (st.buf.pos == st.buf.cap && not st.buf.read_done)
        (λ now.
          after_read-GoesOn st (reader.poll_read room st.r).0 (reader.poll_read room st.r).1
            (ground (arith, now)) (rl.read-budget room st.r))
        (λ full. (
          h,
          elim (Bool-cases st.buf.read_done) [
            | inl done ↦ inl done
            | inr more ↦ inr (ground (arith, full, more))
          ],
        ))
