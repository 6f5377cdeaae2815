-- ===== src/Io/Copy/Content.antt =====
-- What the copy of one direction hands over, for bytehub_io/src/buf.rs and mem_copy.rs.
use mathlib.Core.Path.{ap₂}
use bytehub.Prelude.Bits.{bit_xor_twice}
use bytehub.Prelude.{
  ℕ, suc, ◌+◌, ◌-◌, ◌%◌, ◌^◌, ◌<◌, ◌≤◌, ◌≡◌, refl, ap, sym, ◌∙◌, Bool, true, false, List, [], ◌∷◌,
  ◌++◌, map, ◌==◌, if◌then◌else◌, length, drop, arith, Bool-cases, inl, inr, take-append, drop-drop,
  drop-take, length-map, length-drop, length-take,
}
use bytehub.Io.Stream.{Poll, ready, error, pending, Stream, Laws}
use bytehub.Io.Copy.{
  CopyBuffer, target_len, xor_byte, obfuscate, Copying, Flow, go_on, return, then_do, put_bytes,
  unwritten, advance,
}

pub length-obfuscate : (mode : ℕ) (bs : List ℕ) → length (obfuscate mode bs) ≡ length bs
unfolding obfuscate
length-obfuscate mode bs = elim (Bool-cases (mode == 0)) [
  | inl plain ↦ rw plain refl
  | inr hidden ↦ rw hidden (length-map bs xor_byte)
]

map-append : (f : ℕ → ℕ) (xs ys : List ℕ) → map f (xs ++ ys) ≡ map f xs ++ map f ys
map-append f [] ys = refl
map-append f (x ∷ xs) ys = ap (λ t. f x ∷ t) (map-append f xs ys)

pub obfuscate-append :
    (mode : ℕ) (xs ys : List ℕ) → obfuscate mode (xs ++ ys) ≡ obfuscate mode xs ++ obfuscate mode ys
unfolding obfuscate
obfuscate-append mode xs ys = elim (Bool-cases (mode == 0)) [
  | inl plain ↦ rw plain refl
  | inr hidden ↦ rw hidden (map-append xor_byte xs ys)
]

map_twice : (f : ℕ → ℕ) → ((b : ℕ) → f (f b) ≡ b) → (bs : List ℕ) → map f (map f bs) ≡ bs
map_twice f h [] = refl
map_twice f h (b ∷ bs) = ap₂ (λ (x : ℕ) (xs : List ℕ). x ∷ xs) (h b) (map_twice f h bs)

-- What one end of an obfuscated relay hides the other end shows.
pub obfuscate_twice :
    (mode mode' : ℕ) (bs : List ℕ)
    → (mode == 0) ≡ false
    → (mode' == 0) ≡ false
    → obfuscate mode' (obfuscate mode bs) ≡ bs
unfolding obfuscate xor_byte
obfuscate_twice mode mode' bs h k = rw (h, k) (map_twice xor_byte (λ b. bit_xor_twice b 90) bs)

-- A chunk has room for a byte at least, and not more than the buffer.
pub target_len-bounds :
    (mode max_cap nanos : ℕ)
    → 0 < max_cap
    → (0 < target_len mode max_cap nanos) × (target_len mode max_cap nanos ≤ max_cap)
unfolding target_len
target_len-bounds mode max_cap nanos h = (ground arith, ground arith)

module _ {A B : Type 0} {reader : Stream A} {writer : Stream B} (rl : Laws reader)
    (wl : Laws writer) where
  -- Since the reader had given `r0` and the writer had taken `s0`: what has been read, as it is sent, is
  -- what has been written and then what the buffer still holds.
  pub record IsRelayed (mode : ℕ) (r0 s0 : List ℕ) (st : Copying A B) : Type 0 where
    pub read_bytes : List ℕ
    pub written_bytes : List ℕ
    pub read_eq : rl.received st.r ≡ r0 ++ read_bytes
    pub written_eq : wl.sent st.w ≡ s0 ++ written_bytes
    pub content : written_bytes ++ unwritten st.buf ≡ obfuscate mode read_bytes
    pub amt_eq : st.buf.amt ≡ length written_bytes % 2 ^ 64
    pub pos-cap : st.buf.pos ≤ st.buf.cap
    pub cap-len : st.buf.cap ≤ length st.buf.buf
    pub has_room : 0 < length st.buf.buf
    pub done_at_eof : st.buf.read_done ≡ true → rl.at_eof st.r ≡ true

-- What holds of the state and the result when the function returns: a count is of a whole transfer.
abbrev pub IsOutcome : {A B : Type 0} → Poll ℕ → Copying A B → Type 0
IsOutcome (ready n) st = (n ≡ st.buf.amt) × (st.buf.pos ≡ st.buf.cap) × (st.buf.read_done ≡ true)
IsOutcome (error e) st = Unit
IsOutcome pending st = Unit

abbrev pub Holds : {A B : Type 0} → (Copying A B → Type 0) → Flow (Copying A B) → Type 0
Holds P (go_on st) = P st
Holds P (return p st) = P st × IsOutcome p st

pub Holds-then_do :
    {A B : Type 0} (P : Copying A B → Type 0) (m : Flow (Copying A B))
    (f : Copying A B → Flow (Copying A B))
    → Holds P m
    → ((st : Copying A B) → P st → Holds P (f st))
    → Holds P (then_do m f)
Holds-then_do P (go_on st) f h k = k st h
Holds-then_do P (return p st) f h k = h

pub Holds-if :
    {A B : Type 0} (P : Copying A B → Type 0) (x y : Flow (Copying A B)) (b : Bool)
    → (b ≡ true → Holds P x)
    → (b ≡ false → Holds P y)
    → Holds P (if b then x else y)
Holds-if P x y true h k = h refl
Holds-if P x y false h k = k refl

pub unwritten_empty : (c : CopyBuffer) → c.cap ≤ c.pos → unwritten c ≡ []
unfolding unwritten
unwritten_empty c h = let z : c.cap - c.pos ≡ 0 = omega arith in rw z

pub unwritten-put_bytes :
    (mode : ℕ) (b : ℕ) (bs : List ℕ) (c : CopyBuffer)
    → unwritten (record (put_bytes mode (b ∷ bs) c) { pos = 0; cap = suc (length bs) })
      ≡ obfuscate mode (b ∷ bs)
unfolding unwritten put_bytes
unwritten-put_bytes mode b bs c =
    take-append (suc (length bs) - 0) (obfuscate mode (b ∷ bs)) (drop (suc (length bs)) c.buf)
      (omega (arith, length-obfuscate mode (b ∷ bs)))

pub unwritten-advance : (i : ℕ) (c : CopyBuffer) → unwritten (advance i c) ≡ drop i (unwritten c)
unfolding unwritten advance
unwritten-advance i c =
    let k : c.cap - (c.pos + i) ≡ c.cap - c.pos - i = omega arith in
    sym (drop-take i (c.cap - c.pos) (drop c.pos c.buf) ∙ rw (k, drop-drop c.pos i c.buf))

pub length-unwritten :
    (c : CopyBuffer) → c.cap ≤ length c.buf → length (unwritten c) ≡ c.cap - c.pos
unfolding unwritten
length-unwritten c h =
    omega (arith, length-take (c.cap - c.pos) (drop c.pos c.buf), length-drop c.pos c.buf)
