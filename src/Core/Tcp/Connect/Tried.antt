-- ===== src/Core/Tcp/Connect/Tried.antt =====
-- The set of tried tokens of the retries of bytehub_core/src/tcp/middle.rs.
use bytehub.Prelude.{
  ℕ, zero, suc, ◌≤◌, ◌<◌, ◌≡◌, ◌≢◌, ◌⊎◌, inl, inr, true, false, refl, List, [], ◌∷◌, ◌==◌, length,
  arith, Bool-cases, if◌then◌else◌, ℕ_discrete,
}
use bytehub.Core.Tcp.Connect.{has, insert}

pub has-insert_self : (t : ℕ) (us : List ℕ) → has t (insert t us) ≡ true
unfolding insert has
has-insert_self t us = elim (Bool-cases (has t us)) [ inl e ↦ rw e e | inr e ↦ rw e (ground arith) ]

pub has-insert : (u t : ℕ) (us : List ℕ) → has u us ≡ true → has u (insert t us) ≡ true
unfolding insert has
has-insert u t us h = elim (Bool-cases (has t us)) [ inl e ↦ rw e h | inr e ↦ rw e (ground arith) ]

remove : ℕ → List ℕ → List ℕ
remove t [] = []
remove t (u ∷ us) = if t == u then us else u ∷ remove t us

length-remove : (t : ℕ) (us : List ℕ) → has t us ≡ true → length us ≡ suc (length (remove t us))
unfolding has remove
length-remove t [] h = absurd cc
length-remove t (u ∷ us) h = ground (arith, length-remove t us)

has-remove : (i t : ℕ) (us : List ℕ) → i ≢ t → has i us ≡ true → has i (remove t us) ≡ true
unfolding has remove
has-remove i t [] ne h = absurd cc
has-remove i t (u ∷ us) ne h = ground (arith, has-remove i t us)

-- A list that has each number below `n` has `n` entries at least.
pub covers-le : (n : ℕ) (us : List ℕ) → ((i : ℕ) → i < n → has i us ≡ true) → n ≤ length us
covers-le zero us h = omega arith
covers-le (suc n) us h = omega (
  arith,
  length-remove n us (h n (omega arith)),
  covers-le n (remove n us)
      (λ i lt. has-remove i n us (λ e. absurd (omega arith)) (h i (omega arith))),
)

-- A token that is in the set after an insertion was there before, or is the new one.
pub has-insert_cases :
    (u t : ℕ) (us : List ℕ) → has u (insert t us) ≡ true → (u ≡ t) ⊎ (has u us ≡ true)
unfolding insert has
has-insert_cases u t us h = elim (Bool-cases (has u us)) [
  | inl e ↦ inr e
  | inr e ↦ inl (ground (arith, e))
]

-- No token stands in the list twice.
abbrev pub IsDistinct : List ℕ → Type 0
IsDistinct [] = Unit {0}
IsDistinct (u ∷ us) = (has u us ≡ false) × IsDistinct us

pub insert-IsDistinct : (t : ℕ) (us : List ℕ) → IsDistinct us → IsDistinct (insert t us)
unfolding insert
insert-IsDistinct t us d = elim (Bool-cases (has t us)) [ inl e ↦ rw e d | inr e ↦ rw e (e, d) ]

has-remove_sub : (i t : ℕ) (us : List ℕ) → has i (remove t us) ≡ true → has i us ≡ true
unfolding has remove
has-remove_sub i t [] h = h
has-remove_sub i t (u ∷ us) h = ground (arith, has-remove_sub i t us)

still_new : (u t : ℕ) (us : List ℕ) → has u us ≡ false → has u (remove t us) ≡ false
still_new u t us new = elim (Bool-cases (has u (remove t us))) [
  | inl e ↦ absurd (let h = has-remove_sub u t us e in cc (h, new))
  | inr e ↦ e
]

remove-IsDistinct :
    (t : ℕ) (us : List ℕ) → IsDistinct us → IsDistinct (remove t us) × (has t (remove t us) ≡ false)
unfolding has remove
remove-IsDistinct t [] d = (tt, refl)
remove-IsDistinct t (u ∷ us) (new, d) = elim (Bool-cases (t == u)) [
  | inl e ↦ rw e (d, let same : t ≡ u = ground arith in rw same new)
  | inr e ↦
      let (d', gone) = remove-IsDistinct t us d in rw e ((still_new u t us new, d'), rw e gone)
]

below_pred : (i n : ℕ) (us : List ℕ) → i < suc n → has i us ≡ true → has n us ≡ false → i < n
below_pred i n us less h gone = elim (ℕ_discrete i n) [
  | yes e ↦ let h' : has n us ≡ true = rw (← e) h in absurd (cc (h', gone))
  | no ne ↦ ground arith
]

-- A list without repetition of numbers below `n` has `n` entries at most.
pub distinct-le :
    (n : ℕ) (us : List ℕ) → IsDistinct us → ((i : ℕ) → has i us ≡ true → i < n) → length us ≤ n
unfolding has
distinct-le zero [] d below = omega arith
distinct-le zero (u ∷ us) d below = absurd (let z = below u (ground arith) in omega (arith, z))
distinct-le (suc n) us d below = elim (Bool-cases (has n us)) [
  | inl e ↦
      let (d', gone) = remove-IsDistinct n us d in
      omega (
        arith,
        length-remove n us e,
        distinct-le n (remove n us) d' (λ i h.
            let less = below i (has-remove_sub i n us h) in
            below_pred i n (remove n us) less h gone),
      )
  | inr e ↦ omega (arith, distinct-le n us d (λ i h. below_pred i n us (below i h) h e))
]
