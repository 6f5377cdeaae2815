-- ===== src/Core/Udp/Group/Gather.antt =====
-- The inner loop of the grouping, of bytehub_core/src/udp/middle.rs.
use mathlib.Core.Option.{some-injective}
use mathlib.Core.Path.{ap₂}
use bytehub.Prelude.{
  ℕ, zero, suc, ◌+◌, ◌≤◌, ◌<◌, ◌≡◌, ◌≢◌, ◌⊎◌, inl, inr, refl, ap, sym, ◌∙◌, subst, Bool, true,
  false, Option, none, some, List, length, get_elem?, set, arith, Bool-cases, length-set,
  get_elem?-set_self, get_elem?-set_ne, get_elem?-lt, get_elem?-some, ℕ_discrete,
}
use bytehub.Core.Udp.Group.{put_both, swap, eq_both, eq_at, pick, gather}

module _ {T : Type 0} where
  -- Every item at a place from `lo` and before `hi`.
  unfoldable pub All : (T → Type 0) → ℕ → ℕ → List T → Type 0
  All P lo hi items = (i : ℕ) (a : T) → lo ≤ i → i < hi → get_elem? items i ≡ some a → P a

  length-put_both :
      (items : List T) (i j : ℕ) (a b : Option T) → length (put_both items i j a b) ≡ length items
  unfolding put_both
  length-put_both items i j none b = refl
  length-put_both items i j (some a) none = refl
  length-put_both items i j (some a) (some b) =
      length-set (set items i b) j a ∙ length-set items i b

  pub length-swap : (items : List T) (i j : ℕ) → length (swap items i j) ≡ length items
  unfolding swap
  length-swap items i j = length-put_both items i j (get_elem? items i) (get_elem? items j)

  set-cases :
      (items : List T) (i k : ℕ) (b c : T)
      → get_elem? (set items i b) k ≡ some c
      → ((k ≡ i) × (c ≡ b)) ⊎ ((k ≢ i) × (get_elem? items k ≡ some c))
  set-cases items i k b c h = elim (ℕ_discrete k i) [
    | yes e ↦
        let here : get_elem? (set items i b) i ≡ some c =
          subst (λ (t : ℕ). get_elem? (set items i b) t ≡ some c) e h in
        let inside = get_elem?-lt (set items i b) i here in
        inl (
          e,
          some-injective c b (
              sym here
              ∙ get_elem?-set_self items i b (omega (arith, length-set items i b, inside))),
        )
    | no ne ↦ inr (ne, sym (get_elem?-set_ne items b (λ e. ne (sym e))) ∙ h)
  ]

  -- The items of a list with two places swapped.
  unfoldable pub IsSwapped : List T → ℕ → ℕ → ℕ → T → Type 0
  IsSwapped items i j k c =
      ((k ≡ j) × (get_elem? items i ≡ some c))
      ⊎ (((k ≡ i) × (get_elem? items j ≡ some c))
          ⊎ ((k ≢ j) × (k ≢ i) × (get_elem? items k ≡ some c)))

  pub swap-IsSwapped :
      (items : List T) (i j k : ℕ) (c : T)
      → i < length items
      → j < length items
      → get_elem? (swap items i j) k ≡ some c
      → IsSwapped items i j k c
  unfolding swap put_both IsSwapped
  swap-IsSwapped items i j k c hi hj h =
      let (a, e) = get_elem?-some items i hi in
      let (b, f) = get_elem?-some items j hj in
      let both = ap₂ (λ (x y : Option T). get_elem? (put_both items i j x y) k) e f in
      elim (set-cases (set items i b) j k a c (sym both ∙ h)) [
        | inl (kj, ca) ↦ inl (kj, e ∙ ap some (sym ca))
        | inr (nj, g) ↦ elim (set-cases items i k b c g) [
          | inl (ki, cb) ↦ inr (inl (ki, f ∙ ap some (sym cb)))
          | inr (ni, g') ↦ inr (inr (nj, ni, g'))
        ]
      ]

  pub swap_elsewhere :
      (items : List T) (i j k : ℕ)
      → k ≢ i
      → k ≢ j
      → get_elem? (swap items i j) k ≡ get_elem? items k
  unfolding swap
  swap_elsewhere items i j k ni nj = put_elsewhere (get_elem? items i) (get_elem? items j)
    where
      put_elsewhere : (a b : Option T) → get_elem? (put_both items i j a b) k ≡ get_elem? items k
      put_elsewhere none b = refl
      put_elsewhere (some a) none = refl
      put_elsewhere (some a) (some b) =
          get_elem?-set_ne (set items i b) a (λ e. nj (sym e))
          ∙ get_elem?-set_ne items b (λ e. ni (sym e))

module _ {T : Type 0} (eq : T → T → Bool) where
  -- `eq_at` in range.
  pub eq_at-some :
      (items : List T) (i j : ℕ) (a b : T)
      → get_elem? items i ≡ some a
      → get_elem? items j ≡ some b
      → eq_at eq items i j ≡ eq a b
  unfolding eq_at eq_both
  eq_at-some items i j a b e f = ap₂ (λ (x y : Option T). eq_both eq x y) e f

  -- Before the place `probe`: `p` at `beg`, items like it from there to `end`, then others.
  pub record IsGathered (p : T) (beg end probe : ℕ) (items : List T) : Type 0 where
    pub pivot : get_elem? items beg ≡ some p
    pub beg-end : beg < end
    pub end-probe : end ≤ probe
    pub probe-len : probe ≤ length items
    pub alike : All (λ x. eq x p ≡ true) beg end items
    pub others : All (λ x. eq x p ≡ false) end probe items

  step_other :
      (p : T) (beg end probe : ℕ) (items : List T)
      → IsGathered p beg end probe items
      → probe < length items
      → eq_at eq items probe beg ≡ false
      → IsGathered p beg end (suc probe) items
  unfolding All
  step_other p beg end probe items h inside ne = record {
    pivot = h.pivot;
    beg-end = h.beg-end;
    end-probe = omega (arith, h.end-probe);
    probe-len = inside;
    alike = h.alike;
    others = λ i a lo hi e. elim (ℕ_discrete i probe) [
      | yes here ↦
          sym (
            eq_at-some items probe beg a p (subst (λ (t : ℕ). get_elem? items t ≡ some a) here e)
              h.pivot)
          ∙ ne
      | no away ↦ h.others i a lo (omega arith) e
    ];
  }

  step_alike :
      (p : T) (beg end probe : ℕ) (items : List T)
      → IsGathered p beg end probe items
      → probe < length items
      → end < probe
      → eq_at eq items probe beg ≡ true
      → IsGathered p beg (suc end) (suc probe) (swap items probe end)
  unfolding All IsSwapped
  step_alike p beg end probe items h inside after same =
      let swapped = λ (k : ℕ) (c : T). swap-IsSwapped items probe end k c inside (omega arith) in
      record {
        pivot =
            swap_elsewhere items probe end beg (λ e. omega (arith, e, h.beg-end, after))
              (λ e. omega (arith, e, h.beg-end))
            ∙ h.pivot;
        beg-end = omega (arith, h.beg-end);
        end-probe = omega arith;
        probe-len = omega (arith, length-swap items probe end);
        alike = λ i a lo hi e. elim (swapped i a e) [
          | inl (here, q) ↦ sym (eq_at-some items probe beg a p q h.pivot) ∙ same
          | inr (inl (there, q)) ↦ absurd (omega arith)
          | inr (inr (nj, ni, q)) ↦ h.alike i a lo (ground (arith, nj)) q
        ];
        others = λ i a lo hi e. elim (swapped i a e) [
          | inl (here, q) ↦ absurd (omega arith)
          | inr (inl (there, q)) ↦ h.others end a (omega arith) after q
          | inr (inr (nj, ni, q)) ↦ h.others i a (omega arith) (ground (arith, ni)) q
        ];
      }

  pick-IsGathered :
      (p : T) (beg end probe : ℕ) (items : List T)
      → IsGathered p beg end probe items
      → end < probe
      → probe < length items
      → let r = pick eq items beg end probe in
        IsGathered p beg r.1 (suc probe) r.0 × (r.1 < suc probe) × (length r.0 ≡ length items)
  unfolding pick
  pick-IsGathered p beg end probe items h after inside =
      elim (Bool-cases (eq_at eq items probe beg)) [
        | inl same ↦ rw same (
          step_alike p beg end probe items h inside after same,
          omega arith,
          length-swap items probe end,
        )
        | inr other ↦ rw other (step_other p beg end probe items h inside other, omega arith, refl)
      ]

  pub gather-IsGathered :
      (rounds : ℕ) (p : T) (beg end probe : ℕ) (items : List T)
      → IsGathered p beg end probe items
      → end < probe
      → probe + rounds ≡ length items
      → let r = gather eq rounds items beg end probe in
        IsGathered p beg r.1 (length r.0) r.0 × (length r.0 ≡ length items)
  unfolding gather
  gather-IsGathered zero p beg end probe items h after all =
      (subst (λ (t : ℕ). IsGathered p beg end t items) (omega (arith, all)) h, refl)
  gather-IsGathered (suc rounds) p beg end probe items h after all =
      let (h', after', size) = pick-IsGathered p beg end probe items h after (omega (arith, all)) in
      let r = pick eq items beg end probe in
      let (k, size') =
        gather-IsGathered rounds p beg r.1 (suc probe) r.0 h' after' (omega (arith, all, size)) in
      (k, size' ∙ size)
