-- ===== src/Core/Udp/Group/Moves.antt =====
-- What the inner loop of the grouping leaves in place, and that it only moves packets, for
-- bytehub_core/src/udp/middle.rs.
use bytehub.Prelude.{
  ℕ, zero, suc, ◌+◌, ◌≤◌, ◌<◌, ◌≡◌, ◌≢◌, inl, inr, refl, sym, ◌∙◌, Bool, Option, none, some, List,
  [], ◌∷◌, if◌then◌else◌, length, get_elem?, set, arith, Bool-cases, get_elem?-set_ne, dec_lt,
}
use bytehub.Core.Udp.Group.{put_both, swap, eq_at, pick, gather}
use bytehub.Core.Udp.Group.Gather.{All, IsSwapped, length-swap, swap-IsSwapped, swap_elsewhere}

-- How many items pass a test.
abbrev pub count {ℓ} : {T : Type ℓ} → (T → Bool) → List T → ℕ
count p [] = 0
count p (x ∷ xs) = (if p x then 1 else 0) + count p xs

module _ {T : Type 0} where
  count-set :
      (p : T → Bool) (items : List T) (i : ℕ) (a b : T)
      → get_elem? items i ≡ some a
      → count p (set items i b) + (if p a then 1 else 0) ≡ count p items + (if p b then 1 else 0)
  count-set p [] i a b e = absurd cc
  count-set p (x ∷ xs) zero a b e = let same : x ≡ a = cc in rw same (omega arith)
  count-set p (x ∷ xs) (suc i) a b e = omega (arith, count-set p xs i a b e)

  count-swap :
      (p : T → Bool) (items : List T) (i j : ℕ) → i ≢ j → count p (swap items i j) ≡ count p items
  unfolding swap
  count-swap p items i j ne = count-put_both (get_elem? items i) (get_elem? items j) refl refl
    where
      count-put_both :
          (a b : Option T)
          → get_elem? items i ≡ a
          → get_elem? items j ≡ b
          → count p (put_both items i j a b) ≡ count p items
      count-put_both none b e f = refl
      count-put_both (some a) none e f = refl
      count-put_both (some a) (some b) e f = omega (
        arith,
        count-set p items i a b e,
        count-set p (set items i b) j b a (get_elem?-set_ne items b ne ∙ f),
      )

module _ {T : Type 0} (eq : T → T → Bool) where
  -- A round of the inner loop, with `end` before `probe` inside the list: the items before `end` stay,
  -- those after it stay after it.
  pub record IsMoved (lo : ℕ) (items items' : List T) : Type 1 where
    pub same_length : length items' ≡ length items
    pub same_count : (p : T → Bool) → count p items' ≡ count p items
    pub kept : (i : ℕ) → i < lo → get_elem? items' i ≡ get_elem? items i
    pub suffix : (Q : T → Type 0) → All Q lo (length items) items → All Q lo (length items') items'

  pub unmoved : (lo : ℕ) (items : List T) → IsMoved lo items items
  unmoved lo items = record {
    same_length = refl;
    same_count = λ p. refl;
    kept = λ i h. refl;
    suffix = λ Q h. h;
  }

  pub IsMoved-trans :
      (lo lo' : ℕ) (xs ys zs : List T)
      → lo ≤ lo'
      → IsMoved lo xs ys
      → IsMoved lo' ys zs
      → IsMoved lo xs zs
  unfolding All
  IsMoved-trans lo lo' xs ys zs le h k = record {
    same_length = k.same_length ∙ h.same_length;
    same_count = λ p. k.same_count p ∙ h.same_count p;
    kept = λ i less. k.kept i (omega arith) ∙ h.kept i less;
    suffix = λ Q all i a from to e. elim (dec_lt i lo') [
      | yes before ↦
          h.suffix Q all i a from (omega (arith, to, k.same_length)) (sym (k.kept i before) ∙ e)
      | no after ↦
          k.suffix Q (λ i' a' from' to' e'. h.suffix Q all i' a' (omega arith) to' e') i a
            (omega (arith, after)) to e
    ];
  }

  swap-IsMoved :
      (end probe : ℕ) (items : List T)
      → end < probe
      → probe < length items
      → IsMoved end items (swap items probe end)
  unfolding All IsSwapped
  swap-IsMoved end probe items after inside = record {
    same_length = length-swap items probe end;
    same_count = λ p. count-swap p items probe end (λ e. omega (arith, e, after));
    kept = λ i less.
        swap_elsewhere items probe end i (λ e. omega (arith, e, after, less))
          (λ e. omega (arith, e, less));
    suffix = λ Q all i a from to e.
        elim (swap-IsSwapped items probe end i a inside (omega arith) e) [
          | inl (here, q) ↦ all probe a (omega arith) inside q
          | inr (inl (there, q)) ↦ all end a (omega arith) (omega arith) q
          | inr (inr (nj, ni, q)) ↦ all i a from (omega (arith, to, length-swap items probe end)) q
        ];
  }

  pick-IsMoved :
      (beg end probe : ℕ) (items : List T)
      → end < probe
      → probe < length items
      → let r = pick eq items beg end probe in
        IsMoved end items r.0 × (r.1 < suc probe) × (end ≤ r.1)
  unfolding pick
  pick-IsMoved beg end probe items after inside = elim (Bool-cases (eq_at eq items probe beg)) [
    | inl same ↦ rw same (swap-IsMoved end probe items after inside, omega arith, omega arith)
    | inr other ↦ rw other (unmoved end items, omega arith, omega arith)
  ]

  pub gather-IsMoved :
      (rounds beg end probe : ℕ) (items : List T)
      → end < probe
      → probe + rounds ≡ length items
      → let r = gather eq rounds items beg end probe in
        IsMoved end items r.0 × (end ≤ r.1) × (r.1 < length items)
  unfolding gather
  gather-IsMoved zero beg end probe items after all =
      (unmoved end items, omega arith, omega (arith, all, after))
  gather-IsMoved (suc rounds) beg end probe items after all =
      let (h, after', grown) = pick-IsMoved beg end probe items after (omega (arith, all)) in
      let r = pick eq items beg end probe in
      let (k, grown', inside) =
        gather-IsMoved rounds beg r.1 (suc probe) r.0 after' (omega (arith, all, h.same_length)) in
      (
        IsMoved-trans end r.1 items r.0 _ grown h k,
        omega (arith, grown, grown'),
        omega (arith, inside, h.same_length),
      )
