-- ===== src/Core/Udp/Group/Partition.antt =====
-- The groups of a batch of packets, for bytehub_core/src/udp/middle.rs.
use bytehub.Prelude.{
  ℕ, zero, suc, ◌+◌, ◌-◌, ◌^◌, ◌≤◌, ◌<◌, ◌≡◌, inl, inr, sym, ◌∙◌, subst, Bool, true, false, some,
  List, ◌∷◌, ltb, length, get_elem?, arith, Bool-cases, get_elem?-some,
}
use mathlib.Core.Option.{some-injective}
use bytehub.Core.Udp.Group.{Range, range, eq_at, gather, groups_from, group_by_inner}
use bytehub.Core.Udp.Group.Gather.{All, IsGathered, gather-IsGathered}
use bytehub.Core.Udp.Group.Moves.{count, IsMoved, unmoved, IsMoved-trans, gather-IsMoved}
use bytehub.Core.Udp.Group.Open.{
  IsGrouped, IsOpen, group-IsGrouped, last-IsGrouped, extend-IsOpen, open-IsGathered,
}

module _ {T : Type 0} (eq : T → T → Bool) (reflexive : (x : T) → eq x x ≡ true) where
  single-IsOpen :
      (beg : ℕ) (items : List T) → beg < length items → (p : T) × IsOpen eq p beg (suc beg) items
  unfolding All
  single-IsOpen beg items inside =
      let (p, e) = get_elem?-some items beg inside in
      (
        p,
        record {
          pivot = e;
          beg-end = omega arith;
          end-len = inside;
          alike = λ i a lo hi f.
              let here : i ≡ beg = omega arith in
              let same : a ≡ p =
                some-injective a p
                  (sym (subst (λ (t : ℕ). get_elem? items t ≡ some a) here f) ∙ e) in
              subst (λ (t : T). eq t p ≡ true) (sym same) (reflexive p);
        },
      )

  -- A group that is complete stays one when later items are moved.
  moved-IsOpen :
      (p : T) (beg end lo : ℕ) (items items' : List T)
      → IsOpen eq p beg end items
      → end ≤ lo
      → IsMoved eq lo items items'
      → IsOpen eq p beg end items'
  unfolding All
  moved-IsOpen p beg end lo items items' h le m = record {
    pivot = m.kept beg (omega (arith, h.beg-end)) ∙ h.pivot;
    beg-end = h.beg-end;
    end-len = omega (arith, h.end-len, m.same_length);
    alike = λ i a from to e. h.alike i a from to (sym (m.kept i (omega arith)) ∙ e);
  }

  IsPartitioned : List T → ℕ → ℕ → List T × List Range → Type 1
  IsPartitioned items beg end r = IsMoved eq end items r.0 × IsGrouped eq r.0 r.1 beg (length items)

  -- The group that the inner loop completes, before the groups of what is left.
  gathered-IsPartitioned :
      (p : T) (beg end end' : ℕ) (items items' : List T) (r : List T × List Range)
      → IsGathered eq p beg end' (length items') items'
      → IsMoved eq end items items'
      → end ≤ end'
      → end' < length items
      → length items < 2 ^ 16
      → IsPartitioned items' end' (suc end') r
      → IsPartitioned items beg end (r.0, range beg end' ∷ r.1)
  unfolding IsPartitioned
  gathered-IsPartitioned p beg end end' items items' r h m le inside small (m', k) =
      let later =
        IsMoved-trans eq end' (suc end') items' items' r.0 (omega arith) (unmoved eq end' items')
          m' in
      let size : length items' ≡ length items = m.same_length in
      let open' : IsOpen eq p beg end' items' = record {
        pivot = h.pivot;
        beg-end = h.beg-end;
        end-len = omega (arith, inside, size);
        alike = h.alike;
      } in
      let others =
        subst (λ (t : ℕ). All (λ x. eq x p ≡ false) end' t r.0) (later.same_length ∙ size)
          (later.suffix (λ x. eq x p ≡ false) h.others) in
      (
        IsMoved-trans eq end end' items items' r.0 le m later,
        group-IsGrouped eq p beg end' (length items) r.0 r.1
            (moved-IsOpen p beg end' end' items' r.0 open' (omega arith) later) others (omega arith)
            (omega arith) (subst (λ (t : ℕ). IsGrouped eq r.0 r.1 end' t) size k),
      )

  groups_from-IsPartitioned :
      (rounds : ℕ) (p : T) (beg end : ℕ) (items : List T)
      → IsOpen eq p beg end items
      → length items < 2 ^ 16
      → length items ≤ rounds + end
      → IsPartitioned items beg end (groups_from eq rounds items beg end)
  unfolding groups_from IsPartitioned
  groups_from-IsPartitioned zero p beg end items h small enough =
      (unmoved eq end items, last-IsGrouped eq p beg end items h (omega arith) small)
  groups_from-IsPartitioned (suc rounds) p beg end items h small enough =
      elim (Bool-cases (ltb end (length items))) [
        | inr full ↦
            rw (full, groups_from)
              (
                unmoved eq end items,
                last-IsGrouped eq p beg end items h (ground (arith, full)) small,
              )
        | inl more ↦ elim (Bool-cases (eq_at eq items end beg)) [
          | inl same ↦
              let (m, k) =
                groups_from-IsPartitioned rounds p beg (suc end) items
                  (extend-IsOpen eq p beg end items h (ground (arith, more)) same) small
                  (omega arith) in
              rw (more, same, groups_from)
                (
                  IsMoved-trans eq end (suc end) items items _ (omega arith) (unmoved eq end items)
                      m,
                  k,
                )
          | inr other ↦
              let inside : end < length items = ground (arith, more) in
              let start = open-IsGathered eq p beg end items h inside other in
              let all : suc end + (length items - suc end) ≡ length items = omega arith in
              let o = gather eq (length items - suc end) items beg end (suc end) in
              let (g, size) =
                gather-IsGathered eq (length items - suc end) p beg end (suc end) items start
                  (omega arith) all in
              let (m, grown, left) =
                gather-IsMoved eq (length items - suc end) beg end (suc end) items (omega arith)
                  all in
              let (q, single) = single-IsOpen o.1 o.0 (omega (arith, left, size)) in
              rw (more, other, groups_from)
                (gathered-IsPartitioned p beg end o.1 items o.0
                  (groups_from eq rounds o.0 o.1 (suc o.1)) g m grown left small
                  (groups_from-IsPartitioned rounds q o.1 (suc o.1) o.0 single
                    (omega (arith, size, small)) (omega (arith, size, enough, grown))))
        ]
      ]

  -- The grouping of a batch that is not empty and shorter than 2^16 only moves the packets, and gives
  -- ranges that follow each other and cover the batch, none of them empty; the packets of a range have
  -- the address of its first packet, and no later packet has it. This holds for a comparison of
  -- addresses for which each is equal to itself.
  pub group_by_inner-IsGrouped :
      (items : List T)
      → 0 < length items
      → length items < 2 ^ 16
      → let r = group_by_inner eq items in
        ((test : T → Bool) → count test r.0 ≡ count test items)
        × IsGrouped eq r.0 r.1 0 (length items)
  unfolding group_by_inner IsPartitioned
  group_by_inner-IsGrouped items filled small =
      let (p, first) = single-IsOpen 0 items filled in
      let (m, k) = groups_from-IsPartitioned (length items) p 0 1 items first small (omega arith) in
      (m.same_count, k)
