-- ===== src/Core/Udp/Group.antt =====
-- bytehub_core/src/udp/middle.rs: the grouping of a batch of packets by their senders, in place.
pub mod Gather
pub mod Moves
pub mod Open
pub mod Partition
mod Tests
use bytehub.Prelude.{
  ℕ, zero, suc, ◌+◌, ◌-◌, ◌%◌, ◌^◌, Bool, true, false, Option, none, some, List, [], ◌∷◌, ltb,
  if◌then◌else◌, length, get_elem?, set,
}

-- `beg as u16..end as u16`.
pub record Range : Type 0 where
  pub start : ℕ
  pub end : ℕ

unfoldable pub range : ℕ → ℕ → Range
range beg end = record { start = beg % 2 ^ 16; end = end % 2 ^ 16 }

module _ {T : Type 0} where
  unfoldable pub put_both : List T → ℕ → ℕ → Option T → Option T → List T
  put_both items i j none b = items
  put_both items i j (some a) none = items
  put_both items i j (some a) (some b) = set (set items i b) j a

  unfoldable pub swap : List T → ℕ → ℕ → List T
  unfolding put_both
  swap items i j = put_both items i j (get_elem? items i) (get_elem? items j)

module _ {T : Type 0} (eq : T → T → Bool) where
  -- The code's guards keep both places inside the slice.
  unfoldable pub eq_both : Option T → Option T → Bool
  eq_both none b = false
  eq_both (some a) none = false
  eq_both (some a) (some b) = eq a b

  unfoldable pub eq_at : List T → ℕ → ℕ → Bool
  unfolding eq_both
  eq_at items i j = eq_both (get_elem? items i) (get_elem? items j)

  unfoldable pub pick : List T → ℕ → ℕ → ℕ → List T × ℕ
  unfolding eq_at swap
  pick items beg end probe =
      if eq_at items probe beg then (swap items probe end, suc end) else (items, end)

  -- `while probe < maxn`, in which `probe` grows by one: the number of its rounds is known.
  unfoldable pub gather : ℕ → List T → ℕ → ℕ → ℕ → List T × ℕ
  unfolding pick
  gather zero items beg end probe = (items, end)
  gather (suc rounds) items beg end probe =
      let (items', end') = pick items beg end probe in gather rounds items' beg end' (suc probe)

  -- `while end < maxn`, in which `end` grows by one at least.
  unfoldable pub groups_from : ℕ → List T → ℕ → ℕ → List T × List Range
  unfolding gather range
  groups_from zero items beg end = (items, range beg end ∷ [])
  groups_from (suc rounds) items beg end = elim (ltb end (length items)) [
    | false ↦ (items, range beg end ∷ [])
    | true ↦ elim (eq_at items end beg) [
      | true ↦ groups_from rounds items beg (suc end)
      | false ↦
          let (items', end') = gather (length items - suc end) items beg end (suc end) in
          let (result, rest) = groups_from rounds items' end' (suc end') in
          (result, range beg end' ∷ rest)
    ]
  ]

  unfoldable pub group_by_inner : List T → List T × List Range
  unfolding groups_from
  group_by_inner items = groups_from (length items) items 0 1
