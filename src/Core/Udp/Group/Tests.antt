-- ===== src/Core/Udp/Group/Tests.antt =====
-- A grouping of bytehub_core/src/udp/middle.rs, of the numbers of senders.
use bytehub.Prelude.{ℕ, ◌≡◌, refl, Bool, List, [], ◌∷◌, ◌==◌, arith}
use bytehub.Core.Udp.Group.{
  range, put_both, swap, eq_both, eq_at, pick, gather, groups_from, group_by_inner,
}
use bytehub.Core.Udp.Group.Moves.{count}
use bytehub.Core.Udp.Group.Open.{IsGrouped}
use bytehub.Core.Udp.Group.Partition.{group_by_inner-IsGrouped}

abbrev senders : List ℕ
senders = 1 ∷ 2 ∷ 1 ∷ 3 ∷ 2 ∷ 1 ∷ []

senders_grouped : (group_by_inner ◌==◌ senders).0 ≡ 1 ∷ 1 ∷ 1 ∷ 3 ∷ 2 ∷ 2 ∷ []
unfolding range put_both swap eq_both eq_at pick gather groups_from group_by_inner
senders_grouped = refl

group_by_inner-IsGrouped_example :
    ((test : ℕ → Bool) → count test (group_by_inner ◌==◌ senders).0 ≡ count test senders)
    × IsGrouped ◌==◌ (group_by_inner ◌==◌ senders).0 (group_by_inner ◌==◌ senders).1 0 6
group_by_inner-IsGrouped_example =
    group_by_inner-IsGrouped ◌==◌ (λ x. ground arith) senders (omega arith) (omega arith)
