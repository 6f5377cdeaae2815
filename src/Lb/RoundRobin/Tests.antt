-- ===== src/Lb/RoundRobin/Tests.antt =====
-- Runs of bytehub_lb/src/round_robin.rs at small inputs.
use bytehub.Prelude.{
  ℕ, zero, suc, ◌+◌, ◌*◌, ◌≤◌, ◌<◌, ◌≡◌, ◌↔◌, refl, Option, none, some, List, [], ◌∷◌, arith, add32,
  get_elem?,
}
use bytehub.Prelude.Int.{pos, wrap16, ◌+ℤ◌, ◌-ℤ◌}
use bytehub.Lb.{HealthCheckConfig, Token}
use bytehub.Lb.RoundRobin.{Node, RoundRobin, new_nodes, new, scan, visit, next}
use bytehub.Lb.RoundRobin.Loop.{IsExcluded}
use bytehub.Lb.RoundRobin.Selection.{IsGreatest, next-IsGreatest, next_all_excluded}
use bytehub.Lb.RoundRobin.Failures.{AreAligned, on_failures, on_failures-IsExcluded}
use bytehub.Lb.RoundRobin.Steady.{nexts, count}
use bytehub.Lb.RoundRobin.Fairness.Share.{count-share}

picks : ℕ → RoundRobin → List (Option Token)
picks zero rr = []
picks (suc n) rr = let (t, rr') = next 0 rr in t ∷ picks n rr'

three : RoundRobin
unfolding new_nodes
three = record { nodes = new_nodes 0 (5 ∷ 1 ∷ 1 ∷ []); total = 3; config = none }

picks-three : picks 7 three ≡ some 0 ∷ some 0 ∷ some 1 ∷ some 0 ∷ some 2 ∷ some 0 ∷ some 0 ∷ []
unfolding picks three next scan visit wrap16 ◌+ℤ◌ ◌-ℤ◌
picks-three = refl

-- Seven calls at the time 0, for three peers of the weights 5, 1 and 1.
abbrev seven : List ℕ
seven = 0 ∷ 0 ∷ 0 ∷ 0 ∷ 0 ∷ 0 ∷ 0 ∷ []

abbrev weights : List ℕ
weights = 5 ∷ 1 ∷ 1 ∷ []

three_made : new weights none ≡ some three
unfolding new three
three_made = refl

count-share_example :
    (count 0 (nexts seven three).0 * 7 < 7 * 5 + 7)
    × (7 * 5 + 7 ≤ count 0 (nexts seven three).0 * 7 + 3 * 7)
count-share_example =
    count-share weights three seven 0 5 three_made (omega arith) (omega arith) (omega arith) refl

-- Two peers, of which the first is excluded until the time 100.
abbrev limits : HealthCheckConfig
limits = record { max_fails = 2; fail_timeout_secs = 120; max_latency_ms = none }

abbrev out : Node
out = record { cw = pos 0; ew = 1; weight = 3; token = 0; fails = 2; checked = 100 }

abbrev fine : Node
fine = record { cw = pos 0; ew = 2; weight = 2; token = 1; fails = 0; checked = 0 }

abbrev pair : RoundRobin
pair = record { nodes = out ∷ fine ∷ []; total = 2; config = some limits }

next-IsGreatest_example :
    (t : Token) × ((next 50 pair).0 ≡ some t) × IsGreatest 50 limits pair.nodes t
next-IsGreatest_example =
    next-IsGreatest 50 pair limits 1 fine refl (omega arith) refl (λ (few, late). omega arith)

-- Both are excluded; the window of the second ends first.
abbrev out_first : Node
out_first = record { cw = pos 0; ew = 1; weight = 2; token = 1; fails = 2; checked = 80 }

abbrev both_out : RoundRobin
both_out = record { nodes = out ∷ out_first ∷ []; total = 2; config = some limits }

both_out-IsExcluded :
    (k : ℕ) (p : Node) → get_elem? both_out.nodes k ≡ some p → IsExcluded 50 limits p
both_out-IsExcluded zero p e = ground (arith, e)
both_out-IsExcluded (suc zero) p e = ground (arith, e)
both_out-IsExcluded (suc (suc k)) p e = cc e

next_all_excluded_example :
    (k : ℕ) × (p : Node) × (get_elem? both_out.nodes k ≡ some p)
    × (next 50 both_out ≡ (some p.token, both_out))
    × ((i : ℕ) (q : Node) → get_elem? both_out.nodes i ≡ some q → p.checked ≤ q.checked)
next_all_excluded_example =
    next_all_excluded 50 both_out limits refl (omega arith) (omega arith) both_out-IsExcluded

fresh_pair : RoundRobin
fresh_pair = record {
  nodes = record { cw = pos 0; ew = 3; weight = 3; token = 0; fails = 0; checked = 0 } ∷ fine ∷ [];
  total = 2;
  config = some limits;
}

fresh_pair-AreAligned : AreAligned 0 fresh_pair.nodes
unfolding fresh_pair
fresh_pair-AreAligned zero p e = ground (arith, e)
fresh_pair-AreAligned (suc zero) p e = ground (arith, e)
fresh_pair-AreAligned (suc (suc k)) p e = cc e

-- Failures at 10, 20 and 30: the window is that of the second one.
on_failures-IsExcluded_example :
    (q : Node) × (get_elem? (on_failures (10 ∷ 20 ∷ 30 ∷ []) fresh_pair 1).nodes 1 ≡ some q)
    × (IsExcluded 100 limits q ↔ ((2 ≤ 3) × (100 < add32 20 120)))
unfolding fresh_pair
on_failures-IsExcluded_example =
    on_failures-IsExcluded (10 ∷ 20 ∷ 30 ∷ []) fresh_pair 1 100 0 limits fine refl (omega arith)
      fresh_pair-AreAligned refl refl (omega arith)
