-- ===== src/Lb/Health/Exclusion.antt =====
-- Exclusion of a failing node and its recovery, for bytehub_lb/src/health.rs.
use bytehub.Prelude.{
  ℕ, suc, ◌+◌, ◌^◌, ◌≤◌, ◌<◌, ◌≡◌, ◌≢◌, ◌↔◌, refl, ap, subst, inl, inr, true, false, some, List, [],
  ◌∷◌, arith, leb, if◌then◌else◌, add32, length, get_elem?, ◌∙◌, get_elem?-set_ne,
  get_elem?-set-some, Option-cases, Bool-cases,
}
use native.Mathlib.Nat.{add-zero}
use bytehub.Lb.{HealthCheckConfig}
use bytehub.Lb.Health.{
  DownstreamNode, DownstreamHealth, healthy_node, is_healthy, report_success, report_failure,
  report_failures,
}

-- A node is excluded while it has reached the limit of failures and its window is open.
abbrev pub IsExcluded : ℕ → HealthCheckConfig → DownstreamNode → Type 0
IsExcluded now cfg node = (cfg.max_fails ≤ node.fails) × (now < node.checked)

-- For a node of the table, `is_healthy` answers false exactly while the node is excluded.
pub is_healthy-IsExcluded :
    (now : ℕ) (h : DownstreamHealth) (idx : ℕ) (node : DownstreamNode)
    → get_elem? h.nodes idx ≡ some node
    → ((is_healthy now h idx).0 ≡ false) ↔ IsExcluded now h.config node
unfolding is_healthy
is_healthy-IsExcluded now h idx node e = rw (e, is_healthy) (ground arith)

-- What one failure leaves in the slot of its node.
abbrev after_failure : ℕ → HealthCheckConfig → DownstreamNode → DownstreamNode
after_failure now cfg node =
    if leb cfg.max_fails (add32 node.fails 1)
    then record { fails = add32 node.fails 1; checked = add32 now cfg.fail_timeout_secs }
    else record node { fails = add32 node.fails 1 }

module _ (now : ℕ) (h : DownstreamHealth) (idx : ℕ) where
  get_elem?-report_failure :
      (node : DownstreamNode)
      → get_elem? h.nodes idx ≡ some node
      → get_elem? (report_failure now h idx).1.nodes idx ≡ some (after_failure now h.config node)
  unfolding report_failure
  get_elem?-report_failure node e = elim (Bool-cases (leb h.max_fails (add32 node.fails 1))) [
    | inl t ↦ rw (e, report_failure, t) (get_elem?-set-some h.nodes idx _ e)
    | inr f ↦ rw (e, report_failure, f) (get_elem?-set-some h.nodes idx _ e)
  ]

  config-report_failure : (report_failure now h idx).1.config ≡ h.config
  unfolding report_failure
  config-report_failure = ground arith

  report_failure_result :
      (node : DownstreamNode)
      → get_elem? h.nodes idx ≡ some node
      → (report_failure now h idx).0 ≡ leb h.max_fails (add32 node.fails 1)
  unfolding report_failure
  report_failure_result node e = rw (e, report_failure) (ground arith)

-- The last of a list of times, or the default.
abbrev pub last_or : ℕ → List ℕ → ℕ
last_or d [] = d
last_or d (t ∷ ts) = last_or t ts

config-report_failures :
    (ts : List ℕ) (h : DownstreamHealth) (idx : ℕ) → (report_failures ts h idx).config ≡ h.config
unfolding report_failures
config-report_failures [] h idx = refl
config-report_failures (t ∷ ts) h idx =
    config-report_failures ts (report_failure t h idx).1 idx ∙ config-report_failure t h idx

-- A node with `n` failures, the last of them at `t`.
abbrev failed_node : HealthCheckConfig → ℕ → ℕ → DownstreamNode
failed_node cfg n t = record {
  fails = n;
  checked = if leb cfg.max_fails n then add32 t cfg.fail_timeout_secs else 0;
}

after_failure-failed_node :
    (t d n : ℕ) (cfg : HealthCheckConfig)
    → suc n < 2 ^ 32
    → after_failure t cfg (failed_node cfg n d) ≡ failed_node cfg (suc n) t
after_failure-failed_node t d n cfg h = ground arith

report_failures_node :
    (ts : List ℕ) (h : DownstreamHealth) (idx d n : ℕ)
    → get_elem? h.nodes idx ≡ some (failed_node h.config n d)
    → n + length ts < 2 ^ 32
    → get_elem? (report_failures ts h idx).nodes idx
      ≡ some (failed_node h.config (n + length ts) (last_or d ts))
unfolding report_failures
report_failures_node [] h idx d n e small = rw add-zero e
report_failures_node (t ∷ ts) h idx d n e small =
    let step = get_elem?-report_failure t h idx _ e in
    let step' = step ∙ ap some (after_failure-failed_node t d n h.config (omega arith)) in
    let rest =
      report_failures_node ts (report_failure t h idx).1 idx t (suc n)
        (rw config-report_failure step') (omega arith) in
    rest
    ∙ rw config-report_failure (
        ap (λ k. some (failed_node h.config k (last_or t ts)))
          (let e : suc n + length ts ≡ n + suc (length ts) = omega arith in e))

-- With a positive limit, fewer than 2 ^ 32 failures in a row, from a node with none and no window,
-- exclude it exactly if they reach the limit, and then until the window that the last of them opened
-- runs out.
pub report_failures-exclude :
    (ts : List ℕ) (h : DownstreamHealth) (idx now d : ℕ)
    → get_elem? h.nodes idx ≡ some healthy_node
    → 0 < h.max_fails
    → length ts < 2 ^ 32
    → ((is_healthy now (report_failures ts h idx) idx).0 ≡ false)
      ↔ ((h.max_fails ≤ length ts) × (now < add32 (last_or d ts) h.fail_timeout_secs))
report_failures-exclude ts h idx now d e pos small =
    let node = failed_node h.config (0 + length ts) (last_or d ts) in
    let slot = report_failures_node ts h idx d 0 (e ∙ ap some (ground arith)) (omega arith) in
    let verdict = is_healthy-IsExcluded now (report_failures ts h idx) idx node slot in
    let verdict' =
      subst
        (λ (c : HealthCheckConfig).
          ((is_healthy now (report_failures ts h idx) idx).0 ≡ false) ↔ IsExcluded now c node)
        (config-report_failures ts h idx) verdict in
    (
      λ p. let x : IsExcluded now h.config node = verdict'.0 p in ground arith,
      λ p. verdict'.1 (ground arith),
    )

-- With a positive limit, a success clears a node of the table whatever its history, and it is
-- healthy at once.
pub report_success-clears :
    (now : ℕ) (h : DownstreamHealth) (idx : ℕ) (node : DownstreamNode)
    → get_elem? h.nodes idx ≡ some node
    → 0 < h.max_fails
    → (get_elem? (report_success h idx).nodes idx ≡ some healthy_node)
      × ((is_healthy now (report_success h idx) idx).0 ≡ true)
unfolding report_success is_healthy
report_success-clears now h idx node e pos =
    rw (e, report_success)
      (
        get_elem?-set-some h.nodes idx _ e,
        rw (get_elem?-set-some h.nodes idx healthy_node e, is_healthy) (ground arith),
      )

-- Every operation leaves the slots of the other nodes alone.
pub operations-isolated :
    (now : ℕ) (h : DownstreamHealth) (i j : ℕ)
    → i ≢ j
    → (get_elem? (is_healthy now h i).1.nodes j ≡ get_elem? h.nodes j)
      × (get_elem? (report_success h i).nodes j ≡ get_elem? h.nodes j)
      × (get_elem? (report_failure now h i).1.nodes j ≡ get_elem? h.nodes j)
unfolding report_success is_healthy report_failure
operations-isolated now h i j ne = elim (Option-cases (get_elem? h.nodes i)) [
  | inl e ↦ (rw (e, is_healthy), rw (e, report_success), rw (e, report_failure))
  | inr (node, e) ↦
      let keep = λ (v : DownstreamNode). get_elem?-set_ne h.nodes v ne in
      (
        rw (e, is_healthy) (ground (arith, keep healthy_node)),
        rw (e, report_success) (keep healthy_node),
        rw (e, report_failure)
            (ground (
              arith,
              keep (record node { fails = add32 node.fails 1 }),
              keep (record { fails = add32 node.fails 1; checked = add32 now h.fail_timeout_secs }),
            )),
      )
]

-- Below 2 ^ 32 failures, the result of `report_failure` is true for every failure past the limit, not
-- only for the one that reaches it: a node that is already excluded reports a transition again, and
-- its window is opened anew.
pub report_failure-repeats :
    (now : ℕ) (h : DownstreamHealth) (idx : ℕ) (node : DownstreamNode)
    → get_elem? h.nodes idx ≡ some node
    → h.max_fails ≤ node.fails
    → suc node.fails < 2 ^ 32
    → ((report_failure now h idx).0 ≡ true)
      × (get_elem? (report_failure now h idx).1.nodes idx
          ≡ some (record { fails = suc node.fails; checked = add32 now h.fail_timeout_secs }))
report_failure-repeats now h idx node e over small = (
  report_failure_result now h idx node e ∙ ground arith,
  get_elem?-report_failure now h idx node e ∙ ground arith,
)
