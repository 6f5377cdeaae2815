-- ===== src/Lb/RoundRobin/Failures.antt =====
-- Failures and successes of a peer, for bytehub_lb/src/round_robin.rs.
use bytehub.Prelude.{
  ℕ, zero, suc, ◌+◌, ◌-◌, ◌^◌, ◌≤◌, ◌<◌, ◌≡◌, ◌↔◌, ◌∙◌, refl, ap, some, List, [], ◌∷◌, leb, ◌==◌,
  if◌then◌else◌, arith, add32, length, get_elem?, get_or, inl, inr, true, Bool-cases,
}
use native.Mathlib.Nat.{add-zero}
use bytehub.Lb.{HealthCheckConfig, Token}
use bytehub.Lb.RoundRobin.{Node, RoundRobin, update_token, fail_node, on_failure}
use bytehub.Lb.RoundRobin.Loop.{IsExcluded}

-- The node at each place has the place for its token, counted from `n`.
abbrev pub AreAligned : ℕ → List Node → Type 0
AreAligned n nodes = (i : ℕ) (p : Node) → get_elem? nodes i ≡ some p → p.token ≡ n + i

AreAligned-tail :
    (n : ℕ) (q : Node) (ps : List Node) → AreAligned n (q ∷ ps) → AreAligned (suc n) ps
AreAligned-tail n q ps a i p at = omega (arith, a (suc i) p at)

-- An update by token is an update at that place.
get_elem?-update_token :
    (f : Node → Node) (t n i : ℕ) (ps : List Node) (p : Node)
    → AreAligned n ps
    → get_elem? ps i ≡ some p
    → get_elem? (update_token t f ps) i ≡ some (if t == n + i then f p else p)
unfolding update_token
get_elem?-update_token f t n i [] p a at = cc
get_elem?-update_token f t n zero (q ∷ ps) p a at = let e = a zero q refl in ground arith
get_elem?-update_token f t n (suc i) (q ∷ ps) p a at =
    let e = a zero q refl in
    let e' = a (suc i) p at in
    ground (arith, get_elem?-update_token f t (suc n) i ps p (AreAligned-tail n q ps a) at)

-- A node after `n` failures in a row, from none: the window is that of the failure that reached the
-- limit, at the time `opened`.
abbrev pub failed_node : HealthCheckConfig → Node → ℕ → ℕ → Node
failed_node cfg p n opened =
    if leb cfg.max_fails n
    then record p { fails = n; checked = add32 opened cfg.fail_timeout_secs; ew = 1 }
    else record p { fails = n }

-- Failures of one peer at the given times, the oldest first.
pub on_failures : List ℕ → RoundRobin → Token → RoundRobin
on_failures [] rr t = rr
on_failures (now ∷ ts) rr t = on_failures ts (on_failure now rr t) t

-- The time of the failure that brings the count from `n` to the limit, or `d` if it is past.
pub opening : ℕ → ℕ → ℕ → List ℕ → ℕ
opening limit n d [] = d
opening limit n d (t ∷ ts) = opening limit (suc n) (if suc n == limit then t else d) ts

fail_node-failed_node :
    (cfg : HealthCheckConfig) (now n d : ℕ) (p : Node)
    → suc n < 2 ^ 32
    → 0 < cfg.max_fails
    → fail_node cfg now (failed_node cfg p n d)
      ≡ failed_node cfg p (suc n) (if suc n == cfg.max_fails then now else d)
unfolding fail_node
fail_node-failed_node cfg now n d p small pos = ground arith

opening_past : (limit n d : ℕ) (ts : List ℕ) → limit ≤ n → opening limit n d ts ≡ d
unfolding opening
opening_past limit n d [] over = refl
opening_past limit n d (t ∷ ts) over = ground (arith, opening_past limit (suc n) d ts (omega arith))

-- From `n` failures below the limit it is the one that makes up the rest.
opening-get_or :
    (limit n d : ℕ) (ts : List ℕ) → n < limit → opening limit n d ts ≡ get_or ts (limit - suc n) d
unfolding opening
opening-get_or limit n d [] below = refl
opening-get_or limit n d (t ∷ ts) below = elim (Bool-cases (suc n == limit)) [
  | inl e ↦
      let at : limit ≡ suc n = ground arith in
      let z : limit - suc n ≡ 0 = omega arith in
      rw (e, z) (opening_past limit (suc n) t ts (omega arith))
  | inr e ↦
      let less : suc n < limit = ground arith in
      let s : limit - suc n ≡ suc (limit - suc (suc n)) = omega arith in
      rw (e, s) (opening-get_or limit (suc n) d ts less)
]

-- A change that keeps the token of every node leaves at each place the token that was there.
module _ (f : Node → Node) (keep : (p : Node) → (f p).token ≡ p.token) where
  update_token-token :
      (t : ℕ) (ps : List Node) (i : ℕ) (p : Node)
      → get_elem? (update_token t f ps) i ≡ some p
      → (q : Node) × (get_elem? ps i ≡ some q) × (p.token ≡ q.token)
  unfolding update_token
  update_token-token t [] i p at = cc
  update_token-token t (q ∷ ps) zero p at = elim (Bool-cases (q.token == t)) [
    | inl e ↦ (q, refl, ground (arith, keep q))
    | inr e ↦ (q, refl, ground arith)
  ]
  update_token-token t (q ∷ ps) (suc i) p at = elim (Bool-cases (q.token == t)) [
    | inl e ↦ (p, ground arith, refl)
    | inr e ↦ update_token-token t ps i p (ground arith)
  ]

  update_token-AreAligned :
      (t n : ℕ) (ps : List Node) → AreAligned n ps → AreAligned n (update_token t f ps)
  update_token-AreAligned t n ps a i p at =
      let (q, at', e) = update_token-token t ps i p at in e ∙ a i q at'

fail_node-token :
    (cfg : HealthCheckConfig) (now : ℕ) (p : Node) → (fail_node cfg now p).token ≡ p.token
unfolding fail_node
fail_node-token cfg now p = ground arith

module _ (now : ℕ) (rr : RoundRobin) (t : Token) (cfg : HealthCheckConfig)
    (c : rr.config ≡ some cfg) where
  on_failure-AreAligned : AreAligned 0 rr.nodes → AreAligned 0 (on_failure now rr t).nodes
  unfolding on_failure
  on_failure-AreAligned a =
      rw c (update_token-AreAligned (fail_node cfg now) (fail_node-token cfg now) t 0 rr.nodes a)

  on_failure-config : (on_failure now rr t).config ≡ some cfg
  unfolding on_failure
  on_failure-config = rw c refl

  get_elem?-on_failure :
      (i : ℕ) (p : Node)
      → AreAligned 0 rr.nodes
      → get_elem? rr.nodes i ≡ some p
      → get_elem? (on_failure now rr t).nodes i
        ≡ some (if t == 0 + i then fail_node cfg now p else p)
  unfolding on_failure
  get_elem?-on_failure i p a at =
      rw c (get_elem?-update_token (fail_node cfg now) t 0 i rr.nodes p a at)

get_elem?-on_failures :
    (ts : List ℕ) (rr : RoundRobin) (t n d : ℕ) (cfg : HealthCheckConfig) (p : Node)
    → rr.config ≡ some cfg
    → 0 < cfg.max_fails
    → AreAligned 0 rr.nodes
    → get_elem? rr.nodes t ≡ some (failed_node cfg p n d)
    → n + length ts < 2 ^ 32
    → get_elem? (on_failures ts rr t).nodes t
      ≡ some (failed_node cfg p (n + length ts) (opening cfg.max_fails n d ts))
unfolding on_failures opening
get_elem?-on_failures [] rr t n d cfg p c pos a at small = rw add-zero at
get_elem?-on_failures (now ∷ ts) rr t n d cfg p c pos a at small =
    let d' = if suc n == cfg.max_fails then now else d in
    let self : (t == 0 + t) ≡ true = ground arith in
    let failed = get_elem?-on_failure now rr t cfg c t (failed_node cfg p n d) a at in
    let at' : get_elem? (on_failure now rr t).nodes t ≡ some (failed_node cfg p (suc n) d') =
      failed ∙ rw self (ap some (fail_node-failed_node cfg now n d p (omega arith) pos)) in
    let rest =
      get_elem?-on_failures ts (on_failure now rr t) t (suc n) d' cfg p
        (on_failure-config now rr t cfg c) pos (on_failure-AreAligned now rr t cfg c a) at'
        (omega arith) in
    let k : n + suc (length ts) ≡ suc n + length ts = omega arith in rw k rest

-- With health checks on, a positive limit, and every token the place of its node: fewer than 2 ^ 32
-- failures of one peer in a row, from none, exclude it exactly if they reach the limit, and then
-- until the window runs out that the failure reaching the limit opened; later ones do not move it.
pub on_failures-IsExcluded :
    (ts : List ℕ) (rr : RoundRobin) (t now d : ℕ) (cfg : HealthCheckConfig) (p : Node)
    → rr.config ≡ some cfg
    → 0 < cfg.max_fails
    → AreAligned 0 rr.nodes
    → get_elem? rr.nodes t ≡ some p
    → p.fails ≡ 0
    → length ts < 2 ^ 32
    → (q : Node) × (get_elem? (on_failures ts rr t).nodes t ≡ some q)
      × (IsExcluded now cfg q ↔ (
          (cfg.max_fails ≤ length ts)
          × (now < add32 (get_or ts (cfg.max_fails - 1) d) cfg.fail_timeout_secs)))
on_failures-IsExcluded ts rr t now d cfg p c pos a at fresh small =
    let start : get_elem? rr.nodes t ≡ some (failed_node cfg p 0 d) = at ∙ ap some (ground arith) in
    (
      failed_node cfg p (length ts) (opening cfg.max_fails 0 d ts),
      get_elem?-on_failures ts rr t 0 d cfg p c pos a start (omega arith)
          ∙ ap (λ n. some (failed_node cfg p n (opening cfg.max_fails 0 d ts)))
              (let e : 0 + length ts ≡ length ts = omega arith in e),
      rw (opening-get_or cfg.max_fails 0 d ts pos) (ground arith),
    )
