-- ===== src/Lb/RoundRobin/Sums.antt =====
-- Sums of current weights over the nodes of bytehub_lb/src/round_robin.rs.
use bytehub.Prelude.{
  ℕ, zero, suc, ◌+◌, ◌*◌, ◌≡◌, refl, ap, some, List, [], ◌∷◌, map, arith, length, get_elem?, set,
}
use bytehub.Prelude.Int.{ℤ, pos, pos_part, neg_part, ◌+ℤ◌, ◌≤ℤ◌, int_laws}
use bytehub.Lb.RoundRobin.{Node}

abbrev pub sum : List ℕ → ℕ
sum [] = 0
sum (x ∷ xs) = x + sum xs

abbrev pub sum_cw : List Node → ℤ
sum_cw [] = pos 0
sum_cw (p ∷ ps) = p.cw +ℤ sum_cw ps

abbrev pub ews : List Node → List ℕ
ews = map λ p. p.ew

pub sum_cw-set :
    (ps : List Node) (i : ℕ) (x y : Node)
    → get_elem? ps i ≡ some x
    → sum_cw (set ps i y) +ℤ x.cw ≡ sum_cw ps +ℤ y.cw
sum_cw-set [] i x y h = cc
sum_cw-set (p ∷ ps) zero x y h = let e : p.cw ≡ x.cw = ground arith in rw e (omega int_laws)
sum_cw-set (p ∷ ps) (suc i) x y h =
    let rest = sum_cw-set ps i x y h in omega (int_laws, ap pos_part rest, ap neg_part rest)

-- From a common lower bound -t: the sum is at least -t for each node.
pub sum_cw_lower :
    (t : ℕ) (ps : List Node)
    → ((i : ℕ) (p : Node) → get_elem? ps i ≡ some p → pos 0 ≤ℤ p.cw +ℤ pos t)
    → pos 0 ≤ℤ sum_cw ps +ℤ pos (length ps * t)
sum_cw_lower t [] h = omega int_laws
sum_cw_lower t (p ∷ ps) h =
    omega (int_laws, h zero p refl, sum_cw_lower t ps (λ i q e. h (suc i) q e))

-- So no node is above the sum by more than -t for each other node.
pub sum_cw_upper :
    (t : ℕ) (ps : List Node)
    → ((i : ℕ) (p : Node) → get_elem? ps i ≡ some p → pos 0 ≤ℤ p.cw +ℤ pos t)
    → (i : ℕ) (p : Node) → get_elem? ps i ≡ some p
    → p.cw +ℤ pos t ≤ℤ sum_cw ps +ℤ pos (length ps * t)
sum_cw_upper t [] h i p e = cc
sum_cw_upper t (q ∷ ps) h zero p e =
    let same : p.cw ≡ q.cw = ground arith in
    rw same (omega (int_laws, sum_cw_lower t ps (λ i r at. h (suc i) r at)))
sum_cw_upper t (q ∷ ps) h (suc i) p e =
    omega (int_laws, h zero q refl, sum_cw_upper t ps (λ i r at. h (suc i) r at) i p e)

-- A positive sum has a positive term.
pub sum_cw_max :
    (m : ℤ) (ps : List Node)
    → ((i : ℕ) (p : Node) → get_elem? ps i ≡ some p → p.cw ≤ℤ m)
    → m ≤ℤ pos 0
    → sum_cw ps ≤ℤ pos 0
sum_cw_max m [] h neg = omega int_laws
sum_cw_max m (p ∷ ps) h neg =
    omega (int_laws, h zero p refl, sum_cw_max m ps (λ i r at. h (suc i) r at) neg)

-- A sum of zero over terms that are not negative: each term is zero.
pub sum_cw_nonneg :
    (ps : List Node)
    → ((i : ℕ) (p : Node) → get_elem? ps i ≡ some p → pos 0 ≤ℤ p.cw)
    → sum_cw ps ≤ℤ pos 0
    → (i : ℕ) (p : Node) → get_elem? ps i ≡ some p
    → p.cw ≡ pos 0
sum_cw_nonneg ps h z i p e =
    omega
      (int_laws, h i p e, sum_cw_upper 0 ps (λ j q at. let l = h j q at in omega int_laws) i p e)

-- What the loop does to the sum where nothing wraps.
abbrev pub heavier : Node → Node
heavier p = record p { cw = p.cw +ℤ pos p.ew }

pub sum_cw-heavier : (ps : List Node) → sum_cw (map heavier ps) ≡ sum_cw ps +ℤ pos (sum (ews ps))
sum_cw-heavier [] = omega int_laws
sum_cw-heavier (p ∷ ps) =
    let ih = sum_cw-heavier ps in omega (int_laws, ap pos_part ih, ap neg_part ih)

pub map-set_same {ℓ κ} :
    {A : Type ℓ} {B : Type κ} (f : A → B) (xs : List A) (i : ℕ) {x : A} (y : A)
    → get_elem? xs i ≡ some x
    → f y ≡ f x
    → map f (set xs i y) ≡ map f xs
map-set_same f [] i y e same = refl
map-set_same f (z ∷ xs) zero y e same = rw same (ground (arith, e))
map-set_same f (z ∷ xs) (suc i) y e same = ap (◌∷◌ (f z)) (map-set_same f xs i y e same)

pub get_elem?-map {ℓ κ} :
    {A : Type ℓ} {B : Type κ} (f : A → B) (xs : List A) (i : ℕ) {x : A}
    → get_elem? xs i ≡ some x
    → get_elem? (map f xs) i ≡ some (f x)
get_elem?-map f [] i e = cc
get_elem?-map f (z ∷ xs) zero e = ap some (ap f (let e' : z ≡ _ = cc in e'))
get_elem?-map f (z ∷ xs) (suc i) e = get_elem?-map f xs i e

-- An entry of a mapped list comes from an entry.
pub get_elem?-unmap {ℓ κ} :
    {A : Type ℓ} {B : Type κ} (f : A → B) (xs : List A) (i : ℕ) {y : B}
    → get_elem? (map f xs) i ≡ some y
    → (x : A) × (get_elem? xs i ≡ some x) × (f x ≡ y)
get_elem?-unmap f [] i e = cc
get_elem?-unmap f (z ∷ xs) zero e = (z, refl, let e' : f z ≡ _ = cc in e')
get_elem?-unmap f (z ∷ xs) (suc i) e = get_elem?-unmap f xs i e
