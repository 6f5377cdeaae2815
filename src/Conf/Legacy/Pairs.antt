-- ===== src/Conf/Legacy/Pairs.antt =====
-- The ports of a range and the pairs of addresses and ports, for src/conf/legacy/mod.rs.
use bytehub.Prelude.{
  ℕ, zero, suc, ◌+◌, ◌-◌, ◌%◌, ◌^◌, ◌≤◌, ◌<◌, ◌≡◌, refl, ap, sym, ◌∙◌, some, List, [], ◌∷◌, ◌++◌,
  length, take, replicate, arith, get_elem?, get_or, length-take, length-append, length-replicate,
}
use bytehub.Conf.Legacy.{count_up, port_range, pad, zip_with, addr_port, join_addr_port}

length-count_up : (s n : ℕ) → length (count_up s n) ≡ n
unfolding count_up
length-count_up s zero = refl
length-count_up s (suc n) = ap suc (length-count_up (suc s) n)

get_elem?-count_up : (s n i : ℕ) → i < n → get_elem? (count_up s n) i ≡ some (s + i)
unfolding count_up
get_elem?-count_up s zero i h = absurd (omega arith)
get_elem?-count_up s (suc n) zero h = ap some (omega arith)
get_elem?-count_up s (suc n) (suc i) h =
    get_elem?-count_up (suc s) n i (omega arith) ∙ ap some (omega arith)

-- A range of ports that ends below 65535 holds exactly the ports from its start to its end, both
-- included, in order.
pub port_range-get_elem? :
    (start end : ℕ)
    → end < 65535
    → (length (port_range start end) ≡ suc end - start)
      × ((i : ℕ) → start + i ≤ end → get_elem? (port_range start end) i ≡ some (start + i))
unfolding port_range
port_range-get_elem? start end below =
    let wrapped : (end + 1) % 2 ^ 16 - start ≡ suc end - start = omega arith in
    rw wrapped (
      length-count_up start (suc end - start),
      λ i h. get_elem?-count_up start (suc end - start) i (omega arith),
    )

-- A range that ends at the port 65535 is empty, whatever its start: the end plus one wraps.
pub port_range_top : (start : ℕ) → port_range start 65535 ≡ []
unfolding port_range count_up
port_range_top start = let z : (65535 + 1) % 2 ^ 16 - start ≡ 0 = omega arith in rw z refl

get_elem?-replicate {ℓ} :
    {A : Type ℓ} (n i : ℕ) (a : A) → i < n → get_elem? (replicate n a) i ≡ some a
get_elem?-replicate zero i a h = absurd (omega arith)
get_elem?-replicate (suc n) zero a h = refl
get_elem?-replicate (suc n) (suc i) a h = get_elem?-replicate n i a (omega arith)

get_elem?-take {ℓ} :
    {A : Type ℓ} (n i : ℕ) (xs : List A) → i < n → get_elem? (take n xs) i ≡ get_elem? xs i
get_elem?-take zero i xs h = absurd (omega arith)
get_elem?-take (suc n) i [] h = refl
get_elem?-take (suc n) zero (x ∷ xs) h = refl
get_elem?-take (suc n) (suc i) (x ∷ xs) h = get_elem?-take n i xs (omega arith)

get_elem?-filled {ℓ} :
    {A : Type ℓ} (first : A) (m j i : ℕ) (xs : List A)
    → i < m
    → i < j
    → get_elem? (take m xs ++ replicate j first) i ≡ some (get_or xs i first)
get_elem?-filled first zero j i xs h k = absurd (omega arith)
get_elem?-filled first (suc m) j i [] h k = get_elem?-replicate j i first k
get_elem?-filled first (suc m) j zero (x ∷ xs) h k = refl
get_elem?-filled first (suc m) j (suc i) (x ∷ xs) h k =
    get_elem?-filled first m j i xs (omega arith) (omega arith)

module _ {A : Type 0} (len : ℕ) (first : A) (xs : List A) where
  length-pad : length (pad len first xs) ≡ len
  unfolding pad
  length-pad = omega (
    arith,
    length-take len (take len xs ++ replicate len first),
    length-append (take len xs) (replicate len first),
    length-replicate len first,
  )

  get_elem?-pad : (i : ℕ) → i < len → get_elem? (pad len first xs) i ≡ some (get_or xs i first)
  unfolding pad
  get_elem?-pad i h =
      get_elem?-take len i (take len xs ++ replicate len first) h
      ∙ get_elem?-filled first len len i xs h h

module _ {A B C : Type 0} (f : A → B → C) where
  length-zip_with :
      (xs : List A) (ys : List B) → length xs ≡ length ys → length (zip_with f xs ys) ≡ length xs
  unfolding zip_with
  length-zip_with [] ys e = refl
  length-zip_with (x ∷ xs) [] e = absurd (omega arith)
  length-zip_with (x ∷ xs) (y ∷ ys) e = ap suc (length-zip_with xs ys (omega arith))

  get_elem?-zip_with :
      (xs : List A) (ys : List B) (i : ℕ) (x : A) (y : B)
      → get_elem? xs i ≡ some x
      → get_elem? ys i ≡ some y
      → get_elem? (zip_with f xs ys) i ≡ some (f x y)
  unfolding zip_with
  get_elem?-zip_with [] ys i x y e e' = cc
  get_elem?-zip_with (a ∷ xs) [] i x y e e' = cc
  get_elem?-zip_with (a ∷ xs) (b ∷ ys) zero x y e e' = ground (arith, e, e')
  get_elem?-zip_with (a ∷ xs) (b ∷ ys) (suc i) x y e e' = get_elem?-zip_with xs ys i x y e e'

-- Addresses and ports are paired to exactly as many as asked for, the one at each place with the
-- other at that place; where the addresses or the ports run out, the first one stands in.
pub join_addr_port-get_elem? :
    (addr0 : List ℕ) (addrs : List (List ℕ)) (port0 : ℕ) (ports : List ℕ) (len : ℕ)
    → (out : List (List ℕ)) × (join_addr_port (addr0 ∷ addrs) (port0 ∷ ports) len ≡ some out)
      × (length out ≡ len)
      × ((i : ℕ)
          → i < len
          → get_elem? out i
            ≡ some (addr_port (get_or (addr0 ∷ addrs) i addr0) (get_or (port0 ∷ ports) i port0)))
unfolding join_addr_port
join_addr_port-get_elem? addr0 addrs port0 ports len =
    let a = length-pad len addr0 (addr0 ∷ addrs) in
    let p = length-pad len port0 (port0 ∷ ports) in
    (
      zip_with addr_port (pad len addr0 (addr0 ∷ addrs)) (pad len port0 (port0 ∷ ports)),
      refl,
      length-zip_with addr_port _ _ (a ∙ sym p) ∙ a,
      λ i h.
          get_elem?-zip_with addr_port (pad len addr0 (addr0 ∷ addrs))
            (pad len port0 (port0 ∷ ports)) i _ _ (get_elem?-pad len addr0 (addr0 ∷ addrs) i h)
            (get_elem?-pad len port0 (port0 ∷ ports) i h),
    )
