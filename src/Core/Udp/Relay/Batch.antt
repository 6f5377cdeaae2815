-- ===== src/Core/Udp/Relay/Batch.antt =====
-- A batch of packets is relayed whole, for bytehub_core/src/udp/middle.rs.
use mathlib.Core.Option.{some-injective, none-ne-some}
use mathlib.Core.Path.{ap₂}
use bytehub.Prelude.{
  ℕ, zero, suc, ◌+◌, ◌-◌, ◌≤◌, ◌<◌, ◌^◌, ◌≡◌, ◌↔◌, refl, ap, sym, ◌∙◌, subst, Bool, true, Option,
  some, List, [], ◌∷◌, ◌++◌, map, length, take, drop, get_elem?, arith, take-append-drop, drop_all,
  drop-append_le, take-append_le, drop-drop, length-drop,
}
use bytehub.Core.Udp.Group.{Range, group_by_inner}
use bytehub.Core.Udp.Group.Gather.{All}
use bytehub.Core.Udp.Group.Moves.{count}
use bytehub.Core.Udp.Group.Open.{IsGrouped}
use bytehub.Core.Udp.Group.Partition.{group_by_inner-IsGrouped}
use bytehub.Core.Udp.Batched.{
  Packet, PacketRef, Registry, same_addr, slice, group_iter, group_by_addr, iter,
}
use bytehub.Core.Udp.SockMap.{find, eq_refl}
use bytehub.Core.Udp.Relay.{State, relay_batch}
use bytehub.Core.Udp.Relay.Routing.{
  Same, IsAlike, AllAlike, flatten, routed, logged, Extends, relay_groups-IsRouted,
}

module _ {ℓ} {A : Type ℓ} where
  get_elem?-drop : (n i : ℕ) (xs : List A) → get_elem? (drop n xs) i ≡ get_elem? xs (n + i)
  get_elem?-drop zero i xs = ap (λ (k : ℕ). get_elem? xs k) (omega arith)
  get_elem?-drop (suc n) i [] = refl
  get_elem?-drop (suc n) i (x ∷ xs) =
      let k : suc n + i ≡ suc (n + i) = omega arith in rw k (get_elem?-drop n i xs)

  get_elem?-take :
      (n i : ℕ) (xs : List A) (c : A)
      → get_elem? (take n xs) i ≡ some c
      → (i < n) × (get_elem? xs i ≡ some c)
  get_elem?-take zero i xs c e = absurd (none-ne-some c e)
  get_elem?-take (suc n) i [] c e = absurd (none-ne-some c e)
  get_elem?-take (suc n) zero (x ∷ xs) c e = (omega arith, e)
  get_elem?-take (suc n) (suc i) (x ∷ xs) c e =
      let (less, f) = get_elem?-take n i xs c e in (omega arith, f)

  get_elem?-take_zero : (n : ℕ) (xs : List A) → 0 < n → get_elem? (take n xs) 0 ≡ get_elem? xs 0
  get_elem?-take_zero zero xs h = absurd (omega arith)
  get_elem?-take_zero (suc n) [] h = refl
  get_elem?-take_zero (suc n) (x ∷ xs) h = refl

module _ {Addr : Type 0} where
  all-Same :
      (a : Addr) (xs : List (Packet Addr))
      → ((i : ℕ) (c : Packet Addr) → get_elem? xs i ≡ some c → c.addr ≡ a)
      → Same a xs
  unfolding Same
  all-Same a [] h = tt
  all-Same a (x ∷ xs) h = (h 0 x refl, all-Same a xs (λ i c e. h (suc i) c e))

  all-IsAlike :
      (p : Packet Addr) (xs : List (Packet Addr))
      → get_elem? xs 0 ≡ some p
      → ((i : ℕ) (c : Packet Addr) → get_elem? xs i ≡ some c → c.addr ≡ p.addr)
      → IsAlike xs
  unfolding IsAlike
  all-IsAlike p [] e h = absurd (none-ne-some p e)
  all-IsAlike p (x ∷ xs) e h =
      all-Same x.addr (x ∷ xs)
        (λ i c f. h i c f ∙ sym (ap (λ (t : Packet Addr). t.addr) (some-injective x p e)))

module _ {Addr : Type 0} (eq : Addr → Addr → Bool)
    (eq_iff : (a b : Addr) → (eq a b ≡ true) ↔ (a ≡ b)) where
  slice-append :
      (items more : List (Packet Addr)) (r : Range)
      → r.start ≤ r.end
      → r.end ≤ length items
      → slice eq (items ++ more) r ≡ slice eq items r
  unfolding slice
  slice-append items more r le fits =
      ap (λ (t : List (Packet Addr)). take (r.end - r.start) t)
        (drop-append_le r.start items more (omega arith))
      ∙ take-append_le (r.end - r.start) (drop r.start items) more
          (omega (arith, length-drop r.start items))

  slice-IsAlike :
      (items : List (Packet Addr)) (r : Range) (p : Packet Addr)
      → r.start < r.end
      → get_elem? items r.start ≡ some p
      → All (λ x. same_addr eq x p ≡ true) r.start r.end items
      → IsAlike (slice eq items r)
  unfolding slice All
  slice-IsAlike items r p less e all =
      all-IsAlike p (slice eq items r)
        (get_elem?-take_zero (r.end - r.start) (drop r.start items) (omega arith)
          ∙ get_elem?-drop r.start 0 items
          ∙ ap (λ (k : ℕ). get_elem? items k) (omega arith)
          ∙ e)
        (λ i c f.
          let (inside, g) = get_elem?-take (r.end - r.start) i (drop r.start items) c f in
          (eq_iff c.addr p.addr).0 (
            all (r.start + i) c (omega arith) (omega (arith, inside))
              (sym (get_elem?-drop r.start i items) ∙ g)))

  slice_then_rest :
      (items : List (Packet Addr)) (g : Range) (lo : ℕ)
      → g.start ≡ lo
      → lo < g.end
      → slice eq items g ++ drop g.end items ≡ drop lo items
  unfolding slice
  slice_then_rest items g lo s less =
      ap (λ (t : List (Packet Addr)). take (g.end - g.start) (drop g.start items) ++ t)
        (ap (λ (k : ℕ). drop k items) (omega (arith, s))
          ∙ sym (drop-drop g.start (g.end - g.start) items))
      ∙ take-append-drop (g.end - g.start) (drop g.start items)
      ∙ ap (λ (k : ℕ). drop k items) s

  slices-IsAlike :
      (items more : List (Packet Addr)) (gs : List Range) (lo : ℕ)
      → IsGrouped (same_addr eq) items gs lo (length items)
      → AllAlike (map (slice eq (items ++ more)) gs)
        × (flatten (map (slice eq (items ++ more)) gs) ≡ drop lo items)
  unfolding IsGrouped AllAlike
  slices-IsAlike items more [] lo h = (tt, sym (drop_all lo items (omega (arith, h))))
  slices-IsAlike items more (g ∷ gs) lo (s, less, fits, (p, e, alike, others), rest) =
      let (later, flat) = slices-IsAlike items more gs g.end rest in
      let same = slice-append items more g (omega (arith, s, less)) fits in
      let mine =
        slice-IsAlike items g p (omega (arith, s, less)) (ap (λ (k : ℕ). get_elem? items k) s ∙ e)
          (subst (λ (k : ℕ). All (λ x. same_addr eq x p ≡ true) k g.end items) (sym s) alike) in
      (
        (subst (λ (t : List (Packet Addr)). IsAlike t) (sym same) mine, later),
        ap₂ (λ (x y : List (Packet Addr)). x ++ y) same flat ∙ slice_then_rest items g lo s less,
      )

length-count {ℓ} : {A : Type ℓ} (xs : List A) → count (λ x. true) xs ≡ length xs
length-count [] = refl
length-count (x ∷ xs) = omega (arith, length-count xs)

module _ {Addr Sock : Type 0} (eq : Addr → Addr → Bool)
    (eq_iff : (a b : Addr) → (eq a b ≡ true) ↔ (a ≡ b)) (associate : Addr → Option Sock)
    (send : Sock → PacketRef Addr → Bool) (raddr : Addr) where
  -- A batch that is not empty, is shorter than 2^16 and is relayed without an error is sent whole: each
  -- of its packets once, to the remote and on the socket that the table then has for its sender; the
  -- packets of one sender go one after the other, with no packet of another sender in between. A
  -- socket that the table had before stays. This is where no task of replies ends
  -- and removes a socket during the round.
  pub relay_batch-IsRouted :
      (reg : Registry Addr) (st st' : State Addr Sock)
      → 0 < length (iter eq reg)
      → length (iter eq reg) < 2 ^ 16
      → relay_batch eq associate send raddr st reg ≡ some st'
      → (sorted : List (Packet Addr)) × (groups : List Range) × IsGrouped
          (same_addr eq)
          sorted
          groups
          0
          (length sorted)
        × ((test : Packet Addr → Bool) → count test sorted ≡ count test (iter eq reg))
        × ((b : Addr) (t : Sock) → find eq st.sockmap b ≡ some t → find eq st'.sockmap b ≡ some t)
        × (map (logged eq eq_iff associate send raddr) st'.sent
            ≡ map (logged eq eq_iff associate send raddr) st.sent
              ++ map (routed eq eq_iff associate send raddr st'.sockmap) sorted)
  unfolding relay_batch iter group_by_addr group_iter Extends
  relay_batch-IsRouted reg st st' filled small e =
      let batch = take reg.cursor reg.pkts in
      let o = group_by_inner (same_addr eq) batch in
      let (counts, grouped) =
        group_by_inner-IsGrouped (same_addr eq) (λ p. eq_refl eq eq_iff p.addr) batch filled
          small in
      let size : length batch ≡ length o.0 =
        sym (length-count batch) ∙ sym (counts (λ x. true)) ∙ length-count o.0 in
      let whole = subst (λ (k : ℕ). IsGrouped (same_addr eq) o.0 o.1 0 k) size grouped in
      let (alike, flat) = slices-IsAlike eq eq_iff o.0 (drop reg.cursor reg.pkts) o.1 0 whole in
      let (kept, sent) =
        relay_groups-IsRouted eq eq_iff associate send raddr
          (map (slice eq (o.0 ++ drop reg.cursor reg.pkts)) o.1) st st' alike e in
      (
        o.0,
        o.1,
        whole,
        counts,
        kept,
        sent
            ∙ ap
                (λ (t : List (Packet Addr)).
                  map (logged eq eq_iff associate send raddr) st.sent
                  ++ map (routed eq eq_iff associate send raddr st'.sockmap) t)
                flat,
      )
