-- ===== src/Core/Udp/Relay/Routing.antt =====
-- Through which socket each packet goes, for bytehub_core/src/udp/middle.rs.
use mathlib.Core.Option.{some-injective, none-ne-some}
use mathlib.Core.Path.{ap₂}
use bytehub.Prelude.{
  none, ◌≢◌, ◌≡◌, ◌↔◌, refl, ap, sym, ◌∙◌, subst, Bool, true, Option, some, List, [], ◌∷◌, ◌++◌,
  map, Bool-cases, Option-cases, inl, inr, ++_assoc, append-nil,
}
use bytehub.Core.Udp.Batched.{
  Registry, Packet, PacketRef, ref_with_addr, send_all, send_all-whole, iter,
}
use bytehub.Core.Udp.SockMap.{
  SockMap, find, find_or_insert, find_or_insert-IsFound, IsFound, find-remove,
}
use bytehub.Core.Udp.Relay.{send_back, Sent, State, sent_on, send_group, relay_group, relay_groups}

-- The packets of a group have one address.
unfoldable pub Same : {Addr : Type 0} → Addr → List (Packet Addr) → Type 0
Same a [] = Unit
Same a (p ∷ ps) = (p.addr ≡ a) × Same a ps

unfoldable pub IsAlike : {Addr : Type 0} → List (Packet Addr) → Type 0
unfolding Same
IsAlike [] = ⊥
IsAlike (p ∷ ps) = Same p.addr (p ∷ ps)

unfoldable pub AllAlike : {Addr : Type 0} → List (List (Packet Addr)) → Type 0
unfolding IsAlike
AllAlike [] = Unit
AllAlike (g ∷ gs) = IsAlike g × AllAlike gs

abbrev pub flatten {ℓ} : {A : Type ℓ} → List (List A) → List A
flatten [] = []
flatten (xs ∷ xss) = xs ++ flatten xss

map-++ {ℓ κ} :
    {A : Type ℓ} {B : Type κ} (f : A → B) (xs ys : List A) → map f (xs ++ ys) ≡ map f xs ++ map f ys
map-++ f [] ys = refl
map-++ f (x ∷ xs) ys = ap (λ t. f x ∷ t) (map-++ f xs ys)

module _ {Addr Sock : Type 0} (eq : Addr → Addr → Bool)
    (eq_iff : (a b : Addr) → (eq a b ≡ true) ↔ (a ≡ b)) (associate : Addr → Option Sock)
    (send : Sock → PacketRef Addr → Bool) (raddr : Addr) where
  -- A packet with the socket that a table has for its sender.
  unfoldable pub routed : SockMap Addr Sock → Packet Addr → Option Sock × PacketRef Addr
  routed m p = (find eq m p.addr, ref_with_addr eq p raddr)

  unfoldable pub logged : Sent Addr Sock → Option Sock × PacketRef Addr
  logged e = (some e.sock, e.pkt)

  logged-sent_on :
      (m : SockMap Addr Sock) (s : Sock) (a : Addr) (pkts : List (Packet Addr))
      → Same a pkts
      → find eq m a ≡ some s
      → map logged (sent_on eq associate send s (map (λ x. ref_with_addr eq x raddr) pkts))
        ≡ map (routed m) pkts
  unfolding sent_on logged routed Same
  logged-sent_on m s a [] same found = refl
  logged-sent_on m s a (p ∷ ps) (e, same) found =
      ap₂ (λ (x : Option Sock × PacketRef Addr) (xs : List (Option Sock × PacketRef Addr)). x ∷ xs)
        (ap (λ (t : Option Sock). (t, ref_with_addr eq p raddr))
          (sym (ap (λ (b : Addr). find eq m b) e ∙ found)))
        (logged-sent_on m s a ps same found)

  unfoldable pub Extends : SockMap Addr Sock → SockMap Addr Sock → Type 0
  Extends m m' = (b : Addr) (t : Sock) → find eq m b ≡ some t → find eq m' b ≡ some t

  -- What sending a group adds, by any later table.
  IsSent : State Addr Sock → List (Packet Addr) → State Addr Sock → Type 0
  IsSent st pkts st' =
      Extends st.sockmap st'.sockmap
      × ((m : SockMap Addr Sock)
          → Extends st'.sockmap m
          → map logged st'.sent ≡ map logged st.sent ++ map (routed m) pkts)

  send_group-IsSent :
      (st : State Addr Sock) (a : Addr) (pkts : List (Packet Addr)) (r : Sock × SockMap Addr Sock)
      (st' : State Addr Sock)
      → Same a pkts
      → find eq r.1 a ≡ some r.0
      → Extends st.sockmap r.1
      → send_group eq associate send raddr st pkts (some r) ≡ some st'
      → IsSent st pkts st'
  unfolding send_group IsSent Extends
  send_group-IsSent st a pkts r st' same found ext e =
      let refs = map (λ x. ref_with_addr eq x raddr) pkts in
      let sent = send_all eq (send r.0) refs in
      elim (Bool-cases sent.1) [
        | inl all ↦
            let done : State Addr Sock = record {
              sockmap = r.1;
              sent = st.sent ++ sent_on eq associate send r.0 sent.0;
            } in
            let is : done ≡ st' = some-injective done st' (rw all at e) in
            subst (λ (t : State Addr Sock). IsSent st pkts t) is
              (
                ext,
                λ m later.
                    map-++ logged st.sent (sent_on eq associate send r.0 sent.0)
                    ∙ ap
                        (λ (t : List (PacketRef Addr)).
                          map logged st.sent ++ map logged (sent_on eq associate send r.0 t))
                        (send_all-whole eq (send r.0) refs all)
                    ∙ ap (λ (t : List (Option Sock × PacketRef Addr)). map logged st.sent ++ t)
                        (logged-sent_on m r.0 a pkts same (later a r.0 found)),
              )
        | inr bad ↦ absurd (none-ne-some st' (rw bad at e))
      ]

  relay_group-IsSent :
      (st : State Addr Sock) (pkts : List (Packet Addr)) (st' : State Addr Sock)
      → IsAlike pkts
      → relay_group eq associate send raddr st pkts ≡ some st'
      → IsSent st pkts st'
  unfolding relay_group IsAlike Extends send_group IsFound
  relay_group-IsSent st [] st' alike e = absurd alike
  relay_group-IsSent st (p ∷ ps) st' alike e =
      let made = find_or_insert eq st.sockmap p.addr (associate p.addr) in
      elim (Option-cases made) [
        | inl lost ↦ absurd (
            none-ne-some st' (
              ap
                (λ (t : Option (Sock × SockMap Addr Sock)).
                  send_group eq associate send raddr st (p ∷ ps) t)
                (sym lost)
              ∙ e))
        | inr (r, got) ↦
            let (found, ext) =
              find_or_insert-IsFound eq eq_iff st.sockmap p.addr (associate p.addr) r got in
            send_group-IsSent st p.addr (p ∷ ps) r st' alike found ext (
              ap
                (λ (t : Option (Sock × SockMap Addr Sock)).
                  send_group eq associate send raddr st (p ∷ ps) t)
                (sym got)
              ∙ e)
      ]

  -- Where the groups were relayed without an error, what was sent is each of their packets, in order,
  -- on the socket that the table has for its sender; and the table kept what it had.
  pub relay_groups-IsRouted :
      (gs : List (List (Packet Addr))) (st st' : State Addr Sock)
      → AllAlike gs
      → relay_groups eq associate send raddr st gs ≡ some st'
      → Extends st.sockmap st'.sockmap
        × (map logged st'.sent ≡ map logged st.sent ++ map (routed st'.sockmap) (flatten gs))
  unfolding relay_groups AllAlike Extends IsSent
  relay_groups-IsRouted [] st st' alike e =
      let is = some-injective st st' e in
      (
        subst (λ (t : State Addr Sock). Extends st.sockmap t.sockmap) is (λ b t h. h),
        subst (λ (t : State Addr Sock). map logged t.sent ≡ map logged st.sent ++ []) is
            (sym (append-nil (map logged st.sent))),
      )
  relay_groups-IsRouted (g ∷ gs) st st' (alike, rest) e =
      elim (Option-cases (relay_group eq associate send raddr st g)) [
        | inl lost ↦ absurd (none-ne-some st' (rw (lost, relay_groups) at e))
        | inr (st1, got) ↦
            let (ext, sent) = relay_group-IsSent st g st1 alike got in
            let (ext', sent') =
              relay_groups-IsRouted gs st1 st' rest (rw (got, relay_groups) at e) in
            (
              λ b t h. ext' b t (ext b t h),
              sent'
                  ∙ ap (λ t. t ++ map (routed st'.sockmap) (flatten gs)) (sent st'.sockmap ext')
                  ∙ ++_assoc (map logged st.sent) (map (routed st'.sockmap) g)
                      (map (routed st'.sockmap) (flatten gs))
                  ∙ ap (λ t. map logged st.sent ++ t)
                      (sym (map-++ (routed st'.sockmap) g (flatten gs))),
            )
      ]

-- When the task of the replies ends, for whatever reason, the table has no socket for its client, and
-- what it has for another client is as before.
pub send_back-forgets :
    {Addr Sock : Type 0} (eq : Addr → Addr → Bool)
    (eq_iff : (a b : Addr) → (eq a b ≡ true) ↔ (a ≡ b)) (send : PacketRef Addr → Bool)
    (laddr b : Addr) (regs : List (Registry Addr)) (m : SockMap Addr Sock)
    → b ≢ laddr
    → let m' = (send_back eq send laddr regs m).1 in
      (find eq m' laddr ≡ none) × (find eq m' b ≡ find eq m b)
unfolding send_back
send_back-forgets eq eq_iff send laddr b [] m ne =
    ((find-remove eq eq_iff m laddr laddr).0, (find-remove eq eq_iff m laddr b).1 ne)
send_back-forgets eq eq_iff send laddr b (reg ∷ regs) m ne =
    let rest = send_back-forgets eq eq_iff send laddr b regs m ne in
    elim (Bool-cases (send_all eq send (map (λ x. ref_with_addr eq x laddr) (iter eq reg))).1) [
      | inl all ↦ rw all rest
      | inr lost ↦
          rw lost ((find-remove eq eq_iff m laddr laddr).0, (find-remove eq eq_iff m laddr b).1 ne)
    ]
