-- ===== src/Core/Udp/SockMap.antt =====
-- bytehub_core/src/udp/sockmap.rs: the sockets by the addresses of the clients. The map of the standard
-- library is an association list; each access under its lock is one step.
use mathlib.Core.Option.{some-injective, none-ne-some}
use bytehub.Prelude.{
  ◌≡◌, ◌≢◌, ◌↔◌, refl, ap, sym, ◌∙◌, subst, Bool, true, false, Option, none, some, List, [], ◌∷◌,
  if◌then◌else◌, Bool-cases, inl, inr,
}

pub record SockMap (Addr Sock : Type 0) : Type 0 where
  pub entries : List (Addr × Sock)

module _ {Addr : Type 0} (eq : Addr → Addr → Bool)
    (eq_iff : (a b : Addr) → (eq a b ≡ true) ↔ (a ≡ b)) where
  pub eq_refl : (a : Addr) → eq a a ≡ true
  eq_refl a = (eq_iff a a).1 refl

  eq_ne : (a b : Addr) → a ≢ b → eq a b ≡ false
  eq_ne a b ne = elim (Bool-cases (eq a b)) [ inl e ↦ absurd (ne ((eq_iff a b).0 e)) | inr e ↦ e ]

module _ {Addr Sock : Type 0} (eq : Addr → Addr → Bool) where
  unfoldable pub lookup : Addr → List (Addr × Sock) → Option Sock
  lookup a [] = none
  lookup a ((b, s) ∷ rest) = let later = lookup a rest in if eq a b then some s else later

  unfoldable pub without : Addr → List (Addr × Sock) → List (Addr × Sock)
  without a [] = []
  without a ((b, s) ∷ rest) = let later = without a rest in if eq a b then later else (b, s) ∷ later

  unfoldable pub find : SockMap Addr Sock → Addr → Option Sock
  unfolding lookup
  find m a = lookup a m.entries

  unfoldable pub insert : SockMap Addr Sock → Addr → Sock → SockMap Addr Sock
  unfolding without
  insert m a s = record { entries = (a, s) ∷ without a m.entries }

  pub remove : SockMap Addr Sock → Addr → SockMap Addr Sock
  unfolding without
  remove m a = record { entries = without a m.entries }

  -- Where the address has been looked up; the function that makes a socket gives `made`.
  unfoldable pub found_or_made :
      SockMap Addr Sock → Addr → Option Sock → Option Sock → Option (Sock × SockMap Addr Sock)
  unfolding insert
  found_or_made m a (some s) made = some (s, m)
  found_or_made m a none none = none
  found_or_made m a none (some s) = some (s, insert m a s)

  unfoldable pub find_or_insert :
      SockMap Addr Sock → Addr → Option Sock → Option (Sock × SockMap Addr Sock)
  unfolding find found_or_made
  find_or_insert m a made = found_or_made m a (find m a) made

  module _ (eq_iff : (a b : Addr) → (eq a b ≡ true) ↔ (a ≡ b)) where
    lookup-without :
        (a b : Addr) (m : List (Addr × Sock)) → a ≢ b → lookup a (without b m) ≡ lookup a m
    unfolding lookup without
    lookup-without a b [] ne = refl
    lookup-without a b ((c, s) ∷ rest) ne = elim (Bool-cases (eq b c)) [
      | inl e ↦
          let other = eq_ne eq eq_iff a c (λ ac. ne (ac ∙ sym ((eq_iff b c).0 e))) in
          rw (e, other) (lookup-without a b rest ne)
      | inr e ↦ rw (e, lookup-without a b rest ne)
    ]

    lookup-without_self : (a : Addr) (m : List (Addr × Sock)) → lookup a (without a m) ≡ none
    unfolding lookup without
    lookup-without_self a [] = refl
    lookup-without_self a ((c, s) ∷ rest) = elim (Bool-cases (eq a c)) [
      | inl e ↦ rw e (lookup-without_self a rest)
      | inr e ↦ rw (e, e) (lookup-without_self a rest)
    ]

    pub find-insert :
        (m : SockMap Addr Sock) (a b : Addr) (s : Sock)
        → (find (insert m a s) a ≡ some s) × (b ≢ a → find (insert m a s) b ≡ find m b)
    unfolding find insert lookup
    find-insert m a b s = (
      rw (eq_refl eq eq_iff a) refl,
      λ ne. rw (eq_ne eq eq_iff b a ne) (lookup-without b a m.entries ne),
    )

    pub find-remove :
        (m : SockMap Addr Sock) (a b : Addr)
        → (find (remove m a) a ≡ none) × (b ≢ a → find (remove m a) b ≡ find m b)
    unfolding find remove
    find-remove m a b = (lookup-without_self a m.entries, lookup-without b a m.entries)

    unfoldable pub IsFound : SockMap Addr Sock → Addr → Sock × SockMap Addr Sock → Type 0
    IsFound m a r =
        (find r.1 a ≡ some r.0) × ((b : Addr) (t : Sock) → find m b ≡ some t → find r.1 b ≡ some t)

    clash :
        (m : SockMap Addr Sock) (a b : Addr) (t : Sock)
        → b ≡ a
        → find m a ≡ none
        → find m b ≡ some t
        → ⊥
    clash m a b t ba new old = none-ne-some t (sym new ∙ ap (λ (c : Addr). find m c) (sym ba) ∙ old)

    insert-IsFound :
        (m : SockMap Addr Sock) (a : Addr) (s : Sock)
        → find m a ≡ none
        → IsFound m a (s, insert m a s)
    unfolding IsFound
    insert-IsFound m a s new = (
      (find-insert m a a s).0,
      λ b t old. (find-insert m a b s).1 (λ ba. clash m a b t ba new old) ∙ old,
    )

    pub found_or_made-IsFound :
        (m : SockMap Addr Sock) (a : Addr) (o made : Option Sock) (r : Sock × SockMap Addr Sock)
        → find m a ≡ o
        → found_or_made m a o made ≡ some r
        → IsFound m a r
    unfolding found_or_made IsFound
    found_or_made-IsFound m a (some s) made r f e =
        subst (λ (t : Sock × SockMap Addr Sock). IsFound m a t) (some-injective (s, m) r e)
          (f, λ b t h. h)
    found_or_made-IsFound m a none none r f e = absurd cc
    found_or_made-IsFound m a none (some s) r f e =
        subst (λ (t : Sock × SockMap Addr Sock). IsFound m a t)
          (some-injective (s, insert m a s) r e) (insert-IsFound m a s f)

    pub find_or_insert-IsFound :
        (m : SockMap Addr Sock) (a : Addr) (made : Option Sock) (r : Sock × SockMap Addr Sock)
        → find_or_insert m a made ≡ some r
        → IsFound m a r
    unfolding find_or_insert
    find_or_insert-IsFound m a made r e = found_or_made-IsFound m a (find m a) made r refl e

    -- The socket that is given is the one that the table then has for the address. An entry that the
    -- table had before stays, also that of the address. This holds for a comparison that decides
    -- equality.
    pub find_or_insert-find :
        (m : SockMap Addr Sock) (a b : Addr) (made : Option Sock) (t : Sock)
        (r : Sock × SockMap Addr Sock)
        → find_or_insert m a made ≡ some r
        → find m b ≡ some t
        → (find r.1 a ≡ some r.0) × (find r.1 b ≡ some t)
    unfolding IsFound
    find_or_insert-find m a b made t r e old =
        let (found, kept) = find_or_insert-IsFound m a made r e in (found, kept b t old)
