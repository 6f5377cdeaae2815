-- ===== src/Prelude/Text/Pieces.antt =====
-- The pieces of a text between separators, trimmed: white space around the whole text does not matter.
use bytehub.Prelude.{
  ℕ, ◌≡◌, refl, sym, ap, ◌∙◌, ◌⊎◌, inl, inr, true, false, ◌&&◌, Option, List, [], ◌∷◌, ◌++◌, map,
  ◌==◌, if◌then◌else◌, arith, Bool-cases, Option-cases,
}
use bytehub.Prelude.Text.{
  is_white, is_nil, trim_start, trim_end, trim, split, filter_map, All, trim-cons, is_digit,
  digit_ne,
}

module _ (sep : ℕ) where
  abbrev pub pieces : List ℕ → List (List ℕ)
  pieces s = (split sep s).0 ∷ (split sep s).1

  -- A byte that is no separator stands in the first piece.
  pub split-cons :
      (c : ℕ) (cs : List ℕ)
      → (c == sep) ≡ false
      → split sep (c ∷ cs) ≡ (c ∷ (split sep cs).0, (split sep cs).1)
  unfolding split
  split-cons c cs h = rw h refl

  pub split_sep : (c : ℕ) (cs : List ℕ) → (c == sep) ≡ true → split sep (c ∷ cs) ≡ ([], pieces cs)
  unfolding split
  split_sep c cs h = rw h refl

  -- Without separators in front of it, the first separator ends the first piece.
  pub split-append :
      (s rest : List ℕ)
      → All is_digit s
      → is_digit sep ≡ false
      → split sep (s ++ sep ∷ rest) ≡ (s, pieces rest)
  split-append [] rest h k = split_sep sep rest (ground arith)
  split-append (c ∷ cs) rest (h, hs) k =
      split-cons c (cs ++ sep ∷ rest) (digit_ne c sep h k) ∙ rw (split-append cs rest hs k) refl

  module _ (dark : is_white sep ≡ false) where
    white_ne : (c : ℕ) → is_white c ≡ true → (c == sep) ≡ false
    white_ne c h = elim (Bool-cases (c == sep)) [
      | inl e ↦ let same : c ≡ sep = ground arith in cc (h, dark, same)
      | inr e ↦ e
    ]

    -- Either the text with this byte in front is white space, or the byte stays.
    abbrev IsTrimmed : ℕ → List ℕ → Type 0
    IsTrimmed c cs =
        ((trim_end cs ≡ []) × (is_white c ≡ true) × (trim_end (c ∷ cs) ≡ []))
        ⊎ (trim_end (c ∷ cs) ≡ c ∷ trim_end cs)

    trim_end-IsTrimmed : (c : ℕ) (cs : List ℕ) → IsTrimmed c cs
    unfolding trim_end is_nil
    trim_end-IsTrimmed c cs =
        elim (trim_end cs)
          as (λ r.
            ((r ≡ []) × (is_white c ≡ true) × ((if is_nil r && is_white c then [] else c ∷ r) ≡ []))
            ⊎ ((if is_nil r && is_white c then [] else c ∷ r) ≡ c ∷ r)) [
              | [] ↦ elim (Bool-cases (is_white c)) [
                | inl e ↦ inl (refl, e, rw e refl)
                | inr e ↦ inr (rw e refl)
              ]
              | x ∷ xs ↦ inr refl
            ]

    all_white : (s : List ℕ) → trim_end s ≡ [] → split sep s ≡ (s, [])
    unfolding split
    all_white [] e = refl
    all_white (c ∷ cs) e = elim (trim_end-IsTrimmed c cs) [
      | inl (ended, white, _) ↦ split-cons c cs (white_ne c white) ∙ rw (all_white cs ended) refl
      | inr kept ↦ absurd cc
    ]

    abbrev clean : List ℕ × List (List ℕ) → List ℕ × List (List ℕ)
    clean p = (trim_end p.0, map trim_end p.1)

    -- The end of a piece that gets one more byte in front.
    trim_end-cons :
        (c : ℕ) (f g : List ℕ) → trim_end f ≡ trim_end g → trim_end (c ∷ f) ≡ trim_end (c ∷ g)
    unfolding trim_end
    trim_end-cons c f g e = rw e refl

    clean-cons :
        (c : ℕ) (f g : List ℕ) (fs gs : List (List ℕ))
        → clean (f, fs) ≡ clean (g, gs)
        → clean (c ∷ f, fs) ≡ clean (c ∷ g, gs)
    clean-cons c f g fs gs e =
        let first : trim_end f ≡ trim_end g = cc e in
        let others : map trim_end fs ≡ map trim_end gs = cc e in
        rw (trim_end-cons c f g first, others) refl

    trim_end-nil : trim_end [] ≡ []
    unfolding trim_end
    trim_end-nil = refl

    split-trim_end : (s : List ℕ) → clean (split sep (trim_end s)) ≡ clean (split sep s)
    unfolding split
    split-trim_end [] = ap (λ t. clean (split sep t)) trim_end-nil
    split-trim_end (c ∷ cs) = elim (trim_end-IsTrimmed c cs) [
      | inl (ended, white, all) ↦
          let whole : split sep (c ∷ cs) ≡ (c ∷ cs, []) =
            split-cons c cs (white_ne c white) ∙ rw (all_white cs ended) refl in
          ap (λ t. clean (split sep t)) all
          ∙ ap (λ f. (f, [])) (trim_end-nil ∙ sym all)
          ∙ ap clean (sym whole)
      | inr kept ↦ rw kept (elim (Bool-cases (c == sep)) [
        | inl e ↦
            rw (split_sep c (trim_end cs) e, split_sep c cs e)
              (ap (λ p. (trim_end [], p.0 ∷ p.1)) (split-trim_end cs))
        | inr e ↦
            rw (split-cons c (trim_end cs) e, split-cons c cs e)
              (clean-cons c _ _ _ _ (split-trim_end cs))
      ])
    ]

    abbrev trimmed : List ℕ × List (List ℕ) → List (List ℕ)
    trimmed p = trim p.0 ∷ map trim p.1

    map-trim : (fs : List (List ℕ)) → map trim fs ≡ map trim_start (map trim_end fs)
    unfolding trim
    map-trim [] = refl
    map-trim (f ∷ fs) = rw (map-trim fs) refl

    trimmed-clean :
        (p : List ℕ × List (List ℕ))
        → trimmed p ≡ trim_start (clean p).0 ∷ map trim_start (clean p).1
    unfolding trim
    trimmed-clean (f, fs) = rw (map-trim fs) refl

    split-trim_start : (s : List ℕ) → trimmed (split sep (trim_start s)) ≡ trimmed (split sep s)
    unfolding trim_start
    split-trim_start [] = refl
    split-trim_start (c ∷ cs) = elim (Bool-cases (is_white c)) [
      | inl e ↦
          rw (e, split-cons c cs (white_ne c e), trim-cons c (split sep cs).0 e)
            (split-trim_start cs)
      | inr e ↦ rw e refl
    ]

    -- White space around a text does not matter to its trimmed pieces.
    pub map-trim-pieces : (s : List ℕ) → map trim (pieces (trim s)) ≡ map trim (pieces s)
    map-trim-pieces s =
        whole
        ∙ split-trim_start (trim_end s)
        ∙ trimmed-clean (split sep (trim_end s))
        ∙ ap (λ p. trim_start p.0 ∷ map trim_start p.1) (split-trim_end s)
        ∙ sym (trimmed-clean (split sep s))
      where
        whole : map trim (pieces (trim s)) ≡ trimmed (split sep (trim_start (trim_end s)))
        whole = unfold trim in refl

pub filter_map-map :
    {A : Type 0} (f : List ℕ → Option A) (g : List ℕ → List ℕ) (xs : List (List ℕ))
    → filter_map (λ x. f (g x)) xs ≡ filter_map f (map g xs)
unfolding filter_map
filter_map-map f g [] = refl
filter_map-map f g (x ∷ xs) = elim (Option-cases (f (g x))) [
  | inl e ↦ rw e (filter_map-map f g xs)
  | inr (a, e) ↦ rw e (ap (λ t. a ∷ t) (filter_map-map f g xs))
]
