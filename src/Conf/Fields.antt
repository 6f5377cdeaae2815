-- ===== src/Conf/Fields.antt =====
-- The macros `rst!`, `take!` and `empty!` of src/conf/mod.rs on one optional field, with the trait
-- `Config` as an interface: the operations that layer one configuration over another.
use bytehub.Prelude.{◌≡◌, refl, Bool, true, false, Option, none, some}

module _ {ℓ} {A : Type ℓ} where
  -- The field of `other` wins if it is set.
  abbrev pub rst : Option A → Option A → Option A
  rst this none = this
  rst this (some x) = some x

  -- The field of `other` is taken only where this one is not set.
  abbrev pub take : Option A → Option A → Option A
  take none none = none
  take none (some x) = some x
  take (some y) other = some y

  abbrev pub is_none : Option A → Bool
  is_none none = true
  is_none (some x) = false

  pub take-take : (a b c : Option A) → take (take a b) c ≡ take a (take b c)
  take-take none none none = refl
  take-take none none (some z) = refl
  take-take none (some y) c = refl
  take-take (some x) b c = refl

  -- An override commutes with a default.
  pub rst-take : (a g c : Option A) → rst (take a g) c ≡ take (rst a c) g
  rst-take none none none = refl
  rst-take none (some y) none = refl
  rst-take (some x) g none = refl
  rst-take a g (some z) = refl
