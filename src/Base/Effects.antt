-- ===== src/Base/Effects.antt =====
-- A program that calls the system. The system is not part of the program: `Os` answers each call
-- by any function of what has been called so far, so a theorem about every `Os` holds whatever
-- the kernel, the C library's files and processes, and the device do.
use mathlib.Core.List.{List, ◌∷◌}
use mathlib.Core.Bool.{Bool, true, false}
use mathlib.Core.Option.{Option, none, some}
use mathlib.Core.Path.{◌≡◌, refl}
use overthinkin.Base.Tests.{if◌then◌else◌}

module _ (C R : Type 0) where
  -- The calls made and their answers, the latest first.
  abbrev pub Trace : Type 0
  Trace = List (C × R)

  abbrev pub Os : Type 0
  Os = List (C × R) → C → R

  abbrev pub Action : Type 0 → Type 0
  Action A = (List (C × R) → C → R) → List (C × R) → A × List (C × R)

module _ {C R : Type 0} where
  abbrev pub pure : {A : Type 0} → A → Action C R A
  pure a os t = (a, t)

  infixl 5 ◌>>=◌ ◌>>◌
  abbrev pub ◌>>=◌ : {A B : Type 0} → Action C R A → (A → Action C R B) → Action C R B
  ◌>>=◌ m f os t = let (a, t') = m os t in f a os t'

  abbrev pub ◌>>◌ : {A B : Type 0} → Action C R A → Action C R B → Action C R B
  ◌>>◌ m k os t = let (a, t') = m os t in k os t'

  abbrev pub call : C → Action C R R
  call c os t = let r = os t c in (r, (c, r) ∷ t)

module _ {C R A : Type 0} (P : A × List (C × R) → Type 0) (os : List (C × R) → C → R)
    (t : List (C × R)) where
  -- What holds after both branches of a test holds after it.
  pub after_if :
      (b : Bool) (m n : Action C R A)
      → (b ≡ true → P (m os t))
      → (b ≡ false → P (n os t))
      → P ((if b then m else n) os t)
  after_if true m n p q = p refl
  after_if false m n p q = q refl

  -- The same, where a value may be missing.
  pub after_elim :
      {B : Type 0} (o : Option B) (m : Action C R A) (k : B → Action C R A)
      → (o ≡ none → P (m os t))
      → ((x : B) → o ≡ some x → P (k x os t))
      → P (elim o as (λ _. Action C R A) [ none ↦ m | some x ↦ k x ] os t)
  after_elim none m k p q = p refl
  after_elim (some x) m k p q = q x refl
