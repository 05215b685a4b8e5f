-- ===== src/Base/Counters.antt =====
-- Words of 32 and 64 bits, and arrays of counters.
use Prim.Native.Nat.{ℕ, zero, suc, ◌+◌, ◌-◌, ◌%◌, ◌^◌, ◌<◌}
use mathlib.Core.Path.{◌≡◌, refl, ap}
use mathlib.Core.List.{List, [], ◌∷◌}
use native.Mathlib.Omega.{arith}
use overthinkin.Base.Lists.{length}

abbrev pub u32 : ℕ → ℕ
u32 n = n % 2 ^ 32

abbrev pub u64 : ℕ → ℕ
u64 n = n % 2 ^ 64

abbrev pub replicate : ℕ → ℕ → List ℕ
replicate zero x = []
replicate (suc n) x = x ∷ replicate n x

-- One place of an array counts one more.
abbrev pub bump : ℕ → List ℕ → List ℕ
bump i [] = []
bump zero (x ∷ xs) = u64 (x + 1) ∷ xs
bump (suc i) (x ∷ xs) = x ∷ bump i xs

abbrev pub total : List ℕ → ℕ
total [] = 0
total (x ∷ xs) = x + total xs

pub total-bump :
    (b : ℕ) (h : List ℕ) → b < length h → total h < 2 ^ 64 - 1 → total (bump b h) ≡ suc (total h)
total-bump b [] l t = absurd (omega arith)
total-bump zero (x ∷ xs) l t = omega arith
total-bump (suc b) (x ∷ xs) l t = omega (arith, total-bump b xs (omega arith) (omega arith))

pub length-bump : (b : ℕ) (h : List ℕ) → length (bump b h) ≡ length h
length-bump b [] = refl
length-bump zero (x ∷ xs) = refl
length-bump (suc b) (x ∷ xs) = ap suc (length-bump b xs)
