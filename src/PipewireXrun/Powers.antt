-- ===== src/PipewireXrun/Powers.antt =====
-- pipewire-xrun/main.c: is_power_of_two, against powers of two.
use native.Mathlib.Numerals.{unary_clauses}
use overthinkin.Base.{
  ℕ, zero, suc, ◌-◌, ◌*◌, ◌/◌, ◌%◌, ◌^◌, ◌<◌, ◌==◌, Bool, true, false, not, ◌&&◌, inl, inr,
  Bool-cases, ==_iff, ==_ne, ◌⊎◌, ◌↔◌, ◌≡◌, ◌∙◌, refl, sym, ap, arith,
}
use overthinkin.PipewireXrun.Config.{bit_and, is_power_of_two}

pow-suc : (k : ℕ) → 2 ^ suc k ≡ 2 * 2 ^ k
pow-suc k = simp unary_clauses (omega arith)

parity : (x : ℕ) → (x % 2 ≡ 0) ⊎ (x % 2 ≡ 1)
parity x = elim (Bool-cases (x % 2 == 0)) [
  | inl e ↦ inl ((==_iff (x % 2) 0).0 e)
  | inr e ↦ let n = (==_ne (x % 2) 0).0 e in inr (omega arith)
]

bit_and_self : (n x : ℕ) → x < 2 ^ n → bit_and n x x ≡ x
unfolding bit_and
bit_and_self zero x h = omega arith
bit_and_self (suc n) x h =
    let r = bit_and_self n (x / 2) (omega (arith, pow-suc n)) in
    elim (parity x) [ inl e ↦ rw (e, r) (omega arith) | inr e ↦ rw (e, r) (omega arith) ]

-- The bits above the lowest, where there is no bit in common.
upper-zero : (n x y z : ℕ) → bit_and (suc n) x y ≡ 0 → y / 2 ≡ z → bit_and n (x / 2) z ≡ 0
unfolding bit_and
upper-zero n x y z e h = ap (bit_and n (x / 2)) (sym h) ∙ omega arith

bit_and-pred : (n x : ℕ) → x < 2 ^ n → 0 < x → bit_and n x (x - 1) ≡ 0 → (k : ℕ) × (x ≡ 2 ^ k)
bit_and-pred zero x h p e = absurd (omega arith)
bit_and-pred (suc n) x h p e = elim (parity x) [
  | inl even ↦
      let z = upper-zero n x (x - 1) (x / 2 - 1) e (omega arith) in
      let (k, r) = bit_and-pred n (x / 2) (omega (arith, pow-suc n)) (omega arith) z in
      (suc k, omega (arith, r, pow-suc k))
  | inr odd ↦
      let z = upper-zero n x (x - 1) (x / 2) e (omega arith) in
      let s = bit_and_self n (x / 2) (omega (arith, pow-suc n)) in (0, omega (arith, z, s))
]

bit_and-zero : (n y : ℕ) → bit_and n 0 y ≡ 0
unfolding bit_and
bit_and-zero zero y = refl
bit_and-zero (suc n) y = omega (arith, bit_and-zero n (y / 2))

pow-pos : (k : ℕ) → 0 < 2 ^ k
pow-pos zero = omega arith
pow-pos (suc k) = omega (arith, pow-suc k, pow-pos k)

bit_and-pow : (n k : ℕ) → bit_and n (2 ^ k) (2 ^ k - 1) ≡ 0
unfolding bit_and
bit_and-pow zero k = refl
bit_and-pow (suc n) zero = omega (arith, bit_and-zero n 0)
bit_and-pow (suc n) (suc k) =
    let e = pow-suc k in
    let p = pow-pos k in
    let half : 2 ^ suc k / 2 ≡ 2 ^ k = omega arith in
    let less : (2 ^ suc k - 1) / 2 ≡ 2 ^ k - 1 = omega arith in
    let even : 2 ^ suc k % 2 ≡ 0 = omega arith in
    rw (even, half, less, bit_and-pow n k) (omega arith)

both : (a b : Bool) → (not a && b) ≡ true → (a ≡ false) × (b ≡ true)
both true b h = cc
both false b h = (refl, h)

-- is_power_of_two says of a uint32_t whether it is a power of two.
is_power_of_two_iff : (x : ℕ) → x < 2 ^ 32 → (is_power_of_two x ≡ true) ↔ ((k : ℕ) × (x ≡ 2 ^ k))
unfolding is_power_of_two
is_power_of_two_iff x h = (
  λ t.
      let (nz, z) = both _ _ t in
      let p = (==_ne x 0).0 nz in
      bit_and-pred 32 x h (omega arith) ((==_iff (bit_and 32 x (x - 1)) 0).0 z),
  λ (k, e).
      let nz : (x == 0) ≡ false = (==_ne x 0).1 (λ z. omega (arith, pow-pos k, e, z)) in
      let z : bit_and 32 x (x - 1) ≡ 0 = rw e (bit_and-pow 32 k) in rw (nz, z) refl,
)
