-- ===== src/AlsaPcm/Doubles.antt =====
-- Floating point, which the language of the model lacks: the type of a C double and the operations
-- that check-my-alsa/alsa-pcm.c and spa-dll.h use. No law of it is assumed here.
use overthinkin.Base.{ℕ, Bool, ℤ}

pub record Doubles : Type 1 where
  pub Double : Type 0
  -- conversions, and the constants of the sources
  pub of_ℕ : ℕ → Double
  pub of_ℤ : ℤ → Double
  pub to_u64 : Double → ℕ
  pub two_pi : Double
  pub minus_20 : Double
  pub one_and_half : Double
  pub bw_min : Double
  pub bw_max : Double
  pub add : Double → Double → Double
  pub sub : Double → Double → Double
  pub mul : Double → Double → Double
  pub quot : Double → Double → Double
  pub neg : Double → Double
  pub fabs : Double → Double
  pub sqrt : Double → Double
  pub exp : Double → Double
  pub less : Double → Double → Bool
  pub is_zero : Double → Bool

-- struct spa_dll of spa-dll.h.
pub record Dll (D : Type 0) : Type 0 where
  pub bw : D
  pub z1 : D
  pub z2 : D
  pub z3 : D
  pub w0 : D
  pub w1 : D
  pub w2 : D

module _ (d : Doubles) where
  open d use {Double, of_ℕ, two_pi, minus_20, one_and_half, add, sub, mul, quot, exp}

  unfoldable pub spa_dll_init : Dll Double → Dll Double
  spa_dll_init dll = record dll { bw = of_ℕ 0; z1 = of_ℕ 0; z2 = of_ℕ 0; z3 = of_ℕ 0 }

  unfoldable pub spa_dll_set_bw : Dll Double → Double → ℕ → ℕ → Dll Double
  spa_dll_set_bw dll bw period rate =
      let w = quot (mul (mul two_pi bw) (of_ℕ period)) (of_ℕ rate) in
      record dll {
        w0 = sub (of_ℕ 1) (exp (mul minus_20 w));
        w1 = quot (mul w one_and_half) (of_ℕ period);
        w2 = quot w one_and_half;
        bw = bw;
      }

  -- The filter, and the correction that it returns.
  unfoldable pub spa_dll_update : Dll Double → Double → Double × Dll Double
  spa_dll_update dll err =
      let z1 = add dll.z1 (mul dll.w0 (sub (mul dll.w1 err) dll.z1)) in
      let z2 = add dll.z2 (mul dll.w0 (sub z1 dll.z2)) in
      let z3 = add dll.z3 (mul dll.w2 z2) in
      (sub (of_ℕ 1) (add z2 z3), record dll { z1 = z1; z2 = z2; z3 = z3 })
