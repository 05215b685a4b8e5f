-- ===== src/AlsaPcm/Programs.antt =====
-- Laws of the programs over the state of check-my-alsa/alsa-pcm.c.
use overthinkin.Base.{Bool, true, false, if◌then◌else◌, ◌∷◌, ℤ, is_neg, Os, ◌≡◌, refl}
use overthinkin.AlsaPcm.State.{
  State, Call, Answer, History, M, pure, modify, call, get, check, ◌>>=◌, ◌>>◌,
}

-- What holds after both branches holds after a test.
pub on_branch :
    {D A : Type 0} (P : A × State D × History → Type 0) (b : Bool) (m n : M D A)
    (os : Os Call Answer) (s : State D) (t : History)
    → P (m os s t)
    → P (n os s t)
    → P ((if b then m else n) os s t)
on_branch P true m n os s t p q = p
on_branch P false m n os s t p q = q

-- The same, where a branch needs the outcome of the test.
pub on_test :
    {D A : Type 0} (P : A × State D × History → Type 0) (b : Bool) (m n : M D A)
    (os : Os Call Answer) (s : State D) (t : History)
    → (b ≡ true → P (m os s t))
    → (b ≡ false → P (n os s t))
    → P ((if b then m else n) os s t)
on_test P true m n os s t p q = p refl
on_test P false m n os s t p q = q refl

-- From a state where `Q` holds, a program ends where `P` holds.
pub record Ends {D A : Type 0} (Q : State D → History → Type 0) (P : A × State D × History → Type 0)
    (m : M D A) : Type 0 where
  pub run : (os : Os Call Answer) (s : State D) (t : History) → Q s t → P (m os s t)

-- The call `c` takes nothing from `Q`.
abbrev pub Passes : {D : Type 0} → (State D → History → Type 0) → Call → Type 0
Passes {D} Q c = (a : Answer) (s : State D) (t : History) → Q s t → Q s ((c, a) ∷ t)

module _ {D A : Type 0} (Q : State D → History → Type 0) (P : A × State D × History → Type 0) where
  pub Ends-pure : (x : A) → ((s : State D) (t : History) → Q s t → P (x, s, t)) → Ends Q P (pure x)
  Ends-pure x p = record { run = λ os s t h. p s t h }

  pub Ends-test :
      (b : Bool) (m n : M D A)
      → (b ≡ true → Ends Q P m)
      → (b ≡ false → Ends Q P n)
      → Ends Q P (if b then m else n)
  Ends-test true m n p q = p refl
  Ends-test false m n p q = q refl

  pub Ends-modify :
      (Q' : State D → History → Type 0) (f : State D → State D) (k : M D A)
      → ((s : State D) (t : History) → Q s t → Q' (f s) t)
      → Ends Q' P k
      → Ends Q P (modify f >> k)
  Ends-modify Q' f k p q = record { run = λ os s t h. q.run os (f s) t (p s t h) }

  pub Ends-call :
      (c : Call) (k : Answer → M D A)
      → Passes Q c
      → ((a : Answer) → Ends Q P (k a))
      → Ends Q P (call c >>= k)
  Ends-call c k p q = record {
    run = λ os s t h. (q (os t c)).run os s ((c, os t c) ∷ t) (p (os t c) s t h);
  }

  pub Ends-get : (k : State D → M D A) → ((s : State D) → Ends Q P (k s)) → Ends Q P (get >>= k)
  Ends-get k q = record { run = λ os s t h. (q s).run os s t h }

module _ {D : Type 0} (Q : State D → History → Type 0) (P : ℤ × State D × History → Type 0) where
  pub Ends-check :
      (c : Call) (k : Answer → M D ℤ)
      → Passes Q c
      → ((a : Answer) (s : State D) (t : History) → Q s t → is_neg a.ret ≡ true → P (a.ret, s, t))
      → ((a : Answer) → Ends Q P (k a))
      → Ends Q P (check c k)
  Ends-check c k p f q =
      Ends-call Q P c (λ a. if is_neg a.ret then pure a.ret else k a) p
        (λ a.
          Ends-test Q P (is_neg a.ret) (pure a.ret) (k a)
            (λ e. Ends-pure Q P a.ret (λ s t h. f a s t h e)) (λ _. q a))
