-- ===== src/Applets/Chosen.antt =====
-- check-my-alsa/app-jack.c: which controls are bound.
use overthinkin.Base.{
  ℕ, zero, suc, ◌+◌, ltb, leb, Bool, true, false, ◌&&◌, List, ◌∷◌, [], none, some, take, map,
  length, if◌then◌else◌, inl, inr, Bool-cases, ◌≡◌, refl, sym, ap, subst, ◌∙◌, arith,
}
use overthinkin.Applets.Jack.{Control, has_jack, Slot, slot_of, fetch_jack_ctls}

-- A boolean control with the name of a jack.
abbrev pub is_jack : Control → Bool
is_jack c = has_jack c.name && elim c.is_boolean [ none ↦ false | some b ↦ b ]

abbrev pub jacks : List Control → List Control
jacks [] = []
jacks (c ∷ cs) = let rest = jacks cs in if is_jack c then c ∷ rest else rest

-- A control that is none of a jack is passed over.
fetch-skip :
    (max n : ℕ) (c : Control) (cs : List Control)
    → is_jack c ≡ false
    → fetch_jack_ctls max n (c ∷ cs) ≡ fetch_jack_ctls max n cs
unfolding fetch_jack_ctls
fetch-skip max n c cs h = ground arith

fetch-bind :
    (max n : ℕ) (c : Control) (cs : List Control)
    → is_jack c ≡ true
    → fetch_jack_ctls max n (c ∷ cs) ≡ (
        if leb max n
        then ((fetch_jack_ctls max n cs).0, true)
        else (slot_of c ∷ (fetch_jack_ctls max (suc n) cs).0, (fetch_jack_ctls max (suc n) cs).1))
unfolding fetch_jack_ctls
fetch-bind max n c cs h = ground arith

-- The first m of some controls, and whether there are more.
abbrev pub first_of : ℕ → List Control → List Slot × Bool
first_of m cs = (map slot_of (take m cs), ltb m (length cs))

jacks-skip : (c : Control) (cs : List Control) → is_jack c ≡ false → jacks (c ∷ cs) ≡ jacks cs
jacks-skip c cs h = rw h

jacks-take : (c : Control) (cs : List Control) → is_jack c ≡ true → jacks (c ∷ cs) ≡ c ∷ jacks cs
jacks-take c cs h = rw h

-- A place that is taken, with m places left behind it.
first_of-suc :
    (m : ℕ) (c : Control) (cs : List Control)
    → first_of (suc m) (c ∷ cs) ≡ (slot_of c ∷ (first_of m cs).0, (first_of m cs).1)
first_of-suc m c cs =
    let same_test : ltb (suc m) (suc (length cs)) ≡ ltb m (length cs) = ground arith in
    ap (λ t. (slot_of c ∷ map slot_of (take m cs), t)) same_test

fetch-place :
    (n m : ℕ) (c : Control) (cs : List Control)
    → fetch_jack_ctls (n + m) n cs ≡ first_of m (jacks cs)
    → ((k : ℕ) → fetch_jack_ctls (suc n + k) (suc n) cs ≡ first_of k (jacks cs))
    → (if leb (n + m) n then ((fetch_jack_ctls (n + m) n cs).0, true) else (
      slot_of c ∷ (fetch_jack_ctls (n + m) (suc n) cs).0,
      (fetch_jack_ctls (n + m) (suc n) cs).1,
    ))
      ≡ first_of m (c ∷ jacks cs)
fetch-place n zero c cs h k =
    let full : leb (n + 0) n ≡ true = ground arith in
    let more : ltb 0 (length (c ∷ jacks cs)) ≡ true = ground arith in
    rw (full, more) (ap (λ x. (x.0, true)) h)
fetch-place n (suc m) c cs h k =
    let room : leb (n + suc m) n ≡ false = ground arith in
    let same_max : suc n + m ≡ n + suc m = omega arith in
    let rest = subst (λ x. fetch_jack_ctls x (suc n) cs ≡ first_of m (jacks cs)) same_max (k m) in
    rw room (ap (λ x. (slot_of c ∷ x.0, x.1)) rest ∙ sym (first_of-suc m c (jacks cs)))

fetch-none : (max n m : ℕ) → fetch_jack_ctls max n [] ≡ first_of m []
unfolding fetch_jack_ctls
fetch-none max n zero = refl
fetch-none max n (suc m) = ground arith

fetch_from : (cs : List Control) (n m : ℕ) → fetch_jack_ctls (n + m) n cs ≡ first_of m (jacks cs)
fetch_from [] n m = fetch-none (n + m) n m
fetch_from (c ∷ cs) n m = elim (Bool-cases (is_jack c)) [
  | inr e ↦
      fetch-skip (n + m) n c cs e ∙ fetch_from cs n m ∙ ap (first_of m) (sym (jacks-skip c cs e))
  | inl e ↦
      fetch-bind (n + m) n c cs e
      ∙ fetch-place n m c cs (fetch_from cs n m) (fetch_from cs (suc n))
      ∙ ap (first_of m) (sym (jacks-take c cs e))
]

-- Whatever controls the card has, those bound are the first of its boolean controls with "Jack" in
-- their names, at most `max` of them, in their order; and `truncated` is set if and only if there
-- are more.
pub fetch_jack_ctls_lem :
    (max : ℕ) (cs : List Control) → fetch_jack_ctls max 0 cs ≡ first_of max (jacks cs)
fetch_jack_ctls_lem max cs =
    subst (λ k. fetch_jack_ctls k 0 cs ≡ first_of max (jacks cs)) (omega arith)
      (fetch_from cs 0 max)
