-- ===== src/Applets/Order.antt =====
-- check-my-alsa/app-common.c: the order of names, and why the order of registration does not matter.
use overthinkin.Base.{
  true, false, List, ◌∷◌, [], Bytes, ◌++◌, same, same-eq, same_comm, inl, inr, Bool-cases, ◌≡◌,
  refl, sym, ap, subst, ◌∙◌, arith,
}
use overthinkin.Applets.Registry.{before, Applet, applet_register, register_all}

pub before-same : (s t : Bytes) → before s t ≡ true → same s t ≡ false
before-same s [] h = cc
before-same [] (y ∷ ys) h = refl
before-same (x ∷ xs) (y ∷ ys) h = ground (arith, before-same xs ys)

before_trans : (s t u : Bytes) → before s t ≡ true → before t u ≡ true → before s u ≡ true
before_trans s t [] h k = cc
before_trans s [] (z ∷ zs) h k = cc
before_trans [] (y ∷ ys) (z ∷ zs) h k = refl
before_trans (x ∷ xs) (y ∷ ys) (z ∷ zs) h k = ground (arith, before_trans xs ys zs)

before_asym : (s t : Bytes) → before s t ≡ true → before t s ≡ false
before_asym s [] h = cc
before_asym [] (y ∷ ys) h = refl
before_asym (x ∷ xs) (y ∷ ys) h = ground (arith, before_asym xs ys)

before_total : (s t : Bytes) → before s t ≡ false → same s t ≡ false → before t s ≡ true
before_total [] [] h k = cc
before_total [] (y ∷ ys) h k = cc
before_total (x ∷ xs) [] h k = refl
before_total (x ∷ xs) (y ∷ ys) h k = ground (arith, before_total xs ys)

-- What is not before stays not before what is smaller.
before_not : (s t u : Bytes) → before s t ≡ true → before s u ≡ false → before u t ≡ true
before_not s t u h k = elim (Bool-cases (same s u)) [
  | inl e ↦ subst (λ v. before v t ≡ true) (same-eq s u e) h
  | inr n ↦ before_trans u s t (before_total s u k n) h
]

module _ (a p : Applet) (ps : List Applet) where
  pub register-yes :
      before p.name a.name ≡ true → applet_register a (p ∷ ps) ≡ p ∷ applet_register a ps
  unfolding applet_register
  register-yes h = rw h

  pub register-no : before p.name a.name ≡ false → applet_register a (p ∷ ps) ≡ a ∷ p ∷ ps
  unfolding applet_register
  register-no h = rw h

-- Two applets that both go to the front.
register-two :
    (a b : Applet) (ps : List Applet)
    → same a.name b.name ≡ false
    → applet_register a ps ≡ a ∷ ps
    → applet_register b ps ≡ b ∷ ps
    → applet_register a (b ∷ ps) ≡ applet_register b (a ∷ ps)
register-two a b ps d ha hb = elim (Bool-cases (before b.name a.name)) [
  | inl e ↦
      register-yes a b ps e
      ∙ ap (λ l. b ∷ l) ha
      ∙ sym (register-no b a ps (before_asym b.name a.name e))
  | inr n ↦
      let e = before_total b.name a.name n (same_comm b.name a.name ∙ d) in
      register-no a b ps n ∙ sym (register-yes b a ps e ∙ ap (λ l. a ∷ l) hb)
]

register-apart :
    (a b p : Applet) (ps : List Applet)
    → before p.name a.name ≡ true
    → before p.name b.name ≡ false
    → applet_register a (applet_register b (p ∷ ps))
      ≡ applet_register b (applet_register a (p ∷ ps))
register-apart a b p ps ha hb =
    ap (applet_register a) (register-no b p ps hb)
    ∙ register-yes a b (p ∷ ps) (before_not p.name a.name b.name ha hb)
    ∙ ap (λ l. b ∷ l) (register-yes a p ps ha)
    ∙ sym (
        ap (applet_register b) (register-yes a p ps ha) ∙ register-no b p (applet_register a ps) hb)

-- Two applets of different names are registered to the same list in either order.
applet_register_comm :
    (a b : Applet) (ps : List Applet)
    → same a.name b.name ≡ false
    → applet_register a (applet_register b ps) ≡ applet_register b (applet_register a ps)
unfolding applet_register
applet_register_comm a b [] d = register-two a b [] d refl refl
applet_register_comm a b (p ∷ ps) d = elim (Bool-cases (before p.name a.name)) [
  | inl ha ↦ elim (Bool-cases (before p.name b.name)) [
    | inl hb ↦
        ap (applet_register a) (register-yes b p ps hb)
        ∙ register-yes a p (applet_register b ps) ha
        ∙ ap (λ l. p ∷ l) (applet_register_comm a b ps d)
        ∙ sym (
            ap (applet_register b) (register-yes a p ps ha)
            ∙ register-yes b p (applet_register a ps) hb)
    | inr hb ↦ register-apart a b p ps ha hb
  ]
  | inr ha ↦ elim (Bool-cases (before p.name b.name)) [
    | inl hb ↦ sym (register-apart b a p ps hb ha)
    | inr hb ↦
        let fa = register-no a p ps ha in
        let fb = register-no b p ps hb in
        ap (applet_register a) fb
        ∙ register-two a b (p ∷ ps) d fa fb
        ∙ sym (ap (applet_register b) fa)
  ]
]

-- The constructors may run in any order: where two of them that follow one another change places,
-- and their applets have different names, the list of applets is the same.
pub register_all_swap :
    (xs ys : List Applet) (a b : Applet) (ps : List Applet)
    → same a.name b.name ≡ false
    → register_all (xs ++ a ∷ b ∷ ys) ps ≡ register_all (xs ++ b ∷ a ∷ ys) ps
unfolding register_all
register_all_swap [] ys a b ps d = ap (register_all ys) (sym (applet_register_comm a b ps d))
register_all_swap (x ∷ xs) ys a b ps d = register_all_swap xs ys a b (applet_register x ps) d
