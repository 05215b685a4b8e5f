-- ===== src/Applets/Lookup.antt =====
-- check-my-alsa/main.c and app-common.c: an applet that was registered is found, and is what main runs.
use overthinkin.Base.{
  false, List, ◌∷◌, [], some, Bytes, codes, same, same_refl, same_comm, same-eq, ◌++◌,
  if◌then◌else◌, inl, inr, Bool-cases, All, ◌≡◌, refl, subst, ◌∙◌,
}
use overthinkin.Applets.Registry.{before, Applet, applet_register, applet_find, register_all}
use overthinkin.Applets.Order.{before-same}
use overthinkin.Applets.Dispatch.{normal, is_help, run_wanted, run_found, main}

-- Once an applet is registered, it is what is found under its name, and under other names what was
-- found before.
pub find-register :
    (n : Bytes) (a : Applet) (ps : List Applet)
    → applet_find n (applet_register a ps) ≡ (if same a.name n then some a else applet_find n ps)
unfolding applet_find applet_register
find-register n a [] = refl
find-register n a (p ∷ ps) = elim (Bool-cases (before p.name a.name)) [
  | inr h ↦ rw h
  | inl h ↦ elim (Bool-cases (same p.name n)) [
    | inl e ↦
        let other : same a.name n ≡ false =
          subst (λ m. same a.name m ≡ false) (same-eq p.name n e)
            (same_comm a.name p.name ∙ before-same p.name a.name h) in
        rw (h, e, other)
    | inr e ↦ rw (h, e) (find-register n a ps)
  ]
]

-- The applets of other names do not matter.
find-register_all :
    (n : Bytes) (as' ps : List Applet)
    → All (λ a. same a.name n ≡ false) as'
    → applet_find n (register_all as' ps) ≡ applet_find n ps
unfolding register_all
find-register_all n [] ps h = refl
find-register_all n (a ∷ as') ps h =
    find-register_all n as' (applet_register a ps) h.1 ∙ find-register n a ps ∙ rw h.0

find-registered :
    (xs ys ps : List Applet) (a : Applet)
    → All (λ b. same b.name a.name ≡ false) ys
    → applet_find a.name (register_all (xs ++ a ∷ ys) ps) ≡ some a
unfolding register_all
find-registered [] ys ps a h =
    find-register_all a.name ys (applet_register a ps) h
    ∙ find-register a.name a ps
    ∙ rw (same_refl a.name)
find-registered (x ∷ xs) ys ps a h = find-registered xs ys (applet_register x ps) a h

run_wanted-found :
    (a : Applet) (ps : List Applet) (arg : Bytes) (rest : List Bytes)
    → applet_find a.name ps ≡ some a
    → run_wanted ps a.name (arg ∷ rest) ≡ normal (a.main (a.name ∷ arg ∷ rest))
unfolding run_wanted run_found
run_wanted-found a ps arg rest h = rw (run_wanted, h)

-- Whatever applets are registered, in whatever order, main with the name of one of them and at
-- least one argument returns what that applet returns, or 1 where that is negative; if the name is
-- none of -h, --help and help, and no applet that is registered later has the same.
pub main-registered :
    (xs ys : List Applet) (a : Applet) (prog arg : Bytes) (rest : List Bytes)
    → All (λ b. same b.name a.name ≡ false) ys
    → is_help a.name ≡ false
    → same a.name (codes "help") ≡ false
    → main (register_all (xs ++ a ∷ ys) []) (prog ∷ a.name ∷ arg ∷ rest)
      ≡ normal (a.main (a.name ∷ arg ∷ rest))
unfolding main
main-registered xs ys a prog arg rest h n m =
    rw (n, m)
      (run_wanted-found a (register_all (xs ++ a ∷ ys) []) arg rest (find-registered xs ys [] a h))
