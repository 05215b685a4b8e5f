-- ===== src/Applets/Registry.antt =====
-- check-my-alsa/app-common.c: the list of applets, in the order of their names.
use overthinkin.Base.{
  ltb, ◌==◌, Bool, true, false, List, ◌∷◌, [], Option, none, some, Bytes, same, ℤ, if◌then◌else◌,
}

-- `strcmp (s, t) < 0`
abbrev pub before : Bytes → Bytes → Bool
before s [] = false
before [] (y ∷ ys) = true
before (x ∷ xs) (y ∷ ys) = if ltb x y then true else if x == y then before xs ys else false

-- struct applet: its name, and what its main returns for its arguments.
pub record Applet : Type 0 where
  pub name : Bytes
  pub main : List Bytes → ℤ

-- applet_register; the list is applet_head with its links.
unfoldable pub applet_register : Applet → List Applet → List Applet
applet_register a [] = a ∷ []
applet_register a (p ∷ ps) =
    let rest = applet_register a ps in if before p.name a.name then p ∷ rest else a ∷ p ∷ ps

unfoldable pub applet_find : Bytes → List Applet → Option Applet
applet_find name [] = none
applet_find name (p ∷ ps) =
    let rest = applet_find name ps in if same p.name name then some p else rest

-- The constructors of the applets, in the order in which they run.
unfoldable pub register_all : List Applet → List Applet → List Applet
register_all [] ps = ps
register_all (a ∷ as') ps = register_all as' (applet_register a ps)
