-- ===== src/Applets/Dispatch.antt =====
-- check-my-alsa/main.c: which applet runs, and the exit status.
use overthinkin.Base.{
  ℕ, Bool, ◌||◌, List, ◌∷◌, [], none, some, Bytes, codes, same, ℤ, pos, negsuc, if◌then◌else◌,
}
use overthinkin.Applets.Registry.{Applet, applet_find}

-- `r < 0 ? 1 : r`
abbrev pub normal : ℤ → ℕ
normal (pos n) = n
normal (negsuc n) = 1

-- The arguments of help, behind it.
unfoldable pub run_help : List Applet → List Bytes → ℕ
run_help ps [] = 2
run_help ps (sub ∷ rest) = elim (applet_find sub ps) [ none ↦ 2 | some p ↦ 0 ]

-- An applet that was found, and the arguments behind its name.
unfoldable pub run_found : Bytes → Applet → List Bytes → ℕ
run_found name p [] = 2
run_found name p (arg ∷ rest) = normal (p.main (name ∷ arg ∷ rest))

unfoldable pub run_wanted : List Applet → Bytes → List Bytes → ℕ
run_wanted ps want rest = elim (applet_find want ps) [ none ↦ 2 | some p ↦ run_found want p rest ]

abbrev pub is_help : Bytes → Bool
is_help want = same want (codes "-h") || same want (codes "--help")

-- main: the exit status; the first argument is the name of the program.
unfoldable pub main : List Applet → List Bytes → ℕ
main ps [] = 2
main ps (prog ∷ []) = 2
main ps (prog ∷ want ∷ rest) =
    if is_help want
    then 0
    else if same want (codes "help")
    then run_help ps rest
    else run_wanted ps want rest
