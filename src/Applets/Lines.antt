-- ===== src/Applets/Lines.antt =====
-- check-my-alsa/app-jack.c: the lines that are printed of the controls.
use overthinkin.Base.{
  ◌++◌, Bool, false, List, ◌∷◌, [], Option, some, Bytes, same, same_refl, All, if◌then◌else◌, ◌≡◌,
  refl,
}
use overthinkin.Applets.Jack.{Line}

-- What was printed last of each name.
abbrev pub Known : Type 0
Known = Bytes → Option Bool

abbrev pub say : Line → Known → Known
say l k n = if same l.name n then some l.is else k n

abbrev pub after : List Line → Known → Known
after [] k = k
after (l ∷ ls) k = after ls (say l k)

-- Each line starts from what was printed before of its control.
abbrev pub Chained : Known → List Line → Type 0
Chained k [] = Unit {0}
Chained k (l ∷ ls) = (l.was ≡ k l.name) × Chained (say l k) ls

pub after-++ : (ls ls' : List Line) (k : Known) → after (ls ++ ls') k ≡ after ls' (after ls k)
after-++ [] ls' k = refl
after-++ (l ∷ ls) ls' k = after-++ ls ls' (say l k)

pub Chained-++ :
    (ls ls' : List Line) (k : Known)
    → Chained k ls
    → Chained (after ls k) ls'
    → Chained k (ls ++ ls')
Chained-++ [] ls' k p q = q
Chained-++ (l ∷ ls) ls' k p q = (p.0, Chained-++ ls ls' (say l k) p.1 q)

pub say-same : (l : Line) (k : Known) → say l k l.name ≡ some l.is
say-same l k = rw (same_refl l.name)

pub say-other : (l : Line) (k : Known) (n : Bytes) → same l.name n ≡ false → say l k n ≡ k n
say-other l k n h = rw h

-- The names are different.
abbrev pub Apart : List Bytes → Type 0
Apart [] = Unit {0}
Apart (n ∷ ns) = All (λ m. same n m ≡ false) ns × Apart ns
