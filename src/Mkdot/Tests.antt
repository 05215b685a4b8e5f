-- ===== src/Mkdot/Tests.antt =====
-- Runs of mkdot/mkdot.c on small inputs, and its theorems at them.
use overthinkin.Base.{
  true, false, List, [], ◌∷◌, ◌++◌, Option, none, some, Bytes, codes, pos, Os, ◌≡◌, ◌≢◌, ◌⊎◌, refl,
  arith,
}
use overthinkin.Mkdot.Target.{done, overflow, target_dst, expand, round}
use overthinkin.Mkdot.Renames.{target_dst-renames}
use overthinkin.Mkdot.Limits.{target_dst-ne-overflow}
use overthinkin.Mkdot.Copy.{Write, wrote, interrupted}
use overthinkin.Mkdot.Install.{Call, Answer, ftw_f, Entry, mode_skip, Config, install_to}
use overthinkin.Mkdot.Safety.{created, removed, install_to-created}
use overthinkin.Mkdot.Main.{Options, operands_of}
use overthinkin.Mkdot.Options.{operands_of_lem}

-- A system that grants every call, with descriptor 0, and says that every file is there.
abbrev grants : Os Call Answer
grants t c = record {
  ret = pos 0;
  eexist = false;
  mode = 420;
  is_dir = true;
  letter = some b'n';
  resolved = none;
  walk = [];
}

abbrev skipping : Config
skipping = record { mode = mode_skip; use_symlink = false; base = codes "/h"; topic_prefix = 1 }

abbrev rc : Entry
rc = record { fpath = codes "t/dot-rc"; stale = []; st_mode = 420; typeflag = ftw_f }

target_rc : target_dst (codes "/h") 1 (codes "t/dot-rc" ++ 0 ∷ []) ≡ done (codes "/h/.rc")
unfolding target_dst expand round
target_rc = refl

target_dst-renames_example :
    target_dst (codes "/h") 1 (codes "t/dot-cfg/dot-rc" ++ 0 ∷ []) ≡ done (codes "/h/.cfg/.rc")
target_dst-renames_example =
    target_dst-renames (codes "/h") b't' [] (codes "dot-cfg") (codes "dot-rc" ∷ []) [] (omega arith)
      (omega arith) (λ h. cc, (λ h. cc, tt)) (omega arith)

target_dst-ne-overflow_example : target_dst (codes "/h") 1 (codes "t/dot-" ++ 0 ∷ []) ≢ overflow
target_dst-ne-overflow_example =
    target_dst-ne-overflow (codes "/h") (codes "t/dot-") [] 1 (omega arith) (omega arith)

abbrev halting : List Write
halting = wrote 1 ∷ interrupted ∷ wrote 2 ∷ wrote 1 ∷ wrote 1 ∷ []

install_to-created_example :
    created (install_to skipping rc (codes "/h/.rc") ftw_f grants []).1 ≡ created []
unfolding removed install_to
install_to-created_example = install_to-created skipping rc (codes "/h/.rc") grants [] refl refl

abbrev two_opts : Options
two_opts = record { mode = mode_skip; use_symlink = true; base = some (codes "/h") }

operands_of_example :
    (codes "t" ∷ [] ≢ [])
    × (((◌≡◌ {A = Option Bytes} none (some (codes "/h")))
          × (codes "t" ∷ [] ≡ codes "t" ∷ codes "/h" ∷ []))
        ⊎ ((◌≡◌ {A = Option Bytes} none none)
            × (codes "t" ∷ codes "/h" ∷ [] ≡ codes "t" ∷ codes "/h" ∷ [])))
unfolding operands_of
operands_of_example =
    operands_of_lem none (codes "t" ∷ codes "/h" ∷ []) (codes "t" ∷ []) (codes "/h") refl
