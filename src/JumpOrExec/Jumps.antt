-- ===== src/JumpOrExec/Jumps.antt =====
-- jump-or-exec/jump-or-exec.c: what main does with the window that is chosen.
use overthinkin.Base.{Bool, List, some, Bytes, ◌≡◌, ◌∙◌, ap}
use overthinkin.JumpOrExec.Windows.{Window, select_window}
use overthinkin.JumpOrExec.Main.{jumped, act}
use overthinkin.JumpOrExec.Select.{first, or_else, matching, matching_active, select_window_lem}

act-selected :
    (regexec : Bytes → Bool) (operands : List Bytes) (windows : List Window) (w : Window)
    → select_window regexec windows ≡ some w
    → act (some regexec) operands windows ≡ jumped w
unfolding act
act-selected regexec operands windows w h = rw (act, h)

-- Where active windows match, main jumps to the first of them, and does not start the command,
-- whatever other windows match and whatever the command is.
pub act-active :
    (regexec : Bytes → Bool) (operands : List Bytes) (windows : List Window) (w : Window)
    → first (matching_active regexec) windows ≡ some w
    → act (some regexec) operands windows ≡ jumped w
act-active regexec operands windows w h =
    act-selected regexec operands windows w
      (select_window_lem regexec windows ∙ ap (λ o. or_else o (first (matching regexec) windows)) h)
