-- ===== src/Mkdot/Copy.antt =====
-- The copy loop of copy_file in mkdot/mkdot.c, over the answers that read and write give.
use overthinkin.Base.{
  ℕ, suc, zero, ◌+◌, ◌≤◌, Bool, List, [], ◌∷◌, ◌++◌, length, take, drop, flatten, length-append,
  Bytes, ◌≡◌, refl, arith, All, ◌≢◌, ap, sym, ◌∙◌, ◌⊎◌, inl, inr,
}
use mathlib.Core.List.{append_assoc, append-nil}

-- What one `write` does: it takes some bytes, is interrupted, or fails.
pub data Write : Type 0 where
  wrote : ℕ → Write
  interrupted failed : Write

-- What the reads return: blocks of bytes up to the end of the file, or up to an error.
pub record Reads : Type 0 where
  pub blocks : List Bytes
  pub read_error : Bool

-- The loop's result with the bytes that reached the file; `waiting` where the given answers of
-- `write` are used up.
pub data Progress : Type 0 where
  copied : List Write → Bytes → Progress
  write_failed : Bytes → Progress
  waiting : Progress

-- `while (off < r)`, on the part of `buf` behind `off`.
unfoldable pub write_block : List Write → Bytes → Bytes → Progress
write_block ws [] out = copied ws out
write_block [] (b ∷ rest) out = waiting
write_block (interrupted ∷ ws) (b ∷ rest) out = write_block ws (b ∷ rest) out
write_block (failed ∷ ws) (b ∷ rest) out = write_failed out
write_block (wrote n ∷ ws) (b ∷ rest) out =
    write_block ws (drop n (b ∷ rest)) (out ++ take n (b ∷ rest))

-- `while ((r = read (...)) > 0)`
unfoldable pub copy_blocks : List Bytes → List Write → Bytes → Progress
unfolding write_block
copy_blocks [] ws out = copied ws out
copy_blocks (block ∷ blocks) ws out = elim (write_block ws block out) [
  | copied ws' out' ↦ copy_blocks blocks ws' out'
  | write_failed out' ↦ write_failed out'
  | waiting ↦ waiting
]

take-drop : (n : ℕ) (xs : Bytes) → take n xs ++ drop n xs ≡ xs
take-drop zero xs = refl
take-drop (suc n) [] = refl
take-drop (suc n) (x ∷ xs) = ap (◌∷◌ x) (take-drop n xs)

write_block-copied :
    (ws : List Write) (rest out : Bytes) {ws' : List Write} {out' : Bytes}
    → write_block ws rest out ≡ copied ws' out'
    → out' ≡ out ++ rest
unfolding write_block
write_block-copied ws [] out {ws'} {out'} h = ground (arith, append-nil out)
write_block-copied [] (b ∷ rest) out h = cc
write_block-copied (interrupted ∷ ws) (b ∷ rest) out h = write_block-copied ws (b ∷ rest) out h
write_block-copied (failed ∷ ws) (b ∷ rest) out h = cc
write_block-copied (wrote n ∷ ws) (b ∷ rest) out h =
    write_block-copied ws (drop n (b ∷ rest)) (out ++ take n (b ∷ rest)) h
    ∙ append_assoc out (take n (b ∷ rest)) (drop n (b ∷ rest))
    ∙ ap (λ t. out ++ t) (take-drop n (b ∷ rest))

Progress-cases :
    (p : Progress)
    → ((ws : List Write) × (out : Bytes) × (p ≡ copied ws out))
      ⊎ (((out : Bytes) × (p ≡ write_failed out)) ⊎ (p ≡ waiting))
Progress-cases (copied ws out) = inl (ws, out, refl)
Progress-cases (write_failed out) = inr (inl (out, refl))
Progress-cases waiting = inr (inr refl)

copied-ne-failed : {ws : List Write} {out out' : Bytes} → copied ws out ≢ write_failed out'
copied-ne-failed h = cc

copied-ne-waiting : {ws : List Write} {out : Bytes} → copied ws out ≢ waiting
copied-ne-waiting h = cc

copy_blocks-copied :
    (blocks : List Bytes) (ws : List Write) (out : Bytes) {ws' : List Write} {out' : Bytes}
    → copy_blocks blocks ws out ≡ copied ws' out'
    → out' ≡ out ++ flatten blocks
unfolding copy_blocks
copy_blocks-copied [] ws out h = ground (arith, append-nil out)
copy_blocks-copied (block ∷ blocks) ws out h = elim (Progress-cases (write_block ws block out)) [
  | inl (vs, mid, e) ↦
      copy_blocks-copied blocks vs mid (rw (e, copy_blocks) at h)
      ∙ ap (λ t. t ++ flatten blocks) (write_block-copied ws block out e)
      ∙ append_assoc out block (flatten blocks)
  | inr (inl (mid, e)) ↦ absurd (copied-ne-failed (sym (rw (e, copy_blocks) at h)))
  | inr (inr e) ↦ absurd (copied-ne-waiting (sym (rw (e, copy_blocks) at h)))
]

-- The answers that move the loop on, and that an answer is not an error.
abbrev pub progress : List Write → ℕ
progress [] = 0
progress (wrote zero ∷ ws) = progress ws
progress (wrote (suc n) ∷ ws) = suc (progress ws)
progress (interrupted ∷ ws) = progress ws
progress (failed ∷ ws) = progress ws

abbrev pub IsNoError : Write → Type 0
IsNoError w = w ≢ failed

take_length : (n : ℕ) (xs : Bytes) → length (drop n xs) + n ≤ length xs + n
take_length zero xs = omega arith
take_length (suc n) [] = omega arith
take_length (suc n) (x ∷ xs) = omega (arith, take_length n xs)

-- With progress enough for the block, the loop ends, and the progress is used up by its bytes alone.
write_block_ends :
    (ws : List Write) (rest out : Bytes) (more : ℕ)
    → All IsNoError ws
    → length rest + more ≤ progress ws
    → (ws' : List Write) × (write_block ws rest out ≡ copied ws' (out ++ rest))
      × All IsNoError ws'
      × (more ≤ progress ws')
unfolding write_block
write_block_ends ws [] out more h p = (ws, rw append-nil refl, h, omega arith)
write_block_ends [] (b ∷ rest) out more h p = absurd (omega arith)
write_block_ends (interrupted ∷ ws) (b ∷ rest) out more h p =
    write_block_ends ws (b ∷ rest) out more h.1 p
write_block_ends (failed ∷ ws) (b ∷ rest) out more h p = absurd (h.0 refl)
write_block_ends (wrote zero ∷ ws) (b ∷ rest) out more h p =
    rw append-nil (write_block_ends ws (b ∷ rest) out more h.1 p)
write_block_ends (wrote (suc n) ∷ ws) (b ∷ rest) out more h p =
    let (ws', e, h', p') =
      write_block_ends ws (drop n rest) (out ++ b ∷ take n rest) more h.1
        (omega (arith, take_length n rest)) in
    (
      ws',
      e
          ∙ ap (copied ws') (
              append_assoc out (b ∷ take n rest) (drop n rest)
              ∙ ap (λ t. out ++ b ∷ t) (take-drop n rest)),
      h',
      p',
    )

copy_blocks_ends :
    (blocks : List Bytes) (ws : List Write) (out : Bytes)
    → All IsNoError ws
    → length (flatten blocks) ≤ progress ws
    → (ws' : List Write) × (copy_blocks blocks ws out ≡ copied ws' (out ++ flatten blocks))
unfolding copy_blocks
copy_blocks_ends [] ws out h p = (ws, rw append-nil refl)
copy_blocks_ends (block ∷ blocks) ws out h p =
    let (ws', e, h', p') =
      write_block_ends ws block out (length (flatten blocks)) h
        (omega (arith, length-append block (flatten blocks))) in
    let (ws'', e') = copy_blocks_ends blocks ws' (out ++ block) h' p' in
    (ws'', rw (e, copy_blocks) (e' ∙ ap (copied ws'') (append_assoc out block (flatten blocks))))

-- If no write fails, and the writes that move on are as many as the bytes of the source, then the
-- loop ends, and the file holds the source's bytes, however the writes are split or interrupted.
copy_blocks_total :
    (blocks : List Bytes) (ws : List Write)
    → All IsNoError ws
    → length (flatten blocks) ≤ progress ws
    → (ws' : List Write) × (copy_blocks blocks ws [] ≡ copied ws' (flatten blocks))
copy_blocks_total blocks ws h p = copy_blocks_ends blocks ws [] h p

-- Whenever the loop ends without an error, for any answers of `write` that it met, the file holds
-- the source's bytes: none is lost, repeated or moved.
copy_blocks_exact :
    (blocks : List Bytes) (ws : List Write) {ws' : List Write} {out : Bytes}
    → copy_blocks blocks ws [] ≡ copied ws' out
    → out ≡ flatten blocks
copy_blocks_exact blocks ws h = copy_blocks-copied blocks ws [] h
