-- ===== src/Mkdot/Target.antt =====
-- target_dst of mkdot/mkdot.c: where a file of a topic is installed. The source path is memory:
-- its bytes, the terminator, and whatever stands behind it.
use overthinkin.Base.{
  ℕ, zero, suc, ◌+◌, ◌-◌, [], ◌∷◌, ◌++◌, Option, none, some, length, get_elem?, drop, Bytes, codes,
  starts, ltb, leb, ◌==◌, if◌then◌else◌,
}

-- `out_of_bounds` is a read outside the memory of the path, `overflow` a write behind the end of
-- `buf`, `aborted` a failed assertion.
pub data Outcome (A : Type 0) : Type 0 where
  done : A → Outcome A
  out_of_bounds overflow aborted : Outcome A

abbrev pub map_outcome : {A B : Type 0} → (A → B) → Outcome A → Outcome B
map_outcome f (done a) = done (f a)
map_outcome f out_of_bounds = out_of_bounds
map_outcome f overflow = overflow
map_outcome f aborted = aborted

abbrev pub path_max : ℕ
path_max = 4096

-- `bs` is written at offset `off` of `buf`, before what `rest` writes.
abbrev pub write_at : ℕ → Bytes → Outcome Bytes → Outcome Bytes
write_at off bs rest =
    if leb (off + length bs) path_max then map_outcome (λ out. bs ++ out) rest else overflow

-- `*ptr = '\0'`
abbrev terminate : ℕ → Outcome Bytes
terminate off = if ltb off path_max then done [] else overflow

-- One round of the loop at the byte `c`, with `prev` at `src - 1` and `cs` at `src + 1`: what is
-- written, and how many bytes `src` passes beside `c`.
unfoldable pub round : ℕ → ℕ → Bytes → Option (Bytes × ℕ)
round prev c cs =
    if starts (codes "/dot-") (prev ∷ c ∷ cs)
    then elim (get_elem? cs 4) [
      | none ↦ none
      | some after ↦ some (if after == 0 then codes "dot-" else b'.' ∷ [], 3)
    ]
    else some (c ∷ [], 0)

-- `while (*src)`; the first argument counts the bytes that `src += 4` has still to pass.
unfoldable pub expand : ℕ → ℕ → ℕ → Bytes → Outcome Bytes
unfolding round
expand k off prev [] = out_of_bounds
expand (suc k) off prev (c ∷ cs) = expand k off c cs
expand zero off prev (c ∷ cs) = if c == 0 then terminate off else elim (round prev c cs) [
  | none ↦ out_of_bounds
  | some (bs, k) ↦ write_at off bs (expand k (off + length bs) c cs)
]

-- `if (*src == '/') src++;` and the loop; `prev` is the byte at `src - 1`, if there is one.
unfoldable pub expand_relative : Option ℕ → ℕ → Bytes → Outcome Bytes
unfolding expand
expand_relative prev off [] = out_of_bounds
expand_relative prev off (c ∷ cs) =
    if c == b'/'
    then expand 0 off c cs
    else if c == 0
    then terminate off
    else elim prev [ none ↦ out_of_bounds | some p ↦ expand 0 off p (c ∷ cs) ]

unfoldable pub target_dst : Bytes → ℕ → Bytes → Outcome Bytes
unfolding expand_relative
target_dst base topic_prefix [] = out_of_bounds
target_dst base topic_prefix (c ∷ cs) =
    if c == b'/'
    then aborted
    else map_outcome (λ out. base ++ b'/' ∷ out)
        (expand_relative (if topic_prefix == 0 then none else get_elem? (c ∷ cs) (topic_prefix - 1))
          (length base + 1) (drop topic_prefix (c ∷ cs)))
