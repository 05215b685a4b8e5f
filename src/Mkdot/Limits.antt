-- ===== src/Mkdot/Limits.antt =====
-- What target_dst does at the edges: the size of `buf`, and names of less than two bytes behind
-- `dot-`, where the test of `src + 5` looks one byte too far.
use overthinkin.Base.{
  ℕ, zero, suc, ◌+◌, ◌≤◌, ◌<◌, true, [], ◌∷◌, ◌++◌, Option, none, some, length, drop, Bytes, codes,
  starts, ◌==◌, if◌then◌else◌, ◌≡◌, ◌≢◌, refl, arith, Bool-cases, inl, inr, drop-append, ==_ne,
}
use overthinkin.Mkdot.Target.{
  Outcome, done, out_of_bounds, overflow, aborted, map_outcome, path_max, write_at, round, expand,
  expand_relative, target_dst,
}
use overthinkin.Mkdot.Renames.{IsNameByte, rename}

-- A name `dot-x` of one byte behind the prefix is installed under its own name, against the rule.
target_dst_short :
    (base : Bytes) (c : ℕ) (cs : Bytes) (x : ℕ) (stale : Bytes)
    → c ≢ b'/'
    → IsNameByte x
    → length base + 6 < path_max
    → (target_dst base (length (c ∷ cs)) ((c ∷ cs) ++ (codes "/dot-" ++ x ∷ 0 ∷ stale))
        ≡ done (base ++ (codes "/dot-" ++ x ∷ [])))
      × (rename (codes "dot-" ++ x ∷ []) ≡ b'.' ∷ x ∷ [])
unfolding target_dst expand round
target_dst_short base c cs x stale rel n fits = (
  rw ((==_ne c b'/').1 rel, drop-append cs (codes "/dot-" ++ x ∷ 0 ∷ stale)) (ground arith),
  refl,
)

-- A name `dot-` is installed as `dot-` or as `.` by the byte that stands behind its terminator,
-- and the read is outside the memory of the path where no byte stands there.
target_dst_bare :
    (base : Bytes) (c : ℕ) (cs stale : Bytes)
    → c ≢ b'/'
    → length base + 5 < path_max
    → target_dst base (length (c ∷ cs)) ((c ∷ cs) ++ (codes "/dot-" ++ 0 ∷ stale)) ≡ elim stale [
      | [] ↦ out_of_bounds
      | s ∷ _ ↦ done (base ++ (if s == 0 then codes "/dot-" else codes "/."))
    ]
unfolding target_dst expand round
target_dst_bare base c cs [] rel fits =
    rw ((==_ne c b'/').1 rel, drop-append cs (codes "/dot-" ++ 0 ∷ [])) (ground arith)
target_dst_bare base c cs (s ∷ stale) rel fits =
    rw ((==_ne c b'/').1 rel, drop-append cs (codes "/dot-" ++ 0 ∷ s ∷ stale)) (ground arith)

dash_length : (u stale : Bytes) → starts (codes "ot-") (u ++ 0 ∷ stale) ≡ true → 3 ≤ length u
dash_length [] stale s = ground arith
dash_length (a ∷ []) stale s = ground arith
dash_length (a ∷ b ∷ []) stale s = ground arith
dash_length (a ∷ b ∷ c ∷ u) stale s = omega arith

-- A round writes no more bytes than it passes, and passes none behind the terminator.
abbrev Fits : ℕ → Option (Bytes × ℕ) → Type 0
Fits n none = Unit {0}
Fits n (some (bs, k)) = (length bs ≤ k + 1) × (k ≤ n)

round-Fits : (prev c : ℕ) (u stale : Bytes) → Fits (length u) (round prev c (u ++ 0 ∷ stale))
unfolding round
round-Fits prev c u stale = ground (arith, dash_length u stale)

map_outcome-ne-overflow :
    (o : Outcome Bytes) (f : Bytes → Bytes) → o ≢ overflow → map_outcome f o ≢ overflow
map_outcome-ne-overflow (done a) f h = ground arith
map_outcome-ne-overflow out_of_bounds f h = ground arith
map_outcome-ne-overflow overflow f h = absurd (h refl)
map_outcome-ne-overflow aborted f h = ground arith

write_at-ne-overflow :
    (off : ℕ) (bs : Bytes) (o : Outcome Bytes)
    → off + length bs ≤ path_max
    → o ≢ overflow
    → write_at off bs o ≢ overflow
write_at-ne-overflow off bs o fits h =
    ground (arith, map_outcome-ne-overflow o (λ out. bs ++ out) h)

-- One turn of the loop, if the turns that follow it stay in the buffer.
turn-ne-overflow :
    (r : Option (Bytes × ℕ)) (n off c : ℕ) (cs : Bytes)
    → Fits n r
    → off + suc n < path_max
    → ((k o : ℕ) → k ≤ n → o + n < path_max + k → expand k o c cs ≢ overflow)
    → elim r [
      | none ↦ out_of_bounds
      | some (bs, k) ↦ write_at off bs (expand k (off + length bs) c cs)
    ]
      ≢ overflow
turn-ne-overflow none n off c cs f fits k = ground arith
turn-ne-overflow (some (bs, m)) n off c cs f fits k =
    write_at-ne-overflow off bs (expand m (off + length bs) c cs) (omega arith)
      (k m (off + length bs) f.1 (omega arith))

expand-ne-overflow :
    (u stale : Bytes) (k off prev : ℕ)
    → k ≤ length u
    → off + length u < path_max + k
    → expand k off prev (u ++ 0 ∷ stale) ≢ overflow
unfolding expand
expand-ne-overflow [] stale zero off prev l fits = ground arith
expand-ne-overflow [] stale (suc k) off prev l fits = absurd (omega arith)
expand-ne-overflow (c ∷ u) stale (suc k) off prev l fits =
    expand-ne-overflow u stale k off c (omega arith) (omega arith)
expand-ne-overflow (c ∷ u) stale zero off prev l fits = elim (Bool-cases (c == 0)) [
  | inl end ↦ rw end (ground arith)
  | inr more ↦ rw more (
      turn-ne-overflow (round prev c (u ++ 0 ∷ stale)) (length u) off c (u ++ 0 ∷ stale)
        (round-Fits prev c u stale) (omega arith) (λ k o b m. expand-ne-overflow u stale k o c b m))
]

drop-path :
    (n : ℕ) (u stale : Bytes) → n ≤ length u → drop n (u ++ 0 ∷ stale) ≡ drop n u ++ 0 ∷ stale
drop-path zero u stale h = refl
drop-path (suc n) [] stale h = absurd (omega arith)
drop-path (suc n) (c ∷ u) stale h = drop-path n u stale (omega arith)

length-drop : (n : ℕ) (u : Bytes) → length (drop n u) ≤ length u
length-drop zero u = omega arith
length-drop (suc n) [] = omega arith
length-drop (suc n) (c ∷ u) = omega (arith, length-drop n u)

expand_relative-ne-overflow :
    (u stale : Bytes) (prev : Option ℕ) (off : ℕ)
    → off + length u < path_max
    → expand_relative prev off (u ++ 0 ∷ stale) ≢ overflow
unfolding expand_relative
expand_relative-ne-overflow [] stale prev off fits = ground arith
expand_relative-ne-overflow (c ∷ u) stale none off fits =
    ground (arith, expand-ne-overflow u stale 0 off c (omega arith) (omega arith))
expand_relative-ne-overflow (c ∷ u) stale (some p) off fits = ground (
  arith,
  expand-ne-overflow u stale 0 off c (omega arith) (omega arith),
  expand-ne-overflow (c ∷ u) stale 0 off p (omega arith) (omega arith),
)

below_base :
    (base u stale : Bytes) (n : ℕ) (prev : Option ℕ)
    → n ≤ length u
    → length base + 1 + length u < path_max
    → map_outcome
        (λ out. base ++ b'/' ∷ out)
        (expand_relative prev (length base + 1) (drop n (u ++ 0 ∷ stale)))
      ≢ overflow
below_base base u stale n prev h fits =
    map_outcome-ne-overflow _ (λ out. base ++ b'/' ∷ out)
      (rw (drop-path n u stale h) (
        expand_relative-ne-overflow (drop n u) stale prev (length base + 1)
          (omega (arith, length-drop n u))))

-- No name is longer where it is installed: if the base, a slash and the path fit `buf`, then no
-- write goes behind its end, whatever the names are and wherever the topic ends in the path.
pub target_dst-ne-overflow :
    (base u stale : Bytes) (topic_prefix : ℕ)
    → topic_prefix ≤ length u
    → length base + 1 + length u < path_max
    → target_dst base topic_prefix (u ++ 0 ∷ stale) ≢ overflow
unfolding target_dst
target_dst-ne-overflow base [] stale n h fits = below_base base [] stale n _ h fits
target_dst-ne-overflow base (c ∷ u) stale n h fits = elim (Bool-cases (c == b'/')) [
  | inl absolute ↦ rw absolute (ground arith)
  | inr relative ↦ rw relative (below_base base (c ∷ u) stale n _ h fits)
]
