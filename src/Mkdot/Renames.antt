-- ===== src/Mkdot/Renames.antt =====
-- What the names of a topic become: `dot-NAME` is installed as `.NAME`.
use overthinkin.Base.{
  ℕ, ◌+◌, ◌≤◌, ◌<◌, true, false, List, [], ◌∷◌, ◌++◌, length, drop, Bytes, codes, starts,
  if◌then◌else◌, ◌≡◌, ◌≢◌, refl, arith, All, map, Bool-cases, inl, inr, ◌⊎◌, sym, subst,
  length-append, drop-append, ==_ne,
}
use mathlib.Core.List.{append_assoc}
use overthinkin.Mkdot.Target.{done, path_max, round, expand, target_dst}

-- A byte of one name in a path.
abbrev pub IsNameByte : ℕ → Type 0
IsNameByte c = (c ≢ 0) × (c ≢ b'/')

-- The rule of the comment in target_dst: `dot-config` is `.config`, and a bare `dot-` stays.
abbrev undot : Bytes → Bytes
undot [] = codes "dot-"
undot (c ∷ cs) = b'.' ∷ c ∷ cs

abbrev pub rename : Bytes → Bytes
rename w = if starts (codes "dot-") w then undot (drop 4 w) else w

-- The names of a path below its topic, each behind a slash.
abbrev pub slashed : List Bytes → Bytes
slashed [] = []
slashed (w ∷ ws) = b'/' ∷ (w ++ slashed ws)

-- A name to which the code applies its rule: no `dot-` in front, or two bytes or more behind it.
abbrev pub IsPlainOrLong : Bytes → Type 0
IsPlainOrLong w = All IsNameByte w × (starts (codes "dot-") w ≡ true → 6 ≤ length w)

-- One byte that begins no "/dot-" is copied as it is.
expand-byte :
    (c : ℕ) (cs : Bytes) {out : Bytes} (off prev : ℕ)
    → c ≢ 0
    → starts (codes "/dot-") (prev ∷ c ∷ cs) ≡ false
    → off < path_max
    → expand 0 (off + 1) c cs ≡ done out
    → expand 0 off prev (c ∷ cs) ≡ done (c ∷ out)
unfolding expand round
expand-byte c cs off prev n s fits k = ground arith

not_slash : (prev : ℕ) (s : Bytes) → prev ≢ b'/' → starts (codes "/dot-") (prev ∷ s) ≡ false
not_slash prev s n = ground arith

-- Bytes with no slash in front of them are copied as they are.
expand-name :
    (u rest : Bytes) (out : Bytes) (off prev : ℕ)
    → All IsNameByte u
    → prev ≢ b'/'
    → off + length u ≤ path_max
    → ((p o : ℕ) → p ≢ b'/' → o ≡ off + length u → expand 0 o p rest ≡ done out)
    → expand 0 off prev (u ++ rest) ≡ done (u ++ out)
expand-name [] rest out off prev h n fits k = k prev off n (omega arith)
expand-name (c ∷ u) rest out off prev h n fits k =
    expand-byte c (u ++ rest) off prev h.0.0 (not_slash prev (c ∷ (u ++ rest)) n) (omega arith) (
      expand-name u rest out (off + 1) c h.1 h.0.1 (omega arith) (λ p o q e. k p o q (omega arith)))

expand-dot :
    (a b : ℕ) (u rest out : Bytes) (off : ℕ)
    → All IsNameByte (a ∷ b ∷ u)
    → off + 3 + length u ≤ path_max
    → ((p o : ℕ) → p ≢ b'/' → o ≡ off + 3 + length u → expand 0 o p rest ≡ done out)
    → expand 0 off b'/' (codes "dot-" ++ (a ∷ b ∷ u ++ rest)) ≡ done (b'.' ∷ a ∷ b ∷ u ++ out)
unfolding expand round
expand-dot a b u rest out off h fits k = ground (
  arith,
  expand-name (a ∷ b ∷ u) rest out (off + 1) b'-' h (omega arith) (omega arith)
      (λ p o q e. k p o q (omega arith)),
)

-- Where a name ends, no byte of "dot-" stands.
starts-append :
    (w : Bytes) (e : ℕ) (rest : Bytes)
    → (e ≡ 0) ⊎ (e ≡ b'/')
    → starts (codes "dot-") w ≡ false
    → starts (codes "dot-") (w ++ e ∷ rest) ≡ false
starts-append [] e rest d s = ground arith
starts-append (a ∷ []) e rest d s = ground arith
starts-append (a ∷ b ∷ []) e rest d s = ground arith
starts-append (a ∷ b ∷ c ∷ []) e rest d s = ground arith
starts-append (a ∷ b ∷ c ∷ x ∷ w) e rest d s = ground arith

dot_parts :
    (w : Bytes)
    → starts (codes "dot-") w ≡ true
    → 6 ≤ length w
    → (a b : ℕ) × (u : Bytes) × (w ≡ codes "dot-" ++ (a ∷ b ∷ u))
dot_parts (d ∷ o ∷ t ∷ h ∷ a ∷ b ∷ u) s l = (a, b, u, ground arith)
dot_parts (d ∷ o ∷ t ∷ h ∷ a ∷ []) s l = absurd (omega arith)
dot_parts (d ∷ o ∷ t ∷ h ∷ []) s l = absurd (omega arith)
dot_parts (d ∷ o ∷ t ∷ []) s l = absurd (omega arith)
dot_parts (d ∷ o ∷ []) s l = absurd (omega arith)
dot_parts (d ∷ []) s l = absurd (omega arith)
dot_parts [] s l = absurd (omega arith)

module _ (e : ℕ) (rest out : Bytes) (off : ℕ) where
  -- What the rest of the path becomes, from any place where the loop may meet it.
  abbrev Continues : Bytes → Type 0
  Continues w = (p o : ℕ) → p ≢ b'/' → o ≤ off + length w → expand 0 o p (e ∷ rest) ≡ done out

  expand-plain :
      (w : Bytes)
      → All IsNameByte w
      → w ≢ []
      → starts (codes "dot-") w ≡ false
      → (e ≡ 0) ⊎ (e ≡ b'/')
      → off + length w ≤ path_max
      → Continues w
      → expand 0 off b'/' (w ++ e ∷ rest) ≡ done (w ++ out)
  expand-plain [] h n s d fits k = absurd (n refl)
  expand-plain (c ∷ w) h n s d fits k =
      expand-byte c (w ++ e ∷ rest) off b'/' h.0.0 (starts-append (c ∷ w) e rest d s) (omega arith)
        (expand-name w (e ∷ rest) out (off + 1) c h.1 h.0.1 (omega arith)
          (λ p o q l. k p o q (omega arith)))

  -- A name behind a slash.
  expand-component :
      (w : Bytes)
      → IsPlainOrLong w
      → w ≢ []
      → (e ≡ 0) ⊎ (e ≡ b'/')
      → off + length w ≤ path_max
      → Continues w
      → expand 0 off b'/' (w ++ e ∷ rest) ≡ done (rename w ++ out)
  expand-component w h n d fits k = elim (Bool-cases (starts (codes "dot-") w)) [
    | inr plain ↦ rw plain (expand-plain w h.0 n plain d fits k)
    | inl dotted ↦
        let (a, b, u, e') = dot_parts w dotted (h.1 dotted) in
        subst
          (λ v.
            All IsNameByte v
            → off + length v ≤ path_max
            → Continues v
            → expand 0 off b'/' (v ++ e ∷ rest) ≡ done (rename v ++ out))
          (sym e')
          (λ q f l.
            expand-dot a b u (e ∷ rest) out off q.1.1.1.1 (omega arith)
              (λ p o r m. l p o r (omega arith)))
          h.0 fits k
  ]

expand-slash :
    (cs out : Bytes) (off prev : ℕ)
    → prev ≢ b'/'
    → off < path_max
    → expand 0 (off + 1) b'/' cs ≡ done out
    → expand 0 off prev (b'/' ∷ cs) ≡ done (b'/' ∷ out)
expand-slash cs out off prev n fits k =
    expand-byte b'/' cs off prev (omega arith) (not_slash prev (b'/' ∷ cs) n) fits k

expand-end :
    (stale : Bytes) (off prev : ℕ) → off + 0 < path_max → expand 0 off prev (0 ∷ stale) ≡ done []
unfolding expand
expand-end stale off prev fits = ground arith

-- One name, and what the loop makes of the rest of the path.
expand-first :
    (w : Bytes) (ws : List Bytes) (stale out : Bytes) (off : ℕ)
    → IsPlainOrLong w
    → w ≢ []
    → off + length w ≤ path_max
    → ((p o : ℕ)
        → p ≢ b'/'
        → o ≤ off + length w
        → expand 0 o p (slashed ws ++ 0 ∷ stale) ≡ done out)
    → expand 0 off b'/' (w ++ (slashed ws ++ 0 ∷ stale)) ≡ done (rename w ++ out)
expand-first w [] stale out off h n fits k =
    expand-component 0 stale out off w h n (inl refl) fits k
expand-first w (v ∷ ws) stale out off h n fits k =
    expand-component b'/' ((v ++ slashed ws) ++ 0 ∷ stale) out off w h n (inr refl) fits k

-- The rest of a path, from behind its topic or a name.
expand-slashed :
    (ws : List Bytes) (stale : Bytes) (off prev : ℕ)
    → All IsPlainOrLong ws
    → All (λ w. w ≢ []) ws
    → prev ≢ b'/'
    → off + length (slashed ws) < path_max
    → expand 0 off prev (slashed ws ++ 0 ∷ stale) ≡ done (slashed (map rename ws))
expand-slashed [] stale off prev h n q fits = expand-end stale off prev fits
expand-slashed (w ∷ ws) stale off prev h n q fits =
    let l = length-append w (slashed ws) in
    rw (append_assoc w (slashed ws) (0 ∷ stale)) (
      expand-slash (w ++ (slashed ws ++ 0 ∷ stale)) (rename w ++ slashed (map rename ws)) off prev q
        (omega arith)
        (expand-first w ws stale (slashed (map rename ws)) (off + 1) h.0 n.0 (omega arith)
          (λ p o r b. expand-slashed ws stale o p h.1 n.1 r (omega arith))))

-- A path below a topic is installed under the base with each of its names renamed, if every
-- `dot-` name has two bytes or more behind the prefix, the topic's name is relative, and the
-- result fits the buffer; whatever stands in memory behind the path.
pub target_dst-renames :
    (base : Bytes) (c : ℕ) (cs w : Bytes) (ws : List Bytes) (stale : Bytes)
    → c ≢ b'/'
    → All IsPlainOrLong (w ∷ ws)
    → All (λ v. v ≢ []) (w ∷ ws)
    → length base + length (slashed (w ∷ ws)) < path_max
    → target_dst base (length (c ∷ cs)) ((c ∷ cs) ++ (slashed (w ∷ ws) ++ 0 ∷ stale))
      ≡ done (base ++ slashed (map rename (w ∷ ws)))
unfolding target_dst
target_dst-renames base c cs w ws stale rel h n fits =
    let l = length-append w (slashed ws) in
    let step : expand 0 (length base + 1) b'/' (w ++ (slashed ws ++ 0 ∷ stale))
        ≡ done (rename w ++ slashed (map rename ws)) =
      expand-first w ws stale (slashed (map rename ws)) (length base + 1) h.0 n.0 (omega arith)
        (λ p o r b. expand-slashed ws stale o p h.1 n.1 r (omega arith)) in
    rw
      (
        (==_ne c b'/').1 rel,
        drop-append cs (slashed (w ∷ ws) ++ 0 ∷ stale),
        append_assoc w (slashed ws) (0 ∷ stale),
        step,
      )
      refl
