-- ===== src/Applets/Refreshed.antt =====
-- check-my-alsa/app-jack.c: what an event prints of the controls.
use overthinkin.Base.{
  ℕ, ◌++◌, Bool, true, false, not, List, ◌∷◌, [], Option, none, some, Bytes, same, same_comm, All,
  if◌then◌else◌, ◌≡◌, refl, ◌∙◌, ap, sym, subst, ℤ,
}
use overthinkin.Applets.Jack.{
  Values, Read, failed, got, Bound, Line, CtlEvent, Outcome, refreshed, told, refresh,
}
use overthinkin.Applets.Lines.{
  Known, say, after, Chained, after-++, Chained-++, say-same, say-other, Apart,
}

module _ (values : Values) where
  open values use {Value, differs, plugged}

  abbrev pub names : List (Bound Value) → List Bytes
  names [] = []
  names (b ∷ bs) = b.name ∷ names bs

  -- What was printed last of a control is what it says, and is kept of it.
  abbrev pub Heard : Known → Bound Value → Type 0
  Heard k b = k b.name ≡ some b.prev_plugged

  -- The value of a control after a read, if its event matches it.
  abbrev pub heard_of : CtlEvent Value → ℕ → Value → Value
  heard_of ev n v =
      let w = elim (ev.reads n) as (λ _. Value) [ failed e ↦ v | got w ↦ w ] in
      if not (ev.matches n) then v else w

  module _ (P : Outcome Value → Value → Type 0) (ev : CtlEvent Value) (b : Bound Value)
      (bs : List (Bound Value)) where
    pub refresh-split :
        P (record (refresh values ev bs) { bound = b ∷ (refresh values ev bs).bound }) b.value
        → ((e : ℤ) → P (record { error = some e; lines = []; bound = b ∷ bs }) b.value)
        → ((v : Value)
            → P
                (record {
                  error = (refresh values ev bs).error;
                  lines = told values v b ++ (refresh values ev bs).lines;
                  bound = refreshed values v b ∷ (refresh values ev bs).bound;
                })
                v)
        → P (refresh values ev (b ∷ bs)) (heard_of ev b.numid b.value)
    unfolding refresh
    refresh-split p q r = by_match (ev.matches b.numid) (ev.reads b.numid)
      where
        by_match :
            (m : Bool) (a : Read Value)
            → P
                (if not m
                  then record (refresh values ev bs) { bound = b ∷ (refresh values ev bs).bound }
                  else elim a [
                    | failed e ↦ record { error = some e; lines = []; bound = b ∷ bs }
                    | got v ↦ record {
                      error = (refresh values ev bs).error;
                      lines = told values v b ++ (refresh values ev bs).lines;
                      bound = refreshed values v b ∷ (refresh values ev bs).bound;
                    }
                  ])
                (if not m
                  then b.value
                  else (elim a as (λ _. Value) [ failed e ↦ b.value | got w ↦ w ]))
        by_match false a = p
        by_match true (failed e) = q e
        by_match true (got v) = r v

  -- A read of a control, with what is printed of it.
  pub read-split :
      (Q : List Line → Bound Value → Type 0) (v : Value) (b : Bound Value)
      → Q
          (record { name = b.name; was = some b.prev_plugged; is = plugged v } ∷ [])
          (record b { value = v; prev_plugged = plugged v })
      → Q [] (record b { value = v })
      → Q (told values v b) (refreshed values v b)
  read-split Q v b p q = by_difference (differs b.value v)
    where
      by_difference :
          (d : Bool)
          → Q
              (if d
                then record { name = b.name; was = some b.prev_plugged; is = plugged v } ∷ []
                else [])
              (if d
                then record b { value = v; prev_plugged = plugged v }
                else record b { value = v })
      by_difference true = p
      by_difference false = q

  -- Nothing is printed of a control that is not there.
  silent :
      (ev : CtlEvent Value) (n : Bytes) (bs : List (Bound Value)) (k : Known)
      → All (λ m. same n m ≡ false) (names bs)
      → after (refresh values ev bs).lines k n ≡ k n
  unfolding refresh
  silent ev n [] k h = refl
  silent ev n (b ∷ bs) k h =
      refresh-split (λ o w. after o.lines k n ≡ k n) ev b bs (silent ev n bs k h.1) (λ e. refl)
        (λ v.
          read-split (λ ls b'. after (ls ++ (refresh values ev bs).lines) k n ≡ k n) v b
            (let l : Line = record { name = b.name; was = some b.prev_plugged; is = plugged v } in
              silent ev n bs (say l k) h.1 ∙ say-other l k n (same_comm b.name n ∙ h.0))
            (silent ev n bs k h.1))

  names-refresh :
      (ev : CtlEvent Value) (bs : List (Bound Value))
      → names (refresh values ev bs).bound ≡ names bs
  unfolding refresh
  names-refresh ev [] = refl
  names-refresh ev (b ∷ bs) =
      let rest = ap (λ ns. b.name ∷ ns) (names-refresh ev bs) in
      refresh-split (λ o w. names o.bound ≡ names (b ∷ bs)) ev b bs rest (λ e. refl)
        (λ v.
          read-split (λ ls b'. names (b' ∷ (refresh values ev bs).bound) ≡ names (b ∷ bs)) v b rest
            rest)

  Heard-say :
      (l : Line) (k : Known) (bs : List (Bound Value))
      → All (λ m. same l.name m ≡ false) (names bs)
      → All (Heard k) bs
      → All (Heard (say l k)) bs
  Heard-say l k [] a h = _
  Heard-say l k (b ∷ bs) a h = (say-other l k b.name a.0 ∙ h.0, Heard-say l k bs a.1 h.1)

  -- The lines follow one another, and what was printed last is what is kept of each control.
  abbrev pub Tells : Known → Outcome Value → Type 0
  Tells k o = Chained k o.lines × All (Heard (after o.lines k)) o.bound

  refresh-Tells :
      (ev : CtlEvent Value) (bs : List (Bound Value)) (k : Known)
      → Apart (names bs)
      → All (Heard k) bs
      → Tells k (refresh values ev bs)
  unfolding refresh
  refresh-Tells ev [] k a h = (tt, tt)
  refresh-Tells ev (b ∷ bs) k a h =
      let rest = refresh-Tells ev bs k a.1 h.1 in
      let still = silent ev b.name bs k a.0 ∙ h.0 in
      refresh-split (λ o w. Tells k o) ev b bs (rest.0, (still, rest.1)) (λ e. (tt, h))
        (λ v.
          let l : Line = record { name = b.name; was = some b.prev_plugged; is = plugged v } in
          let next = refresh-Tells ev bs (say l k) a.1 (Heard-say l k bs a.0 h.1) in
          read-split
            (λ ls b'. Tells k (record {
              error = (refresh values ev bs).error;
              lines = ls ++ (refresh values ev bs).lines;
              bound = b' ∷ (refresh values ev bs).bound;
            }))
            v b ((sym h.0, next.0), (silent ev b.name bs (say l k) a.0 ∙ say-same l k, next.1))
            (rest.0, (still, rest.1)))

  -- The same, and the names stay different.
  abbrev pub Orderly : Known → Outcome Value → Type 0
  Orderly k o = Tells k o × Apart (names o.bound)

  pub refresh-Orderly :
      (ev : CtlEvent Value) (bs : List (Bound Value)) (k : Known)
      → Apart (names bs)
      → All (Heard k) bs
      → Orderly k (refresh values ev bs)
  refresh-Orderly ev bs k a h =
      (refresh-Tells ev bs k a h, subst Apart (sym (names-refresh ev bs)) a)

  -- One part behind another.
  pub then-Orderly :
      (k : Known) (now rest : Outcome Value)
      → Orderly k now
      → Orderly (after now.lines k) rest
      → Orderly k
          (elim now.error [ some e ↦ now | none ↦ record rest { lines = now.lines ++ rest.lines } ])
  then-Orderly k now rest p q = by_error now.error
    where
      both : Orderly k (record rest { lines = now.lines ++ rest.lines })
      both = (
        (
          Chained-++ now.lines rest.lines k p.0.0 q.0.0,
          subst (λ k'. All (Heard k') rest.bound) (sym (after-++ now.lines rest.lines k)) q.0.1,
        ),
        q.1,
      )

      by_error :
          (e : Option ℤ)
          → Orderly k
              (elim e [ some z ↦ now | none ↦ record rest { lines = now.lines ++ rest.lines } ])
      by_error none = both
      by_error (some z) = p
