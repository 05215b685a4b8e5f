-- ===== src/Applets/Tally.antt =====
-- check-my-alsa/app-xrun.c: what the counters say of the hooks that were called.
use overthinkin.Base.{
  ℕ, suc, ◌+◌, ◌-◌, ◌^◌, ◌≤◌, ◌<◌, ◌==◌, Bool, true, false, List, ◌∷◌, [], u64, total, total-bump,
  length-bump, length, if◌then◌else◌, ◌≡◌, refl, sym, ap, subst, ◌∙◌, arith,
}
use overthinkin.Applets.Xrun.{
  XrunStats, no_xruns, Hook, cycle, xrun, bucket_of, count_interval, on_cycle, on_xrun, on_hook,
  on_hooks,
}

if-both {ℓ ℓ'} :
    {A : Type ℓ} (P : A → Type ℓ') (b : Bool) {x y : A} → P x → P y → P (if b then x else y)
if-both P true p q = p
if-both P false p q = q

abbrev pub xruns : List Hook → ℕ
xruns [] = 0
xruns (cycle now expected ∷ hs) = xruns hs
xruns (xrun now missing ∷ hs) = suc (xruns hs)

abbrev pub missing_of : List Hook → ℕ
missing_of [] = 0
missing_of (cycle now expected ∷ hs) = missing_of hs
missing_of (xrun now missing ∷ hs) = missing + missing_of hs

-- What the counters are to say after some hooks: of `calls` in all, of which `count` told of an xrun,
-- with `frames` that were lost.
pub record Tally (calls count frames : ℕ) (s : XrunStats) : Type 0 where
  pub at_most : s.callback_count + s.xrun_count ≤ calls
  pub counted : s.xrun_count ≡ count
  pub lost : s.xrun_frames ≡ u64 frames
  pub in_buckets : total s.histogram ≡ s.callback_count
  pub buckets : length s.histogram ≡ 128

bucket-lt : (interval expected : ℕ) → bucket_of interval expected < 128
bucket-lt interval expected = ground arith

module _ (n c f : ℕ) (s : XrunStats) (l : n < 2 ^ 64 - 1) (t : Tally n c f s) where
  count_interval-Tally :
      (interval expected now : ℕ)
      → Tally (suc n) c f (count_interval interval expected (record s { last_callback_ns = now }))
  unfolding count_interval
  count_interval-Tally interval expected now =
      let at = t.at_most in
      let ins = t.in_buckets in
      record {
        at_most = omega arith;
        counted = t.counted;
        lost = t.lost;
        in_buckets =
            total-bump (bucket_of interval expected) s.histogram
              (subst (λ k. bucket_of interval expected < k) (sym t.buckets)
                (bucket-lt interval expected))
              (omega arith)
            ∙ ap suc ins
            ∙ omega arith;
        buckets = length-bump (bucket_of interval expected) s.histogram ∙ t.buckets;
      }

  on_cycle-Tally : (now expected : ℕ) → Tally (suc n) c f (on_cycle now expected s)
  unfolding on_cycle
  on_cycle-Tally now expected =
      if-both (Tally (suc n) c f) (s.last_callback_ns == 0)
        (let at = t.at_most in
          record {
            at_most = omega arith;
            counted = t.counted;
            lost = t.lost;
            in_buckets = t.in_buckets;
            buckets = t.buckets;
          })
        (count_interval-Tally (u64 (now + 2 ^ 64 - s.last_callback_ns)) expected now)

  on_xrun-Tally : (now missing : ℕ) → Tally (suc n) (suc c) (f + missing) (on_xrun now missing s)
  unfolding on_xrun
  on_xrun-Tally now missing =
      let at = t.at_most in
      let co = t.counted in
      let lo = t.lost in
      record {
        at_most = omega arith;
        counted = omega arith;
        lost = omega arith;
        in_buckets = t.in_buckets;
        buckets = t.buckets;
      }

Tally-as :
    {n n' c c' f f' : ℕ} {s : XrunStats}
    → n ≡ n'
    → c ≡ c'
    → f ≡ f'
    → Tally n c f s
    → Tally n' c' f' s
Tally-as {n} {n'} {c} {c'} {f} {f'} {s} p q r t =
    let t1 : Tally n c f' s = subst (λ k. Tally n c k s) r t in
    let t2 : Tally n c' f' s = subst (λ k. Tally n k f' s) q t1 in subst (λ k. Tally k c' f' s) p t2

on_hooks-Tally :
    (hs : List Hook) (n c f : ℕ) (s : XrunStats)
    → n + length hs < 2 ^ 64
    → Tally n c f s
    → Tally (n + length hs) (c + xruns hs) (f + missing_of hs) (on_hooks hs s)
unfolding on_hooks on_hook
on_hooks-Tally [] n c f s l t = Tally-as (omega arith) (omega arith) (omega arith) t
on_hooks-Tally (cycle now expected ∷ hs) n c f s l t = Tally-as (omega arith) refl refl (
    on_hooks-Tally hs (suc n) c f (on_cycle now expected s) (omega arith)
      (on_cycle-Tally n c f s (omega arith) t now expected))
on_hooks-Tally (xrun now missing ∷ hs) n c f s l t =
    Tally-as (omega arith) (omega arith) (omega arith) (
      on_hooks-Tally hs (suc n) (suc c) (f + missing) (on_xrun now missing s) (omega arith)
        (on_xrun-Tally n c f s (omega arith) t now missing))

-- The counters of a run, after any sequence of less than 2 ^ 64 calls of the hooks: there are as
-- many xruns as were told of, the lost frames are their sum, modulo 2 ^ 64, and the buckets of the
-- histogram hold each interval that was counted, once; no interval is outside of the 128 buckets.
pub on_hooks-counts :
    (now : ℕ) (hs : List Hook)
    → length hs < 2 ^ 64
    → Tally (length hs) (xruns hs) (missing_of hs) (on_hooks hs (no_xruns now))
unfolding no_xruns
on_hooks-counts now hs l = Tally-as (omega arith) (omega arith) (omega arith) (
    on_hooks-Tally hs 0 0 0 (no_xruns now) (omega arith) (record {
      at_most = omega arith;
      counted = refl;
      lost = refl;
      in_buckets = refl;
      buckets = refl;
    }))
