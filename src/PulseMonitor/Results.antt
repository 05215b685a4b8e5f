-- ===== src/PulseMonitor/Results.antt =====
-- pulse-monitor/main.c: what a query tells, from what the server answers.
use mathlib.Core.Option
use overthinkin.PulseMonitor.Lines.{hand_back}
use overthinkin.Base.{
  ℕ, zero, suc, ◌+◌, ◌%◌, ◌^◌, ◌<◌, Bool, true, false, not, ◌||◌, ◌&&◌, List, ◌∷◌, [], ◌++◌, map,
  Option, none, some, codes, same, length, All, ℤ, pos, negsuc, ◌==ℤ◌, Os, if◌then◌else◌, ◌≡◌, ◌≢◌,
  refl, sym, ap, subst, ◌∙◌, after_if, arith,
}
use overthinkin.PulseMonitor.Calls.{
  PulseAudio, Reply, Profile, Call, lock, unlock, wait, get_sink_info, Answer, History, pure, call,
  go_on, ◌>>=◌, ◌>>◌,
}
use overthinkin.PulseMonitor.Query.{
  Query, SinkData, sink_data, no_sink, on_reply, deliver, await, run_query, sk_cb, query_sink,
  count_one, count_profiles,
}

-- The latest pointer that is not null.
abbrev pub latest : {I : Type 0} → List (Option I) → Option I → Option I
latest [] o = o
latest (none ∷ os) o = latest os o
latest (some i ∷ os) o = latest os (some i)

-- What the end says: an error takes everything back.
abbrev pub unless_error : {A : Type 0} → ℤ → Option A → Option A
unless_error (negsuc n) o = none
unless_error (pos n) o = o

abbrev outcome : {D : Type 0} → Query D → Option D
outcome q = if q.success then some q.d else none

-- The replies before the end.
abbrev pub NotEnd : Reply → Type 0
NotEnd r = r.eol ≡ pos 0

abbrev filled : {I D : Type 0} → (I → D) → Option I → D → Query D
filled fill none d = record { done = false; success = false; d = d }
filled fill (some i) d = record { done = false; success = true; d = fill i }

module _ {I D : Type 0} (fill : I → D) (get : Reply → Option I) where
  abbrev Told : List Reply → ℤ → Option I → Query D → Type 0
  Told rs e o q =
      (q.done ≡ true) × (outcome q ≡ unless_error e (Option.map fill (latest (map get rs) o)))

  end-Told :
      (e : ℤ) (i o : Option I) (d : D)
      → (e ≡ pos 0 → ⊥)
      → Told [] e o (on_reply fill e i (filled fill o d))
  unfolding on_reply
  end-Told (negsuc n) i none d h = (refl, refl)
  end-Told (negsuc n) i (some j) d h = (refl, refl)
  end-Told (pos (suc n)) i none d h = (refl, refl)
  end-Told (pos (suc n)) i (some j) d h = (refl, refl)
  end-Told (pos zero) i o d h = absurd (h refl)

  filled-on_reply :
      (i o : Option I) (d : D)
      → on_reply fill (pos 0) i (filled fill o d) ≡ filled fill (latest (i ∷ []) o) d
  unfolding on_reply
  filled-on_reply none o d = refl
  filled-on_reply (some i) none d = refl
  filled-on_reply (some i) (some j) d = refl

  latest-cons :
      (i o : Option I) (l : List (Option I)) → latest (i ∷ l) o ≡ latest l (latest (i ∷ []) o)
  latest-cons none o l = refl
  latest-cons (some i) o l = refl

  deliver-Told :
      (rs : List Reply) (r : Reply) (o : Option I) (d : D)
      → All NotEnd rs
      → (r.eol ≡ pos 0 → ⊥)
      → Told rs r.eol o
          (deliver (λ r'. on_reply fill r'.eol (get r')) (rs ++ r ∷ []) (filled fill o d))
  unfolding deliver
  deliver-Told [] r o d a e = end-Told r.eol (get r) o d e
  deliver-Told (x ∷ xs) r o d a e =
      let cb : Reply → Query D → Query D = λ r'. on_reply fill r'.eol (get r') in
      let step : cb x (filled fill o d) ≡ filled fill (latest (get x ∷ []) o) d =
        ap (λ e'. on_reply fill e' (get x) (filled fill o d)) a.0 ∙ filled-on_reply (get x) o d in
      subst (λ q. Told (x ∷ xs) r.eol o (deliver cb (xs ++ r ∷ []) q)) (sym step)
        (rw (latest-cons (get x) o (map get xs))
          (deliver-Told xs r (latest (get x ∷ []) o) d a.1 e))

-- A wait that brings the end.
await-once :
    {D : Type 0} (cb : Reply → Query D → Query D) (f : ℕ) (d : D) (os : Os Call Answer)
    (t : History)
    → (deliver cb (os t wait).replies (filled {I = D} (λ x. x) none d)).done ≡ true
    → await (suc (suc f)) cb (filled {I = D} (λ x. x) none d) os t ≡ (
      some (deliver cb (os t wait).replies (filled {I = D} (λ x. x) none d)),
      (wait, os t wait) ∷ t,
    )
unfolding await
await-once {D} cb f d os t h =
    let q : Query D = deliver cb (os t wait).replies (filled {I = D} (λ x. x) none d) in
    after_if (λ o. o ≡ (some q, (wait, os t wait) ∷ t)) os ((wait, os t wait) ∷ t) q.done (pure q)
      (call wait >>= λ a. await f cb (deliver cb a.replies q)) (λ r. refl) (λ r. cc)

-- The state of the calls once the server has been asked.
abbrev pub asked : Call → Os Call Answer → History → History
asked get os t = (get, os ((lock, os t lock) ∷ t) get) ∷ (lock, os t lock) ∷ t

-- Once the server has been asked, and where the first wait brings the end after any number of
-- replies, query_sink tells what sk_cb takes from the latest of them that had a pointer, and
-- nothing if none had one or if the end is an error.
pub query_sink-result :
    (os : Os Call Answer) (t : History) (pa : PulseAudio) (f idx : ℕ) (rs : List Reply) (r : Reply)
    → (os ((lock, os t lock) ∷ t) (get_sink_info idx)).null ≡ false
    → (os (asked (get_sink_info idx) os t) wait).replies ≡ rs ++ r ∷ []
    → All NotEnd rs
    → r.eol ≢ pos 0
    → (query_sink pa (suc (suc f)) idx os t).0
      ≡ some (unless_error r.eol (Option.map (sink_data pa) (latest (map (λ r'. r'.sink) rs) none)))
unfolding query_sink run_query sk_cb
query_sink-result os t pa f idx rs r nn first a e =
    let told = deliver-Told (sink_data pa) (λ r'. r'.sink) rs r none no_sink a e in
    let t' = asked (get_sink_info idx) os t in
    let blank : Query SinkData = record { done = false; success = false; d = no_sink } in
    let over : (deliver (sk_cb pa) (os t' wait).replies blank).done ≡ true =
      subst (λ l. (deliver (sk_cb pa) l blank).done ≡ true) (sym first) told.0 in
    let X = unless_error r.eol (Option.map (sink_data pa) (latest (map (λ r'. r'.sink) rs) none)) in
    let out : outcome (deliver (sk_cb pa) (os t' wait).replies blank) ≡ X =
      subst (λ l. outcome (deliver (sk_cb pa) l blank) ≡ X) (sym first) told.1 in
    after_if (λ o. o.0 ≡ some X) os t' (os ((lock, os t lock) ∷ t) (get_sink_info idx)).null
      (call unlock >> pure none) (await (suc (suc f)) (sk_cb pa) blank >>= hand_back) (λ h. cc)
      (λ h.
        subst (λ o. (go_on hand_back os o).0 ≡ some X)
          (sym (await-once (sk_cb pa) f no_sink os t' over)) (ap some out))

abbrev pub keep : {A : Type 0} → (A → Bool) → List A → List A
keep f [] = []
keep f (x ∷ xs) = if f x then x ∷ keep f xs else keep f xs

-- Whether the monitor counts a profile: it is available, and neither off nor pro-audio.
abbrev pub counts : Profile → Bool
counts p =
    not (p.available ==ℤ pos 0)
    && not (same p.name (codes "off"))
    && not (same p.name (codes "pro-audio"))

count_one-counts :
    (p : Profile) (n : ℕ) → count_one p n ≡ (if counts p then (n + 1) % 2 ^ 32 else n)
unfolding count_one
count_one-counts p n =
    split (p.available ==ℤ pos 0) (same p.name (codes "off")) (same p.name (codes "pro-audio"))
  where
    split :
        (a b c : Bool)
        → (if a then n else if b || c then n else (n + 1) % 2 ^ 32)
          ≡ (if not a && not b && not c then (n + 1) % 2 ^ 32 else n)
    split true b c = refl
    split false true c = refl
    split false false true = refl
    split false false false = refl

count-keep :
    (b : Bool) (p : Profile) (n : ℕ) (ps : List Profile)
    → n + length (if b then p ∷ ps else ps) < 2 ^ 32
    → (if b then (n + 1) % 2 ^ 32 else n) + length ps ≡ n + length (if b then p ∷ ps else ps)
count-keep true p n ps h = omega arith
count-keep false p n ps h = refl

count-from :
    (ps : List Profile) (n : ℕ)
    → n + length (keep counts ps) < 2 ^ 32
    → count_profiles ps n ≡ n + length (keep counts ps)
unfolding count_profiles
count-from [] n h = omega arith
count-from (p ∷ ps) n h =
    let e = count-keep (counts p) p n (keep counts ps) h in
    let one = count_one-counts p n in
    let e' : count_one p n + length (keep counts ps) ≡ n + length (keep counts (p ∷ ps)) =
      rw one e in
    count-from ps (count_one p n) (omega (arith, e')) ∙ e'

-- The count of a card is the number of its profiles that are available, and neither off nor
-- pro-audio, if there are less than 2 ^ 32 of them.
count_profiles-keep :
    (ps : List Profile)
    → length (keep counts ps) < 2 ^ 32
    → count_profiles ps 0 ≡ length (keep counts ps)
count_profiles-keep ps h = count-from ps 0 (omega arith) ∙ omega arith
