-- ===== src/PulseMonitor/Lines.antt =====
-- pulse-monitor/main.c: process_event ends, prints one line, and uses the lock of the main loop as
-- libpulse asks.
use overthinkin.Base.{
  ℕ, zero, suc, ◌+◌, ◌≤◌, Bool, true, false, ◌||◌, List, ◌∷◌, [], Option, none, some, ℤ, pos,
  negsuc, Os, if◌then◌else◌, after_if, ◌≡◌, refl, subst, ◌∙◌, arith,
}
use overthinkin.PulseMonitor.Calls.{
  Reply, Call, Answer, Piece, newline, lock, unlock, wait, unref, print, subscribe, get_sink_info,
  get_source_info, get_sink_input_info, get_source_output_info, get_card_info, get_client_info,
  get_module_info, get_server_info, History, M, pure, go_on, ◌>>=◌, ◌>>◌, call, printf,
}
use overthinkin.PulseMonitor.Query.{Query, on_reply, deliver, await, run_query}

-- The lines that are printed.
abbrev pub after_end : Call → ℕ → ℕ
after_end (print newline) n = suc n
after_end c n = n

abbrev pub lines : History → ℕ
lines [] = 0
lines ((c, a) ∷ t) = after_end c (lines t)

-- Whether the lock of the main loop is held; `none` once it is taken twice, given back unheld, or
-- not held where a query is asked or a wait begins.
pub data Usage : Type 0 where
  takes gives needs ignores : Usage

abbrev pub usage : Call → Usage
usage lock = takes
usage unlock = gives
usage wait = needs
usage (get_sink_info i) = needs
usage (get_source_info i) = needs
usage (get_sink_input_info i) = needs
usage (get_source_output_info i) = needs
usage (get_card_info i) = needs
usage (get_client_info i) = needs
usage (get_module_info i) = needs
usage get_server_info = needs
usage subscribe = needs
usage c = ignores

abbrev pub after_use : Usage → Option Bool → Option Bool
after_use takes (some false) = some true
after_use gives (some true) = some false
after_use needs (some true) = some true
after_use ignores s = s
after_use u s = none

abbrev pub lock_state : History → Option Bool
lock_state [] = some false
lock_state ((c, a) ∷ t) = after_use (usage c) (lock_state t)

-- A query ends after at most n waits that do not end it: once the latest n calls are waits, the
-- next is answered by the end of the query, or by an error.
abbrev pub is_waiting : ℕ → History → Bool
is_waiting zero t = true
is_waiting (suc k) [] = false
is_waiting (suc k) ((wait, a) ∷ t) = is_waiting k t
is_waiting (suc k) (c ∷ t) = false

abbrev pub ends_query : ℤ → Bool
ends_query (pos zero) = false
ends_query e = true

abbrev pub has_end : List Reply → Bool
has_end [] = false
has_end (r ∷ rs) = ends_query r.eol || has_end rs

abbrev pub Answers : ℕ → Os Call Answer → Type 0
Answers n os = (t : History) → is_waiting n t ≡ true → has_end (os t wait).replies ≡ true

-- A callback that says so when the query ends, and does not take that back.
abbrev pub Finishes : {D : Type 0} → (Reply → Query D → Query D) → Type 0
Finishes {D} cb =
    (r : Reply) (q : Query D) → (ends_query r.eol || q.done) ≡ true → (cb r q).done ≡ true

pub on_reply-done :
    {I D : Type 0} (fill : I → D) (e : ℤ) (i : Option I) (q : Query D)
    → (ends_query e || q.done) ≡ true
    → (on_reply fill e i q).done ≡ true
unfolding on_reply
on_reply-done fill (negsuc n) i q h = refl
on_reply-done fill (pos (suc n)) i q h = refl
on_reply-done fill (pos zero) none q h = h
on_reply-done fill (pos zero) (some i) q h = h

or_moves :
    (a b c d : Bool) → ((a || b) || c) ≡ true → ((a || c) ≡ true → d ≡ true) → (b || d) ≡ true
or_moves a true c d h k = refl
or_moves true false c d h k = k refl
or_moves false false c d h k = k h

deliver-done :
    {D : Type 0} (cb : Reply → Query D → Query D) (rs : List Reply) (q : Query D)
    → Finishes cb
    → (has_end rs || q.done) ≡ true
    → (deliver cb rs q).done ≡ true
unfolding deliver
deliver-done cb [] q f h = h
deliver-done cb (r ∷ rs) q f h = deliver-done cb rs (cb r q) f (or_moves _ _ _ _ h (f r q))

-- What the outcome of a program is to be: it ends, has printed `n` lines, and the lock is as `s` says.
abbrev pub Calm : {A : Type 0} → ℕ → Bool → Option A × History → Type 0
Calm {A} n s o = (a : A) × (o.0 ≡ some a) × (lines o.1 ≡ n) × (lock_state o.1 ≡ some s)

-- A program that prints no line and leaves the lock as it was, unheld.
pub record Quiet {A : Type 0} (os : Os Call Answer) (m : M A) : Type 0 where
  pub runs : (n : ℕ) (t : History) → lines t ≡ n → lock_state t ≡ some false → Calm n false (m os t)

pub go-Calm :
    {A B : Type 0} (os : Os Call Answer) (f : A → M B) (n m : ℕ) (b c : Bool)
    (o : Option A × History)
    → Calm n b o
    → ((a : A) (t : History) → lines t ≡ n → lock_state t ≡ some b → Calm m c (f a os t))
    → Calm m c (go_on f os o)
go-Calm os f n m b c (none, t) h k = cc
go-Calm os f n m b c (some a, t) h k = k a t h.2 h.3

module _ {A B : Type 0} {os : Os Call Answer} where
  pub Quiet-bind :
      {m : M A} {f : A → M B} → Quiet os m → ((a : A) → Quiet os (f a)) → Quiet os (m >>= f)
  Quiet-bind {m} {f} h k = record {
    runs = λ n t e l. go-Calm os f n n false false (m os t) (h.runs n t e l) (λ a. (k a).runs n);
  }

  pub also : {m : M A} {k : M B} → Quiet os m → Quiet os k → Quiet os (m >> k)
  also h k = Quiet-bind h (λ a. k)

module _ {A : Type 0} {os : Os Call Answer} where
  pub Quiet-if : (b : Bool) {m k : M A} → Quiet os m → Quiet os k → Quiet os (if b then m else k)
  Quiet-if true h j = h
  Quiet-if false h j = j

  pub Quiet-pure : (a : A) → Quiet os (pure a)
  Quiet-pure a = record { runs = λ n t e l. (a, refl, e, l) }

pub Quiet-printf :
    {os : Os Call Answer} (p : Piece) → ((n : ℕ) → after_end (print p) n ≡ n) → Quiet os (printf p)
Quiet-printf p h = record { runs = λ n t e l. (_, refl, h (lines t) ∙ e, l) }

-- The end of a query.
abbrev pub hand_back : {D : Type 0} → Query D → M (Option D)
hand_back q = call unlock >> call unref >> pure (if q.success then some q.d else none)

module _ {D : Type 0} (os : Os Call Answer) (cb : Reply → Query D → Query D) where
  -- One round of the wait.
  await-if :
      (f : ℕ) (q : Query D) (t : History)
      → lock_state t ≡ some true
      → (q.done ≡ false
          → Calm
              (lines t)
              true
              (await f cb (deliver cb (os t wait).replies q) os ((wait, os t wait) ∷ t)))
      → Calm (lines t) true (await (suc f) cb q os t)
  unfolding await
  await-if f q t l k =
      after_if (Calm (lines t) true) os t q.done (pure q)
        (call wait >>= λ a. await f cb (deliver cb a.replies q)) (λ h. (q, refl, refl, l)) k

  module _ (n : ℕ) (answers : Answers n os) (finishes : Finishes cb) where
    await-Calm :
        (j k f : ℕ) (q : Query D) (t : History)
        → is_waiting k t ≡ true
        → k + j ≡ n
        → j ≤ f
        → lock_state t ≡ some true
        → Calm (lines t) true (await (suc (suc f)) cb q os t)
    await-Calm zero k f q t w e h l = await-if (suc f) q t l (λ h.
        let a = os t wait in
        let same : is_waiting n t ≡ true = subst (λ i. is_waiting i t ≡ true) (omega arith) w in
        let ends : (has_end a.replies || q.done) ≡ true = rw (answers t same) refl in
        let over = deliver-done cb a.replies q finishes ends in
        await-if f (deliver cb a.replies q) ((wait, a) ∷ t) (rw l) (λ h'. cc))
    await-Calm (suc j) k zero q t w e h l = absurd (omega arith)
    await-Calm (suc j) k (suc f) q t w e h l = await-if (suc (suc f)) q t l (λ r.
        await-Calm j (suc k) f (deliver cb (os t wait).replies q) ((wait, os t wait) ∷ t) w
          (omega arith) (omega arith) (rw l))

    -- A query ends, prints nothing, and gives the lock back.
    pub run_query-Quiet :
        (f : ℕ) (get : Call) (blank : D)
        → n + 2 ≤ f
        → usage get ≡ needs
        → ((m : ℕ) → after_end get m ≡ m)
        → Quiet os (run_query f get blank cb)
    unfolding run_query
    run_query-Quiet zero get blank le u pr = absurd (omega arith)
    run_query-Quiet (suc zero) get blank le u pr = absurd (omega arith)
    run_query-Quiet (suc (suc f)) get blank le u pr = record {
      runs = λ m t e l.
          let o = os t lock in
          let a = os ((lock, o) ∷ t) get in
          let t' : History = (get, a) ∷ (lock, o) ∷ t in
          let held : lock_state t' ≡ some true = rw (u, l) in
          let same : lines t' ≡ m = pr (lines t) ∙ e in
          let q : Query D = record { done = false; success = false; d = blank } in
          after_if (Calm m false) os t' a.null (call unlock >> pure none)
            (await (suc (suc f)) cb q >>= hand_back) (λ h. (none, refl, same, rw held))
            (λ h.
              go-Calm os hand_back (lines t') m true false (await (suc (suc f)) cb q os t')
                (await-Calm n 0 f q t' refl (omega arith) (omega arith) held)
                (λ q' t'' e' l'. (_, refl, e' ∙ same, rw l')));
    }
