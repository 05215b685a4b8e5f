-- ===== src/PulseMonitor/Fifo.antt =====
-- pulse-monitor/main.c: what holds of the queue, of the heap and of the events that came, wherever
-- the threads stand.
use mathlib.Core.List.{append-nil, append_assoc}
use overthinkin.Base.{
  ℕ, ◌==◌, Bool, true, false, not, ◌&&◌, List, ◌∷◌, [], ◌++◌, map, none, some, if◌then◌else◌, inl,
  inr, Bool-cases, ==_refl, ==_iff, ◌≡◌, ◌≢◌, refl, sym, ap, subst, ◌∙◌, arith,
}
use overthinkin.PulseMonitor.Queue.{Event, Store, update, unlinked, take_first}
use overthinkin.PulseMonitor.Linked.{Nodes, among, last, Linked, Linked-update}
use overthinkin.PulseMonitor.Loop.{
  Where, outer, locked, to_wait, asleep, woken, tested, stopping, ended, faulted, handling, freeing,
  Monitor, step_at, fault, Promised, is_served, is_asked, is_dropped,
}

-- The node that process_event has.
abbrev pub current : Where → Store → Nodes
current (handling p) s = (p, s.cells p) ∷ []
current w s = []

-- Where the nodes that are left begin.
abbrev pub first : Where → Store → ℕ
first (freeing p) s = p
first ended s = 0
first w s = s.ev_head

abbrev pub events : Nodes → List Event
events ns = map (λ n. n.1) ns

-- What a place of main says of the nodes that are left.
abbrev pub Fits : Where → Monitor → Nodes → Type 0
Fits to_wait m ns = ns ≡ []
Fits asleep m ns = ns ≡ []
Fits tested m ns = m.quit ≡ false → m.store.ev_head ≢ 0
Fits stopping m ns = m.quit ≡ true
Fits (freeing p) m ns = m.quit ≡ true
Fits ended m ns = (m.quit ≡ true) × (ns ≡ [])
Fits faulted m ns = ⊥
Fits (handling p) m ns = (p ≢ 0) × (among p ns ≡ false) × ((m.store.cells p).next ≡ 0)
Fits w m ns = Unit

abbrev pub Tail : Where → Store → Nodes → Type 0
Tail (freeing p) s ns = Unit
Tail ended s ns = Unit
Tail w s ns = s.ev_tail ≡ last ns

abbrev pub Keeps : Where → List Event → Type 0
Keeps (freeing p) dropped = Unit
Keeps ended dropped = Unit
Keeps w dropped = dropped ≡ []

pub record Inv (w : Where) (m : Monitor) (ns : Nodes) : Type 0 where
  pub linked : Linked m.store.cells (first w m.store) ns
  pub tail : Tail w m.store ns
  pub owns : (p : ℕ) → m.store.allocated p ≡ among p (current w m.store ++ ns)
  pub fits : Fits w m ns
  pub keeps : Keeps w m.dropped
  pub promised : Promised (events (current w m.store ++ ns)) m.handled m.dropped m.quit
  pub history : m.arrived ≡ (m.handled ++ m.dropped) ++ events (current w m.store ++ ns)

abbrev pub Sound : Monitor → Type 0
Sound m = (ns : Nodes) × Inv m.at m ns

-- main moves on, and nothing else changes.
pub moved :
    (w w' : Where) (q : Bool) (m : Monitor) (ns : Nodes)
    → Inv w m ns
    → (Promised (events (current w m.store ++ ns)) m.handled m.dropped m.quit
        → Promised (events (current w m.store ++ ns)) m.handled m.dropped q)
    → first w m.store ≡ first w' m.store
    → Tail w' m.store ns
    → current w m.store ≡ current w' m.store
    → Fits w' (record m { at = w'; quit = q }) ns
    → Keeps w' m.dropped
    → Inv w' (record m { at = w'; quit = q }) ns
moved w w' q m ns i g f t c x k = record {
  linked = subst (λ p. Linked m.store.cells p ns) f i.linked;
  tail = t;
  owns = λ p. i.owns p ∙ ap (λ l. among p (l ++ ns)) c;
  fits = x;
  keeps = k;
  promised = subst (λ l. Promised (events (l ++ ns)) m.handled m.dropped q) c (g i.promised);
  history = i.history ∙ ap (λ l. (m.handled ++ m.dropped) ++ events (l ++ ns)) c;
}

none-Linked : (c : ℕ → Event) (p : ℕ) (ns : Nodes) → Linked c p ns → (p == 0) ≡ true → ns ≡ []
none-Linked c p [] l h = refl
none-Linked c p (n ∷ ns) l h = ground arith

outer-Sound :
    (b : Bool) (m : Monitor) (ns : Nodes)
    → m.quit ≡ b
    → Inv outer m ns
    → Sound (record m { at = if b then stopping else locked })
outer-Sound true m ns q i =
    (ns, moved outer stopping m.quit m ns i (λ g. g) refl i.tail refl q i.keeps)
outer-Sound false m ns q i =
    (ns, moved outer locked m.quit m ns i (λ g. g) refl i.tail refl tt i.keeps)

locked-Sound :
    (b c : Bool) (m : Monitor) (ns : Nodes)
    → (m.store.ev_head == 0) ≡ b
    → m.quit ≡ c
    → Inv locked m ns
    → Sound (record m { at = if b && not c then to_wait else tested })
locked-Sound true false m ns h q i = (
  ns,
  moved locked to_wait m.quit m ns i (λ g. g) refl i.tail refl (none-Linked _ _ ns i.linked h)
      i.keeps,
)
locked-Sound true true m ns h q i =
    (ns, moved locked tested m.quit m ns i (λ g. g) refl i.tail refl (λ r. cc) i.keeps)
locked-Sound false c m ns h q i =
    (ns, moved locked tested m.quit m ns i (λ g. g) refl i.tail refl (λ r. ground arith) i.keeps)

-- What becomes of ev_tail where the first node is taken.
rest-tail :
    (c : ℕ → Event) (n : ℕ × Event) (ns : Nodes) (t : ℕ)
    → Linked c (c n.0).next ns
    → t ≡ last (n ∷ ns)
    → (if (c n.0).next == 0 then 0 else t) ≡ last ns
rest-tail c n [] t l e = rw l
rest-tail c n (m ∷ ns) t l e = ground arith

tested-Sound :
    (m : Monitor) (ns : Nodes)
    → Inv tested m ns
    → m.quit ≡ false
    → Sound (elim (take_first m.store) [
      | none ↦ fault m
      | some (ev, s) ↦ record m { store = s; at = handling ev }
    ])
unfolding take_first
tested-Sound m [] i q = absurd (i.fits q i.linked)
tested-Sound m (n ∷ ns) i q =
    let l = i.linked in
    let own : m.store.allocated n.0 ≡ true = i.owns n.0 ∙ ground arith in
    rw (l.0, own)
      (
        ns,
        record {
          linked = Linked-update m.store.cells (m.store.cells n.0).next n.0 _ ns l.3 l.4;
          tail = rest-tail m.store.cells n ns m.store.ev_tail l.4 i.tail;
          owns = λ p. i.owns p;
          fits = (l.1, l.3, rw (==_refl n.0));
          keeps = i.keeps;
          promised = rw (==_refl n.0, l.2) i.promised;
          history = rw (==_refl n.0, l.2) i.history;
        },
      )

-- An event moves from those that wait to the end of those that are done with.
after-served :
    (h d : List Event) (e : Event) (es : List Event)
    → d ≡ []
    → (h ++ d) ++ e ∷ es ≡ ((h ++ e ∷ []) ++ d) ++ es
after-served h d e es x = rw x (simp (append-nil, append_assoc))

after-dropped :
    (h d : List Event) (e : Event) (es : List Event)
    → (h ++ d) ++ e ∷ es ≡ (h ++ (d ++ e ∷ [])) ++ es
after-dropped h d e es = simp append_assoc

-- One node is given back.
owns-freed :
    (a : ℕ → Bool) (p x : ℕ) (e : Event) (ns : Nodes)
    → among p ns ≡ false
    → a x ≡ among x ((p, e) ∷ ns)
    → update p false a x ≡ among x ns
owns-freed a p x e ns h o = ground (arith, ==_iff p x)

handling-Sound :
    (p : ℕ) (m : Monitor) (ns : Nodes) → Inv (handling p) m ns → Sound (step_at (handling p) m)
unfolding step_at
handling-Sound p m ns i =
    let own : m.store.allocated p ≡ true = i.owns p ∙ ground arith in
    rw (step_at, own)
      (
        ns,
        record {
          linked = i.linked;
          tail = i.tail;
          owns = λ x. owns-freed m.store.allocated p x (m.store.cells p) ns i.fits.1 (i.owns x);
          fits = tt;
          keeps = i.keeps;
          promised = is_served (m.store.cells p) i.promised;
          history =
              i.history ∙ after-served m.handled m.dropped (m.store.cells p) (events ns) i.keeps;
        },
      )

dropped-Promised :
    {w s d : List Event} (q : Bool) (e : Event)
    → q ≡ true
    → Promised (e ∷ w) s d q
    → Promised w s (d ++ e ∷ []) q
dropped-Promised true e h p = is_dropped e p
dropped-Promised false e h p = cc

freeing-Sound :
    (p : ℕ) (m : Monitor) (ns : Nodes) → Inv (freeing p) m ns → Sound (step_at (freeing p) m)
unfolding step_at
freeing-Sound p m [] i = rw i.linked (
  [],
  record {
    linked = refl;
    tail = tt;
    owns = λ x. i.owns x;
    fits = (i.fits, refl);
    keeps = tt;
    promised = i.promised;
    history = i.history;
  },
)
freeing-Sound p m (n ∷ ns) i =
    let l = i.linked in
    let own : m.store.allocated n.0 ≡ true = i.owns n.0 ∙ ground arith in
    let off : (n.0 == 0) ≡ false = ground arith in
    rw (l.0, off, own)
      (
        ns,
        record {
          linked = l.4;
          tail = tt;
          owns = λ x. owns-freed m.store.allocated n.0 x n.1 ns l.3 (i.owns x);
          fits = i.fits;
          keeps = tt;
          promised = dropped-Promised m.quit (unlinked (m.store.cells n.0)) i.fits (
              subst (λ e. Promised (e ∷ events ns) m.handled m.dropped m.quit) (sym l.2)
                i.promised);
          history =
              i.history
              ∙ ap (λ e. (m.handled ++ m.dropped) ++ e ∷ events ns) (sym l.2)
              ∙ after-dropped m.handled m.dropped (unlinked (m.store.cells n.0)) (events ns);
        },
      )

pub step-Sound : (w : Where) (m : Monitor) (ns : Nodes) → Inv w m ns → Sound (step_at w m)
unfolding step_at
step-Sound outer m ns i = outer-Sound m.quit m ns refl i
step-Sound locked m ns i = locked-Sound _ _ m ns refl refl i
step-Sound to_wait m ns i =
    (ns, moved to_wait asleep m.quit m ns i (λ g. g) refl i.tail refl i.fits i.keeps)
step-Sound asleep m ns i =
    (ns, moved asleep asleep m.quit m ns i (λ g. g) refl i.tail refl i.fits i.keeps)
step-Sound woken m ns i =
    (ns, moved woken locked m.quit m ns i (λ g. g) refl i.tail refl tt i.keeps)
step-Sound tested m ns i = elim (Bool-cases m.quit) [
  | inl q ↦ rw q (ns, moved tested stopping true m ns i is_asked refl i.tail refl refl i.keeps)
  | inr q ↦ rw q (tested-Sound m ns i q)
]
step-Sound (handling p) m ns i = handling-Sound p m ns i
step-Sound stopping m ns i =
    (ns, moved stopping (freeing m.store.ev_head) m.quit m ns i (λ g. g) refl tt refl i.fits tt)
step-Sound (freeing p) m ns i = freeing-Sound p m ns i
step-Sound ended m ns i = (ns, moved ended ended m.quit m ns i (λ g. g) refl tt refl i.fits tt)
step-Sound faulted m ns i = absurd i.fits
