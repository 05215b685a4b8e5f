-- ===== src/PulseMonitor/Kept.antt =====
-- pulse-monitor/main.c: what holds of the queue, of the heap and of the events is kept by each step
-- of main, of the callback and of the signal handler.
use mathlib.Core.List.{append_assoc, map-append}
use overthinkin.Base.{
  ℕ, ◌==◌, Bool, true, false, ◌||◌, List, ◌∷◌, [], ◌++◌, inl, inr, Bool-cases, ◌≡◌, refl, sym, ap,
  subst, ◌∙◌, arith,
}
use overthinkin.PulseMonitor.Queue.{Event, Store, unlinked}
use overthinkin.PulseMonitor.Linked.{
  Nodes, among, last, Linked, among_off, among-append, among-snoc, ==_flip,
}
use overthinkin.PulseMonitor.Arrivals.{Appended, sub_cb-Appended, sub_cb-null}
use overthinkin.PulseMonitor.Fifo.{
  Inv, Sound, Fits, Tail, Keeps, current, first, events, moved, step-Sound,
}
use overthinkin.PulseMonitor.Loop.{
  Where, outer, locked, to_wait, asleep, woken, tested, stopping, ended, faulted, handling, freeing,
  Monitor, signal, lets_in, arrive, sighandler, started, Step, main_moves, event_comes,
  signal_comes, wakes_up, Reach, start, later, Promised, nothing, comes, is_asked,
}

-- Where sub_cb can run, the queue is ev_head's.
open-Linked :
    (w : Where) (m : Monitor) (ns : Nodes)
    → lets_in w ≡ true
    → Inv w m ns
    → Linked m.store.cells m.store.ev_head ns × (m.store.ev_tail ≡ last ns)
open-Linked outer m ns h i = (i.linked, i.tail)
open-Linked asleep m ns h i = (i.linked, i.tail)
open-Linked woken m ns h i = (i.linked, i.tail)
open-Linked stopping m ns h i = (i.linked, i.tail)
open-Linked (handling p) m ns h i = (i.linked, i.tail)
open-Linked faulted m ns h i = absurd i.fits
open-Linked locked m ns h i = cc
open-Linked to_wait m ns h i = cc
open-Linked tested m ns h i = cc
open-Linked (freeing p) m ns h i = cc
open-Linked ended m ns h i = cc

or_right : (a b c : Bool) → c ≡ (a || b) → b ≡ true → c ≡ true
or_right a true c h e = ground arith
or_right a false c h e = cc

queue-owned :
    (w : Where) (s : Store) (ns : Nodes) (a : ℕ → Bool)
    → ((x : ℕ) → a x ≡ among x (current w s ++ ns))
    → (x : ℕ) → among x ns ≡ true
    → a x ≡ true
queue-owned w s ns a o x h = or_right _ _ (a x) (o x ∙ among-append x (current w s) ns) h

or_turn : (a b c : Bool) → (c || (a || b)) ≡ (a || (b || (c || false)))
or_turn true b c = ground arith
or_turn false true c = ground arith
or_turn false false c = ground arith

-- The new node is one more that is in use.
owns-snoc :
    (x q : ℕ) (e : Event) (ks ns : Nodes) (a b : Bool)
    → b ≡ ((x == q) || a)
    → a ≡ among x (ks ++ ns)
    → b ≡ among x (ks ++ (ns ++ (q, e) ∷ []))
owns-snoc x q e ks ns a b h o =
    rw
      (
        among-append x ks (ns ++ (q, e) ∷ []),
        among-append x ns ((q, e) ∷ []),
        h,
        o,
        among-append x ks ns,
      )
      (or_turn (among x ks) (among x ns) (x == q))

events-snoc :
    (ks ns : Nodes) (q : ℕ) (e : Event) (ds es : List Event)
    → es ≡ ds ++ events (ks ++ ns)
    → es ++ e ∷ [] ≡ ds ++ events (ks ++ (ns ++ (q, e) ∷ []))
events-snoc ks ns q e ds es h = rw h (simp (map-append, append_assoc))

Promised-snoc :
    (ks ns : Nodes) (q : ℕ) (e : Event) {s d : List Event} {b : Bool}
    → Promised (events (ks ++ ns)) s d b
    → Promised (events (ks ++ (ns ++ (q, e) ∷ []))) s d b
Promised-snoc ks ns q e {s} {d} {b} p =
    subst (λ l. Promised l s d b) (events-snoc ks ns q e [] (events (ks ++ ns)) refl) (comes e p)

came :
    (w w' : Where) (m : Monitor) (ns : Nodes) (s : Store) (ev : ℕ) (e : Event)
    → Inv w m ns
    → Appended m.store s ns ev (unlinked e)
    → s.ev_head ≡ first w' s
    → Tail w' s (ns ++ (ev, unlinked e) ∷ [])
    → current w m.store ≡ current w' s
    → Fits w'
        (record m { store = s; at = w'; arrived = m.arrived ++ unlinked e ∷ [] })
        (ns ++ (ev, unlinked e) ∷ [])
    → Keeps w' m.dropped
    → Inv w'
        (record m { store = s; at = w'; arrived = m.arrived ++ unlinked e ∷ [] })
        (ns ++ (ev, unlinked e) ∷ [])
came w w' m ns s ev e i a f t c x k = record {
  linked = subst (λ p. Linked s.cells p (ns ++ (ev, unlinked e) ∷ [])) f a.linked;
  tail = t;
  owns = λ p.
      owns-snoc p ev (unlinked e) (current w m.store) ns (m.store.allocated p) (s.allocated p)
        (a.owns p) (i.owns p)
      ∙ ap (λ l. among p (l ++ (ns ++ (ev, unlinked e) ∷ []))) c;
  fits = x;
  keeps = k;
  promised =
      subst (λ l. Promised (events (l ++ (ns ++ (ev, unlinked e) ∷ []))) m.handled m.dropped m.quit)
        c (Promised-snoc (current w m.store) ns ev (unlinked e) i.promised);
  history =
      events-snoc (current w m.store) ns ev (unlinked e) (m.handled ++ m.dropped) m.arrived
        i.history
      ∙ ap (λ l. (m.handled ++ m.dropped) ++ events (l ++ (ns ++ (ev, unlinked e) ∷ []))) c;
}

arrive-Inv :
    (w : Where) (m : Monitor) (ns : Nodes) (s : Store) (ev : ℕ) (e : Event)
    → lets_in w ≡ true
    → m.store.allocated ev ≡ false
    → Inv w m ns
    → Appended m.store s ns ev (unlinked e)
    → Inv
        (signal w)
        (record m { store = s; at = signal w; arrived = m.arrived ++ unlinked e ∷ [] })
        (ns ++ (ev, unlinked e) ∷ [])
arrive-Inv outer m ns s ev e h z i a = came outer outer m ns s ev e i a refl a.tail refl tt i.keeps
arrive-Inv asleep m ns s ev e h z i a =
    came asleep woken m ns s ev e i a refl a.tail refl tt i.keeps
arrive-Inv woken m ns s ev e h z i a = came woken woken m ns s ev e i a refl a.tail refl tt i.keeps
arrive-Inv stopping m ns s ev e h z i a =
    came stopping stopping m ns s ev e i a refl a.tail refl i.fits i.keeps
arrive-Inv (handling p) m ns s ev e h z i a =
    let off : (ev == p) ≡ false = (among_off ev (p, m.store.cells p) ns (sym (i.owns ev) ∙ z)).0 in
    let same = a.rest p off i.fits.1 in
    let apart = among-snoc p ev (unlinked e) ns i.fits.1 (==_flip ev p off) in
    came (handling p) (handling p) m ns s ev e i a refl a.tail (rw same)
      (i.fits.0, apart, rw same i.fits.2) i.keeps
arrive-Inv faulted m ns s ev e h z i a = absurd i.fits
arrive-Inv locked m ns s ev e h z i a = cc
arrive-Inv to_wait m ns s ev e h z i a = cc
arrive-Inv tested m ns s ev e h z i a = cc
arrive-Inv (freeing p) m ns s ev e h z i a = cc
arrive-Inv ended m ns s ev e h z i a = cc

arrive-Sound :
    (m : Monitor) (ns : Nodes) (ev : ℕ) (e : Event)
    → lets_in m.at ≡ true
    → m.store.allocated ev ≡ false
    → Inv m.at m ns
    → Sound (arrive ev e m)
unfolding arrive
arrive-Sound m ns ev e h z i = elim (Bool-cases (ev == 0)) [
  | inl null ↦ rw (arrive, sub_cb-null ev e m.store null, null) (ns, i)
  | inr new ↦
      let l = open-Linked m.at m ns h i in
      let q =
        sub_cb-Appended m.store ns ev e l.0 l.1
          (queue-owned m.at m.store ns m.store.allocated i.owns) z new in
      rw (arrive, q.1, new) (_, arrive-Inv m.at m ns q.0 ev e h z i q.2)
]

sighandler-Sound :
    (w : Where) (m : Monitor) (ns : Nodes)
    → Inv w m ns
    → Inv (signal w) (record m { quit = true; at = signal w }) ns
sighandler-Sound asleep m ns i = moved asleep woken true m ns i is_asked refl i.tail refl tt i.keeps
sighandler-Sound outer m ns i = moved outer outer true m ns i is_asked refl i.tail refl tt i.keeps
sighandler-Sound locked m ns i =
    moved locked locked true m ns i is_asked refl i.tail refl tt i.keeps
sighandler-Sound to_wait m ns i =
    moved to_wait to_wait true m ns i is_asked refl i.tail refl i.fits i.keeps
sighandler-Sound woken m ns i = moved woken woken true m ns i is_asked refl i.tail refl tt i.keeps
sighandler-Sound tested m ns i =
    moved tested tested true m ns i is_asked refl i.tail refl (λ q. cc) i.keeps
sighandler-Sound stopping m ns i =
    moved stopping stopping true m ns i is_asked refl i.tail refl refl i.keeps
sighandler-Sound ended m ns i =
    moved ended ended true m ns i is_asked refl i.tail refl (refl, i.fits.1) i.keeps
sighandler-Sound faulted m ns i = absurd i.fits
sighandler-Sound (handling p) m ns i =
    moved (handling p) (handling p) true m ns i is_asked refl i.tail refl i.fits i.keeps
sighandler-Sound (freeing p) m ns i =
    moved (freeing p) (freeing p) true m ns i is_asked refl i.tail refl refl i.keeps

Step-Sound : {m n : Monitor} → Step m n → Sound m → Sound n
unfolding sighandler
Step-Sound (main_moves m) (ns, i) = step-Sound m.at m ns i
Step-Sound (event_comes m ev e h z) (ns, i) = arrive-Sound m ns ev e h z i
Step-Sound (signal_comes m) (ns, i) = (ns, sighandler-Sound m.at m ns i)
Step-Sound (wakes_up m h) (ns, i) = (
  ns,
  moved asleep woken m.quit m ns (subst (λ w. Inv w m ns) h i) (λ g. g) refl
      (subst (λ w. Inv w m ns) h i).tail refl tt (subst (λ w. Inv w m ns) h i).keeps,
)

started-Sound : Sound started
started-Sound = (
  [],
  record {
    linked = refl;
    tail = refl;
    owns = λ p. refl;
    fits = tt;
    keeps = refl;
    promised = nothing;
    history = refl;
  },
)

pub Reach-Sound : {m : Monitor} → Reach m → Sound m
Reach-Sound start = started-Sound
Reach-Sound (later r s) = Step-Sound s (Reach-Sound r)
