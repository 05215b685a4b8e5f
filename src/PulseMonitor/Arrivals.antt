-- ===== src/PulseMonitor/Arrivals.antt =====
-- pulse-monitor/main.c: what sub_cb does to the queue, which main may be anywhere beside.
use overthinkin.Base.{
  ℕ, ◌==◌, Bool, true, false, ◌||◌, ◌∷◌, [], ◌++◌, some, inl, inr, Bool-cases, ==_refl, ==_ne, ◌≡◌,
  ◌≢◌, refl, sym, subst, ◌∙◌, arith,
}
use overthinkin.PulseMonitor.Queue.{Event, Store, update, unlinked, place, set_next, sub_cb}
use overthinkin.PulseMonitor.Linked.{
  Nodes, among, last, Linked, Linked-update, Linked-append, last-among, ==_flip,
}

last-snoc : (ns : Nodes) (q : ℕ) (e : Event) → last (ns ++ (q, e) ∷ []) ≡ q
last-snoc [] q e = refl
last-snoc (n ∷ []) q e = refl
last-snoc (n ∷ m ∷ ns) q e = last-snoc (m ∷ ns) q e

last-ne-zero :
    (c : ℕ → Event) (p : ℕ) (n : ℕ × Event) (ns : Nodes) → Linked c p (n ∷ ns) → last (n ∷ ns) ≢ 0
last-ne-zero c p n [] l = l.1
last-ne-zero c p n (m ∷ ns) l = last-ne-zero c (c n.0).next m ns l.4

among-last : (n : ℕ × Event) (ns : Nodes) → among (last (n ∷ ns)) (n ∷ ns) ≡ true
among-last n [] = ground arith
among-last n (m ∷ ns) = ground (arith, among-last m ns)

-- What sub_cb leaves: the new node stands last, and other memory is as it was.
pub record Appended (s s' : Store) (ns : Nodes) (ev : ℕ) (e : Event) : Type 0 where
  pub linked : Linked s'.cells s'.ev_head (ns ++ (ev, e) ∷ [])
  pub tail : s'.ev_tail ≡ last (ns ++ (ev, e) ∷ [])
  pub owns : (x : ℕ) → s'.allocated x ≡ ((x == ev) || s.allocated x)
  pub rest : (x : ℕ) → (ev == x) ≡ false → among x ns ≡ false → s'.cells x ≡ s.cells x

update-or : (p x : ℕ) (a : ℕ → Bool) → update p true a x ≡ ((x == p) || a x)
update-or p x a = ground arith

unowned :
    (a : ℕ → Bool) (p : ℕ) (ns : Nodes)
    → (among p ns ≡ true → a p ≡ true)
    → a p ≡ false
    → among p ns ≡ false
unowned a p ns o h = elim (Bool-cases (among p ns)) [ inl k ↦ cc (o k) | inr k ↦ k ]

pub sub_cb-Appended :
    (s : Store) (ns : Nodes) (ev : ℕ) (e : Event)
    → Linked s.cells s.ev_head ns
    → s.ev_tail ≡ last ns
    → ((x : ℕ) → among x ns ≡ true → s.allocated x ≡ true)
    → s.allocated ev ≡ false
    → (ev == 0) ≡ false
    → (s' : Store) × (sub_cb ev e s ≡ some s') × Appended s s' ns ev (unlinked e)
unfolding sub_cb
sub_cb-Appended s [] ev e l t o a z =
    rw (z, t)
      (
        _,
        refl,
        record {
          linked = (refl, (==_ne ev 0).0 z, rw (==_refl ev), refl, rw (==_refl ev));
          tail = refl;
          owns = λ x. update-or ev x s.allocated;
          rest = λ x h k. rw h;
        },
      )
sub_cb-Appended s (n ∷ ns) ev e l t o a z =
    let c : ℕ → Event = update ev (unlinked e) s.cells in
    let new : among ev (n ∷ ns) ≡ false = unowned s.allocated ev (n ∷ ns) (o ev) a in
    let q_ne : last (n ∷ ns) ≢ 0 = last-ne-zero s.cells s.ev_head n ns l in
    let nz : (s.ev_tail == 0) ≡ false = (==_ne s.ev_tail 0).1 (λ h. q_ne (sym t ∙ h)) in
    let off : (ev == s.ev_tail) ≡ false =
      rw t (==_flip (last (n ∷ ns)) ev (last-among ev n ns new)) in
    let own : s.allocated s.ev_tail ≡ true = rw t (o (last (n ∷ ns)) (among-last n ns)) in
    let own' : update ev true s.allocated s.ev_tail ≡ true = rw off own in
    let s' : Store = record (place ev (unlinked e) s) {
      cells = set_next s.ev_tail ev c;
      ev_tail = ev;
    } in
    let linked' : Linked (set_next (last (n ∷ ns)) ev c) s.ev_head
        ((n ∷ ns) ++ (ev, unlinked e) ∷ []) =
      Linked-append c s.ev_head ev (unlinked e) (n ∷ ns) ((==_ne ev 0).0 z) new q_ne
        (Linked-update s.cells s.ev_head ev (unlinked e) (n ∷ ns) new l) (rw (==_refl ev))
        (rw (==_refl ev)) in
    (
      s',
      rw (z, nz, own'),
      record {
        linked =
            subst (λ q. Linked (set_next q ev c) s.ev_head ((n ∷ ns) ++ (ev, unlinked e) ∷ []))
              (sym t) linked';
        tail = sym (last-snoc (n ∷ ns) ev (unlinked e));
        owns = λ x. update-or ev x s.allocated;
        rest =
            λ x h k. let far : (s.ev_tail == x) ≡ false = rw t (last-among x n ns k) in rw (far, h);
      },
    )

pub sub_cb-null : (ev : ℕ) (e : Event) (s : Store) → (ev == 0) ≡ true → sub_cb ev e s ≡ some s
unfolding sub_cb
sub_cb-null ev e s h = rw h
