-- ===== src/PulseMonitor/Linked.antt =====
-- pulse-monitor/main.c: which events the nodes of the queue hold, in which order, and what the
-- operations of the queue do to that.
use overthinkin.Base.{ℕ, ◌==◌, Bool, false, ◌||◌, List, ◌∷◌, [], ◌++◌, ◌≡◌, ◌≢◌, refl, arith}
use overthinkin.PulseMonitor.Queue.{Event, unlinked, update, set_next}

-- An address, and the event that its node holds.
abbrev pub Nodes : Type 0
Nodes = List (ℕ × Event)

-- Whether one of the nodes is at an address.
abbrev pub among : ℕ → Nodes → Bool
among p [] = false
among p (n ∷ ns) = (p == n.0) || among p ns

-- The last address, or NULL.
abbrev pub last : Nodes → ℕ
last [] = 0
last (n ∷ []) = n.0
last (n ∷ m ∷ ns) = last (m ∷ ns)

-- From an address on, the links lead through these nodes and end with NULL.
abbrev pub Linked : (ℕ → Event) → ℕ → Nodes → Type 0
Linked c p [] = p ≡ 0
Linked c p (n ∷ ns) =
    (p ≡ n.0)
    × (n.0 ≢ 0)
    × (unlinked (c n.0) ≡ n.1)
    × (among n.0 ns ≡ false)
    × Linked c (c n.0).next ns

pub among-append : (p : ℕ) (xs ys : Nodes) → among p (xs ++ ys) ≡ (among p xs || among p ys)
among-append p [] ys = refl
among-append p (x ∷ xs) ys = ground (arith, among-append p xs ys)

pub among_off :
    (q : ℕ) (n : ℕ × Event) (ns : Nodes)
    → among q (n ∷ ns) ≡ false
    → ((q == n.0) ≡ false) × (among q ns ≡ false)
among_off q n ns a = ground arith

pub update_off :
    {A : Type 0} (q x : ℕ) (a : A) (f : ℕ → A) → (q == x) ≡ false → update q a f x ≡ f x
update_off q x a f h = rw h

-- A change of the heap elsewhere does not matter.
pub Linked-update :
    (c : ℕ → Event) (p q : ℕ) (e : Event) (ns : Nodes)
    → among q ns ≡ false
    → Linked c p ns
    → Linked (update q e c) p ns
Linked-update c p q e [] a l = l
Linked-update c p q e (n ∷ ns) a l =
    let off = among_off q n ns a in
    let l' = Linked-update c (c n.0).next q e ns off.1 l.4 in rw (off.0) (l.0, l.1, l.2, l.3, l')

pub last-among :
    (x : ℕ) (n : ℕ × Event) (ns : Nodes) → among x (n ∷ ns) ≡ false → (last (n ∷ ns) == x) ≡ false
last-among x n [] a = ground arith
last-among x n (m ∷ ns) a = let off = among_off x n (m ∷ ns) a in last-among x m ns off.1

pub among-snoc :
    (x q : ℕ) (e : Event) (ns : Nodes)
    → among x ns ≡ false
    → (x == q) ≡ false
    → among x (ns ++ (q, e) ∷ []) ≡ false
among-snoc x q e ns a h = rw (among-append x ns ((q, e) ∷ []), a, h)

pub ==_flip : (a b : ℕ) → (a == b) ≡ false → (b == a) ≡ false
==_flip a b h = ground arith

-- A node is hung on behind the last.
pub Linked-append :
    (c : ℕ → Event) (p q : ℕ) (n : Event) (ns : Nodes)
    → q ≢ 0
    → among q ns ≡ false
    → last ns ≢ 0
    → Linked c p ns
    → unlinked (c q) ≡ n
    → (c q).next ≡ 0
    → Linked (set_next (last ns) q c) p (ns ++ (q, n) ∷ [])
Linked-append c p q n [] z a t l e x = absurd (t refl)
Linked-append c p q n (m ∷ []) z a t l e x = let off = among_off q m [] a in ground arith
Linked-append c p q n (m ∷ o ∷ ns) z a t l e x =
    let off = among_off q m (o ∷ ns) a in
    let l' = Linked-append c (c m.0).next q n (o ∷ ns) z off.1 t l.4 e x in
    let far = last-among m.0 o ns l.3 in
    let apart = among-snoc m.0 q n (o ∷ ns) l.3 (==_flip q m.0 off.0) in
    rw far (l.0, l.1, l.2, apart, l')
