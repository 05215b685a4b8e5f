-- ===== src/PulseMonitor/Queue.antt =====
-- pulse-monitor/main.c: struct event, the queue between the two threads, and what sub_cb and main do
-- with it. A node is an address, 0 is NULL, and an access to memory that is not allocated is `none`.
use overthinkin.Base.{ℕ, ◌==◌, Bool, true, false, Option, none, some, if◌then◌else◌}

-- struct timespec
pub record Timespec : Type 0 where
  pub tv_sec : ℕ
  pub tv_nsec : ℕ

-- struct event
pub record Event : Type 0 where
  pub next : ℕ
  pub facility : ℕ
  pub type : ℕ
  pub idx : ℕ
  pub ts : Timespec

-- What `ev->next = NULL` leaves.
abbrev pub unlinked : Event → Event
unlinked e = record e { next = 0 }

-- The heap, and ev_head and ev_tail.
pub record Store : Type 0 where
  pub cells : ℕ → Event
  pub allocated : ℕ → Bool
  pub ev_head : ℕ
  pub ev_tail : ℕ

-- One place of a function is changed.
abbrev pub update : {A : Type 0} → ℕ → A → (ℕ → A) → ℕ → A
update p a f x = if p == x then a else f x

-- `p->next = n`
abbrev pub set_next : ℕ → ℕ → (ℕ → Event) → ℕ → Event
set_next p n cells = update p (record (cells p) { next = n }) cells

-- What calloc and the assignments to *ev leave at its address.
abbrev pub place : ℕ → Event → Store → Store
place p e s = record s { cells = update p e s.cells; allocated = update p true s.allocated }

-- What sub_cb does with ev_mtx held.
unfoldable pub append : ℕ → Store → Option Store
append ev s =
    if s.ev_tail == 0
    then some (record s { ev_head = ev; ev_tail = ev })
    else if s.allocated s.ev_tail
    then some (record s { cells = set_next s.ev_tail ev s.cells; ev_tail = ev })
    else none

-- sub_cb: `ev` is what calloc gives, and `e` what the event is filled with; the masks of the
-- facility and the type are libpulse's, and `e` has been through them.
unfoldable pub sub_cb : ℕ → Event → Store → Option Store
unfolding append
sub_cb ev e s = if ev == 0 then some s else append ev (place ev (unlinked e) s)

-- What main does with ev_mtx held, once there is an event: the node, and what is left.
unfoldable pub take_first : Store → Option (ℕ × Store)
take_first s =
    if s.allocated s.ev_head
    then some (
      s.ev_head,
      record s {
        ev_head = (s.cells s.ev_head).next;
        ev_tail = if (s.cells s.ev_head).next == 0 then 0 else s.ev_tail;
        cells = set_next s.ev_head 0 s.cells;
      },
    )
    else none

-- What is read of an event before its memory is given back by free.
unfoldable pub use_up : ℕ → Store → Option (Event × Store)
use_up ev s =
    if s.allocated ev
    then some (s.cells ev, record s { allocated = update ev false s.allocated })
    else none
