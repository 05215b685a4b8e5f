-- ===== src/PulseMonitor/Main.antt =====
-- pulse-monitor/main.c: main before and after its loop, state_cb and sync_cb.
use overthinkin.Base.{
  ℕ, zero, suc, Bool, true, false, not, ◌&&◌, List, ◌∷◌, [], Option, none, some, is_neg,
  if◌then◌else◌,
}
use overthinkin.PulseMonitor.Calls.{
  ContextState, ready, failed, other, mainloop_new, context_new, set_state_callback, connect, start,
  set_subscribe_callback, subscribe, lock, unlock, wait, unref, disconnect, context_unref, stop,
  free, M, pure, stuck, ◌>>=◌, ◌>>◌, call,
}

-- The variables ready and failed.
pub record Flags : Type 0 where
  pub is_ready : Bool
  pub has_failed : Bool

unfoldable pub state_cb : ContextState → Flags → Flags
state_cb ready s = record s { is_ready = true }
state_cb failed s = record s { has_failed = true }
state_cb other s = s

unfoldable pub report : List ContextState → Flags → Flags
report [] s = s
report (c ∷ cs) s = report cs (state_cb c s)

-- struct sync
pub record Sync : Type 0 where
  pub done : Bool
  pub success : Bool

unfoldable pub sync_cb : Bool → Sync → Sync
sync_cb b s = record { success = b; done = true }

unfoldable pub settle : List Bool → Sync → Sync
settle [] s = s
settle (b ∷ bs) s = settle bs (sync_cb b s)

-- The two loops that wait, with a number of waits.
unfoldable pub await_ready : ℕ → Flags → M Flags
await_ready zero s = if not s.is_ready && not s.has_failed then stuck else pure s
await_ready (suc f) s =
    let rest = await_ready f in
    if not s.is_ready && not s.has_failed
    then (call wait >>= λ a. rest (report a.states s))
    else pure s

unfoldable pub await_sync : ℕ → Sync → M Sync
await_sync zero s = if s.done then pure s else stuck
await_sync (suc f) s =
    let rest = await_sync f in if s.done then pure s else call wait >>= λ a. rest (settle a.syncs s)

-- Once the server has answered the subscription.
unfoldable pub subscribed : Sync → M (Option ℕ)
subscribed s = call unlock >> call unref >> pure (if s.success then none else some 1)

-- The subscription; the exit status of a failure.
unfoldable pub do_subscribe : ℕ → M (Option ℕ)
do_subscribe f = call set_subscribe_callback >> call lock >> call subscribe >>= λ op.
    if op.null
    then call unlock >> pure (some 1)
    else await_sync f (record { done = false; success = false }) >>= subscribed

-- Once the wait for the server is over.
unfoldable pub on_ready : ℕ → Flags → M (Option ℕ)
on_ready f s = call unlock >> (if s.has_failed then pure (some 1) else do_subscribe f)

-- The wait for the server, and what follows.
unfoldable pub do_ready : ℕ → M (Option ℕ)
do_ready f =
    call lock >> await_ready f (record { is_ready = false; has_failed = false }) >>= on_ready f

-- From pa_context_connect on.
unfoldable pub do_connect : ℕ → M (Option ℕ)
do_connect f = call set_state_callback >> call connect >>= λ c.
    if is_neg c.ret
    then pure (some 1)
    else call start >>= λ s. if is_neg s.ret then pure (some 1) else do_ready f

-- main up to its loop.
unfoldable pub set_up : ℕ → M (Option ℕ)
set_up f = call mainloop_new >>= λ m.
    if m.null
    then pure (some 1)
    else call context_new >>= λ c. if c.null then pure (some 1) else do_connect f

-- The end of main, but for the loop that frees.
unfoldable pub tear_down : M ℕ
tear_down =
    call lock
    >> call disconnect
    >> call context_unref
    >> call unlock
    >> call stop
    >> call free
    >> pure 0

-- What main does after set_up, with its loop as a program.
unfoldable pub go_or_leave : M (Unit {0}) → Option ℕ → M ℕ
go_or_leave loop (some code) = pure code
go_or_leave loop none = loop >> tear_down

unfoldable pub main : ℕ → M (Unit {0}) → M ℕ
main f loop = set_up f >>= go_or_leave loop
