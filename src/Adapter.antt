-- ===== src/Adapter.antt =====
-- src/tscb-adapter.cc and include/dbuscc/tscb/adapter.h: the watches of a connection in the
-- event loop of tscb. tscb is external. Of its reactor the model keeps what the adapter asked
-- for: the functions that it posted, which the reactor runs later, one at a time and in order,
-- and for each context the file descriptor that the reactor watches for it, until the connection
-- to it is disconnected.
pub mod Io
pub mod Removal
pub mod Cycle
pub mod Destroy
pub mod Dispatch
pub mod Own
pub mod Sync
pub mod Timer
pub mod Lifecycle
pub mod Tests
use dbuscc.Base.{
  ℕ, ◌+◌, ℤ, Bool, true, false, Option, none, some, List, [], ◌∷◌, ◌++◌, update, Outcome, done,
  ◌>>=◌, deref, if◌then◌else◌,
}
use dbuscc.Watch.{
  WatchApi, WatchFlags, flag_none, flag_read, flag_write, flag_hangup, flag_error, has_flag,
  add_flag, WatchEvent, on_change, on_remove, State, add_ref, release, fd, enabled, flags, handle,
}

-- tscb::ioready_events, a set of bits.
pub record IoEvents : Type 0 where
  pub input : Bool
  pub output : Bool
  pub error : Bool
  pub hangup : Bool

abbrev pub ioready_none : IoEvents
ioready_none = record { input = false; output = false; error = false; hangup = false }

-- What reactor_.watch was given: the descriptor, the events, and the watch_ptr bound to
-- on_io_ready.
pub record IoConnection : Type 0 where
  pub fd : ℤ
  pub events : IoEvents
  pub target : ℕ

-- tscb_adapter::io_ctx: the watch_ptr and the connection to the reactor. The connections to the
-- two signals are kept with the watch, in `slots_of`.
pub record IoCtx : Type 0 where
  pub watch : Option ℕ
  pub conn : Option IoConnection

-- The contexts by address, the contexts whose slots are connected to the signals of a watch, and
-- the calls of on_watch_change that were posted.
pub record Adapter : Type 0 where
  pub contexts : ℕ → Option IoCtx
  pub slots_of : ℕ → List ℕ
  pub posted : List ℕ
  pub next : ℕ

-- The middle of on_watch_change and of on_io_ready.
pub events_of : WatchFlags → IoEvents
events_of fl =
    let e1 =
      (if has_flag fl flag_read then record ioready_none { input = true } else ioready_none) in
    if has_flag fl flag_write then record e1 { output = true } else e1

flags_of : IoEvents → WatchFlags
flags_of e =
    let f1 = (if e.input then add_flag flag_none flag_read else flag_none) in
    let f2 = (if e.output then add_flag f1 flag_write else f1) in
    let f3 = (if e.error then add_flag f2 flag_error else f2) in
    if e.hangup then add_flag f3 flag_hangup else f3

module _ (api : WatchApi) where
  set_ctx : ℕ → IoCtx → State api Adapter → State api Adapter
  set_ctx c ctx s = record s {
    env = record (s.env) { contexts = update s.env.contexts c (some ctx) };
  }

  pub on_watch_add : ℕ → State api Adapter → Outcome (State api Adapter)
  on_watch_add a s = do
    s1 ← add_ref api a s
    let c = s1.env.next
    done (record s1 {
      env = record (s1.env) {
        contexts = update s1.env.contexts c (some (record { watch = some a; conn = none }));
        slots_of = update s1.env.slots_of a (s1.env.slots_of a ++ c ∷ []);
        posted = s1.env.posted ++ c ∷ [];
        next = c + 1;
      };
    })

  pub on_watch_change : ℕ → State api Adapter → Outcome (State api Adapter)
  unfolding set_ctx events_of
  on_watch_change c s = do
    ctx ← deref (s.env.contexts c)
    a ← deref ctx.watch
    e ← enabled api a s
    events ← (if e then (do fl ← flags api a s; done (events_of fl)) else done ioready_none)
    elim ctx.conn [
      | some io ↦ done (set_ctx c (record ctx { conn = some (record io { events = events }) }) s)
      | none ↦ (do
        f ← fd api a s
        s1 ← add_ref api a s
        done (
            set_ctx c (record ctx { conn = some (record { fd = f; events = events; target = a }) })
              s1))
    ]

  -- A connection that is disconnected drops the function, and with it the watch_ptr.
  pub drop_conn : Option IoConnection → State api Adapter → Outcome (State api Adapter)
  drop_conn none s = done s
  drop_conn (some io) s = release api io.target s

  pub drop_watch : Option ℕ → State api Adapter → Outcome (State api Adapter)
  drop_watch none s = done s
  drop_watch (some a) s = release api a s

  pub on_watch_remove : ℕ → State api Adapter → Outcome (State api Adapter)
  unfolding set_ctx drop_conn drop_watch
  on_watch_remove c s = do
    ctx ← deref (s.env.contexts c)
    s1 ← drop_conn ctx.conn s
    let s2 = set_ctx c (record ctx { conn = none }) s1
    s3 ← drop_watch ctx.watch s2
    done (set_ctx c (record { watch = none; conn = none }) s3)

  pub on_io_ready : ℕ → IoEvents → State api Adapter → Outcome (State api Adapter)
  unfolding flags_of
  on_io_ready a e s = do (ok, s1) ← handle api a (flags_of e) s; done s1

  -- What tscb does with a signal of a watch: it calls the slots of its contexts in order.
  pub call_slots : WatchEvent → List ℕ → State api Adapter → Outcome (State api Adapter)
  unfolding on_watch_change on_watch_remove
  call_slots ev [] s = done s
  call_slots on_change (c ∷ cs) s = on_watch_change c s >>= call_slots on_change cs
  call_slots on_remove (c ∷ cs) s = on_watch_remove c s >>= call_slots on_remove cs

  pub fire : ℕ → WatchEvent → State api Adapter → Outcome (State api Adapter)
  unfolding call_slots
  fire a ev s = call_slots ev (s.env.slots_of a) s

  -- What tscb does with a function that was posted: the reactor runs the first one.
  pub run_posted : State api Adapter → Outcome (State api Adapter)
  unfolding on_watch_change
  run_posted s = elim s.env.posted [
    | [] ↦ done s
    | c ∷ cs ↦ on_watch_change c (record s { env = record (s.env) { posted = cs } })
  ]
