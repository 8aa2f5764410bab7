-- ===== src/Adapter/Timer.antt =====
-- src/tscb-adapter.cc and include/dbuscc/tscb/adapter.h: the timeouts of a connection as timers
-- of tscb. The clock, tscb::monotonic_time(), is an argument, in milliseconds. Of the reactor
-- the model keeps the functions that were posted and, for each context, the timer that it runs,
-- until the connection to it is disconnected.
pub mod Schedule
pub mod Removal
pub mod Order
pub mod Tests
use dbuscc.Base.{
  ℕ, ◌+◌, ℤ, ◌+ℤ◌, Bool, true, false, Option, none, some, List, [], ◌∷◌, ◌++◌, update, Outcome,
  done, ◌>>=◌, deref, if◌then◌else◌,
}
use dbuscc.Timeout.{
  TimeoutApi, TimeoutEvent, on_change, on_remove, State, add_ref, release, ms_interval, enabled,
  handle,
}

-- What reactor_.timer was given: the time, and the timeout_ptr bound to on_timer.
pub record TimerConnection : Type 0 where
  pub when : ℤ
  pub target : ℕ

-- tscb_adapter::timer_ctx, as far as io_ctx.
pub record TimerCtx : Type 0 where
  pub timeout : Option ℕ
  pub conn : Option TimerConnection

-- The contexts by address, those whose slots are connected to the signals of a timeout, and the
-- calls of on_timeout_change that were posted.
pub record Timers : Type 0 where
  pub contexts : ℕ → Option TimerCtx
  pub slots_of : ℕ → List ℕ
  pub posted : List ℕ
  pub next : ℕ

module _ (api : TimeoutApi) where
  set_ctx : ℕ → TimerCtx → State api Timers → State api Timers
  set_ctx c ctx s = record s {
    env = record (s.env) { contexts = update s.env.contexts c (some ctx) };
  }

  pub on_timeout_add : ℕ → State api Timers → Outcome (State api Timers)
  on_timeout_add a s = do
    s1 ← add_ref api a s
    let c = s1.env.next
    done (record s1 {
      env = record (s1.env) {
        contexts = update s1.env.contexts c (some (record { timeout = some a; conn = none }));
        slots_of = update s1.env.slots_of a (s1.env.slots_of a ++ c ∷ []);
        posted = s1.env.posted ++ c ∷ [];
        next = c + 1;
      };
    })

  -- A connection that is disconnected drops the function, and with it the timeout_ptr.
  drop_conn : Option TimerConnection → State api Timers → Outcome (State api Timers)
  drop_conn none s = done s
  drop_conn (some t) s = release api t.target s

  drop_timeout : Option ℕ → State api Timers → Outcome (State api Timers)
  drop_timeout none s = done s
  drop_timeout (some a) s = release api a s

  -- reactor_.timer with a copy of the timeout_ptr.
  set_timer : ℕ → ℕ → ℤ → State api Timers → Outcome (State api Timers)
  unfolding set_ctx
  set_timer c a now s = do
    ms ← ms_interval api a s
    s1 ← add_ref api a s
    done (
        set_ctx c
          (record { timeout = some a; conn = some (record { when = now +ℤ ms; target = a }) }) s1)

  pub on_timeout_change : ℤ → ℕ → State api Timers → Outcome (State api Timers)
  unfolding set_ctx drop_conn set_timer
  on_timeout_change now c s = do
    ctx ← deref (s.env.contexts c)
    s1 ← drop_conn ctx.conn s
    let s2 = set_ctx c (record ctx { conn = none }) s1
    a ← deref ctx.timeout
    e ← enabled api a s2
    if e then set_timer c a now s2 else done s2

  pub on_timeout_remove : ℕ → State api Timers → Outcome (State api Timers)
  unfolding set_ctx drop_conn drop_timeout
  on_timeout_remove c s = do
    ctx ← deref (s.env.contexts c)
    s1 ← drop_conn ctx.conn s
    let s2 = set_ctx c (record ctx { conn = none }) s1
    s3 ← drop_timeout ctx.timeout s2
    done (set_ctx c (record { timeout = none; conn = none }) s3)

  -- The new time of the timer, which runs on.
  pub on_timer : ℤ → ℕ → State api Timers → Outcome (ℤ × State api Timers)
  on_timer now a s = do (ok, s1) ← handle api a s; ms ← ms_interval api a s1; done (now +ℤ ms, s1)

  call_slots : ℤ → TimeoutEvent → List ℕ → State api Timers → Outcome (State api Timers)
  unfolding on_timeout_change on_timeout_remove
  call_slots now ev [] s = done s
  call_slots now on_change (c ∷ cs) s = on_timeout_change now c s >>= call_slots now on_change cs
  call_slots now on_remove (c ∷ cs) s = on_timeout_remove c s >>= call_slots now on_remove cs

  -- What tscb does with a signal of a timeout, at a time.
  pub fire : ℤ → ℕ → TimeoutEvent → State api Timers → Outcome (State api Timers)
  unfolding call_slots
  fire now a ev s = call_slots now ev (s.env.slots_of a) s

  -- What tscb does with a function that was posted: the reactor runs the first one.
  pub run_posted : ℤ → State api Timers → Outcome (State api Timers)
  unfolding on_timeout_change
  run_posted now s = elim s.env.posted [
    | [] ↦ done s
    | c ∷ cs ↦ on_timeout_change now c (record s { env = record (s.env) { posted = cs } })
  ]
