-- ===== src/Adapter/Timer/Tests.antt =====
-- src/tscb-adapter.cc: the theorems at a libdbus with timeouts of 25 seconds.
use dbuscc.Base.{ℕ, ◌≡◌, pos, none, some, [], ◌∷◌, update, done, fault, refl, arith}
use dbuscc.Timeout.{State, removed}
use dbuscc.Timeout.Tests.{model_api}
use dbuscc.Timeout.Removal.{counted, linked_to}
use dbuscc.Connection.Sources.{add_timeout}
use dbuscc.Adapter.Timer.{
  TimerConnection, Timers, on_timeout_add, on_timeout_change, on_timer, fire, run_posted,
}
use dbuscc.Adapter.Timer.Schedule.{IsScheduled, change_schedules, timer_handles}
use dbuscc.Adapter.Timer.Order.{removed_before_schedule}

abbrev S : Type 0
S = State model_api Timers

-- Raw timeout 5 with its object at address 0, held by libdbus and by the caller.
abbrev initial : S
initial = record {
  world = update (λ _. none) 5 (some 0);
  heap = update (λ _. none) 0 (counted 2 (linked_to 5));
  next = 1;
  env = record { contexts = λ _. none; slots_of = λ _. []; posted = []; next = 0 };
}

abbrev timer_at : ℕ → TimerConnection
timer_at t = record { when = pos t; target = 0 }

-- A timer for it runs already, and is due at 700.
abbrev running : S
running = record initial {
  heap = update (λ _. none) 0 (counted 3 (linked_to 5));
  env = record {
    contexts =
        update (λ _. none) 0 (some (record { timeout = some 0; conn = some (timer_at 700) }));
    slots_of = update (λ _. []) 0 (0 ∷ []);
    posted = [];
    next = 1;
  };
}

change_schedules_example :
    (s' : S) × (on_timeout_change model_api (pos 1000) 0 running ≡ done s')
    × IsScheduled model_api 0 5 (pos 1000) 0 3 (some (timer_at 26000)) running s'
change_schedules_example =
    change_schedules model_api 0 5 (pos 1000) 0 3 (some (timer_at 700)) running refl refl refl
      (omega arith) (omega arith)

rescheduled : on_timer model_api (pos 700) 0 running ≡ done (pos 25700, running)
rescheduled = timer_handles model_api 0 5 (pos 700) 3 running refl

removed_before_schedule_example :
    (s1 s2 : S) × (add_timeout model_api (on_timeout_add model_api) (some 6) initial ≡ done s1)
    × (removed model_api (fire model_api (pos 1000)) (some 6) s1 ≡ done s2)
    × (run_posted model_api (pos 1000) s2 ≡ fault)
removed_before_schedule_example = removed_before_schedule model_api (pos 1000) 6 initial refl refl
