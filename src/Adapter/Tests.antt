-- ===== src/Adapter/Tests.antt =====
-- src/tscb-adapter.cc: the theorems at a libdbus with one readable watch.
use dbuscc.Base.{◌≡◌, pos, Bool, true, false, none, some, [], ◌∷◌, update, done, fault, refl, arith}
use dbuscc.Watch.{Bit, State, removed, unref}
use dbuscc.Watch.Tests.{model_api}
use dbuscc.Watch.Removal.{counted, linked_to, detached}
use dbuscc.Adapter.{IoEvents, Adapter, on_watch_add, on_watch_change, on_io_ready, fire, run_posted}
use dbuscc.Adapter.Io.{event_of, Reported, ready_handles, change_tracks}
use dbuscc.Adapter.Removal.{idle_ctx, cleared_ctx, IsCleared, removed_clears}
use dbuscc.Connection.Sources.{add_watch}
use dbuscc.Adapter.Lifecycle.{watch_is_freed}
use dbuscc.Adapter.Cycle.{removed_before_change, removed_after_change}

abbrev S : Type 0
S = State model_api Adapter

-- Raw watch 5 with its object at address 0, held by libdbus and by the caller.
abbrev initial : S
initial = record {
  world = update (λ _. none) 5 (some 0);
  heap = update (λ _. none) 0 (counted 2 (linked_to 5));
  next = 1;
  env = record { contexts = λ _. none; slots_of = λ _. []; posted = []; next = 0 };
}

abbrev with_ctx : S
with_ctx = record initial {
  env = record {
    contexts = update (λ _. none) 0 (some (idle_ctx 0));
    slots_of = update (λ _. []) 0 (0 ∷ []);
    posted = 0 ∷ [];
    next = 1;
  };
}

abbrev input_ready : IoEvents
input_ready = record { input = true; output = false; error = false; hangup = true }

ready_handles_example :
    (w : Bit → Bool) × (on_io_ready model_api 0 input_ready initial ≡ done initial)
    × ((b : Bit) → w b ≡ event_of input_ready b)
ready_handles_example = ready_handles model_api 0 2 5 initial refl input_ready

change_tracks-held :
    (s' : S) × (ev : IoEvents) × (on_watch_change model_api 0 with_ctx ≡ done s')
    × Reported model_api 0 2 5 with_ctx refl (true, false) ev
    × (s'.env.contexts 0
        ≡ some (record {
          watch = some 0;
          conn = some (record { fd = pos 8; events = ev; target = 0 });
        }))
    × (s'.heap 0 ≡ counted 3 (linked_to 5))
    × (s'.env.posted ≡ 0 ∷ [])
    × (s'.env.slots_of ≡ with_ctx.env.slots_of)
    × (s'.world ≡ initial.world)
change_tracks-held = change_tracks model_api 0 2 5 with_ctx refl 0 none refl (omega arith)

removed_clears-idle :
    (s' : S) × (removed model_api (fire model_api) (some 5) with_ctx ≡ done s')
    × IsCleared model_api 0 0 1 with_ctx s'
removed_clears-idle =
    removed_clears model_api 5 0 0 2 none (linked_to 5) with_ctx refl refl refl tt refl
      (omega arith) (omega arith)

removed_before_change_example :
    (s1 s2 : S) × (on_watch_add model_api 0 initial ≡ done s1)
    × (removed model_api (fire model_api) (some 5) s1 ≡ done s2)
    × (run_posted model_api s2 ≡ fault)
removed_before_change_example =
    removed_before_change model_api 5 0 2 initial refl refl (omega arith) (omega arith) refl refl

removed_after_change_example :
    (s1 s2 s3 : S) × (on_watch_add model_api 0 initial ≡ done s1)
    × (run_posted model_api s1 ≡ done s2)
    × (removed model_api (fire model_api) (some 5) s2 ≡ done s3)
    × (s3.env.contexts 0 ≡ some cleared_ctx)
    × (s3.heap 0 ≡ some (record { refcnt = 2; self = detached }))
    × (s3.env.posted ≡ [])
removed_after_change_example =
    removed_after_change model_api 5 0 2 initial refl refl (omega arith) (omega arith) refl refl

watch_is_freed_example :
    (s1 s2 s3 s4 : S) × (add_watch model_api (on_watch_add model_api) (some 6) initial ≡ done s1)
    × (s1.heap 1 ≡ some (record { refcnt = 2; self = record { raw = some 6; is_removed = false } }))
    × (run_posted model_api s1 ≡ done s2)
    × (removed model_api (fire model_api) (some 6) s2 ≡ done s3)
    × (s3.env.contexts 0 ≡ some cleared_ctx)
    × (unref model_api (some 1) s3 ≡ done s4)
    × (s4.heap 1 ≡ none)
watch_is_freed_example = watch_is_freed model_api 6 initial refl refl
