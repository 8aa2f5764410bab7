-- ===== src/Adapter/Sync/Tests.antt =====
-- src/tscb-adapter.cc: the theorem at a libdbus with one readable watch.
use dbuscc.Base.{ℕ, ◌≡◌, ◌⊎◌, inl, inr, ◌==◌, Bool-cases, none, some, [], Option, refl, arith, ◌∙◌}
use dbuscc.Watch.{State}
use dbuscc.Watch.Tests.{model_api}
use dbuscc.Watch.Removal.{counted, linked_to}
use dbuscc.Adapter.{Adapter, IoConnection}
use dbuscc.Adapter.Io.{change_tracks}
use dbuscc.Adapter.Cycle.{run_posted-one}
use dbuscc.Adapter.Lifecycle.{ready, ready-IsIdle, add_watch-ready}
use dbuscc.Adapter.Sync.{ctx_of, IsWatched}
use dbuscc.Adapter.Sync.World.{SameHandle, SameEvents}
use dbuscc.Adapter.Sync.Steps.{adds, runs}
use dbuscc.Adapter.Sync.Reach.{unused, Run, begin, then, all-IsWatched}

abbrev S : Type 0
S = State model_api Adapter

abbrev no_data : ℕ → Option ℕ
no_data _ = none

set_data-others :
    (w : ℕ → Option ℕ) (r r2 a : ℕ)
    → (r ≡ r2) ⊎ SameHandle model_api w (model_api.set_data w r a) r2
set_data-others w r r2 a = elim (Bool-cases (r2 == r)) [
  | inl p ↦ inl (ground (arith, p))
  | inr p ↦ inr (ground (arith, p), refl)
]

set_data-events :
    (w : ℕ → Option ℕ) (r r2 a : ℕ) → SameEvents model_api w (model_api.set_data w r a) r2
set_data-events w r r2 a = (refl, refl)

-- Raw watch 5 is added, and the reactor runs what was posted.
served :
    (s : S) × Run model_api no_data s × (s.env.posted ≡ []) × (s.heap 0 ≡ counted 3 (linked_to 5))
served =
    let s0 = unused model_api no_data in
    let s1 = ready model_api 5 s0 refl refl in
    let idle = ready-IsIdle model_api 5 s0 refl refl in
    let t : S = record s1 { env = record (s1.env) { posted = [] } } in
    let (s2, ev, p, rep, ctx, count, posted, slots, world) =
      change_tracks model_api 0 2 5 t idle.count 0 none idle.ctx (omega arith) in
    (
      s2,
      then (then begin (adds 5 (λ b (n, e). cc (e)) (add_watch-ready model_api 5 s0 refl refl)))
          (runs (run_posted-one model_api 0 s1 idle.posted ∙ p)),
      posted,
      count,
    )

all-IsWatched_example :
    (c : ℕ) × (io : IoConnection) × (served.0.env.contexts c ≡ some (ctx_of 0 (some io)))
    × IsWatched model_api served.0.world 0 5 io
all-IsWatched_example =
    all-IsWatched model_api set_data-others set_data-events no_data served.0 0 3 5 served.1 served.2
      served.3
