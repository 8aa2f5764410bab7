-- ===== src/Adapter/Own/Tests.antt =====
-- src/watch.cc, src/tscb-adapter.cc: the theorem at a libdbus with one readable watch.
use dbuscc.Base.{
  true, contains, ℕ, ◌+◌, ◌≡◌, ◌⊎◌, refl, none, some, [], ◌∷◌, done, fault, arith, ◌∙◌,
}
use dbuscc.Watch.{State, toggled, removed}
use dbuscc.Watch.Removal.{counted, linked_to}
use dbuscc.Adapter.Own.Callbacks.{callbacks_return}
use dbuscc.Watch.Tests.{model_api}
use dbuscc.Adapter.{Adapter, fire, run_posted}
use dbuscc.Adapter.Removal.{cleared_ctx}
use dbuscc.Adapter.Own.Progress.{posted_returns_or_removed}
use dbuscc.Adapter.Io.{change_tracks}
use dbuscc.Adapter.Cycle.{run_posted-one}
use dbuscc.Adapter.Lifecycle.{ready, ready-IsIdle, add_watch-ready}
use dbuscc.Adapter.Sync.Reach.{unused}
use dbuscc.Adapter.Own.{held_below, plus, Held}
use dbuscc.Adapter.Own.Step.{adds, runs}
use dbuscc.Adapter.Own.Next.{run_posted-next}
use dbuscc.Adapter.Own.Reach.{Run, begin, after, all-Held}

-- libdbus holds the object at address 0 alone.
one_holder : ℕ → ℕ
one_holder = plus (λ _. 0) (some 0)

-- Raw watch 5 is added, and the reactor runs what was posted.
session : (s : State model_api Adapter) × Run model_api (λ _. none) one_holder s × (s.env.next ≡ 1)
unfolding one_holder
session =
    let s0 = unused model_api (λ _. none) in
    let s1 = ready model_api 5 s0 refl refl in
    let idle = ready-IsIdle model_api 5 s0 refl refl in
    let t : State model_api Adapter = record s1 { env = record (s1.env) { posted = [] } } in
    let (s2, ev, p, _, _, _, _, _, _) =
      change_tracks model_api 0 2 5 t idle.count 0 none idle.ctx (omega arith) in
    let ran = run_posted-one model_api 0 s1 idle.posted ∙ p in
    (
      s2,
      after (after begin (adds 5 (add_watch-ready model_api 5 s0 refl refl))) (runs ran),
      run_posted-next model_api s1 s2 ran,
    )

all-Held_example :
    Held (one_holder 0 + held_below session.0.env.contexts session.0.env.next 0) session.0.heap 0
all-Held_example =
    all-Held model_api (λ _. none) one_holder session.0 session.1 (omega (arith, session.2)) 0

-- The reactor has not run the function yet.
fresh_session :
    (s : State model_api Adapter) × Run model_api (λ _. none) one_holder s
    × (s.env.next ≡ 1)
    × (s.env.posted ≡ 0 ∷ [])
    × (model_api.get_data s.world 5 ≡ some 0)
    × (s.heap 0 ≡ counted 2 (linked_to 5))
unfolding one_holder
fresh_session =
    let s0 = unused model_api (λ _. none) in
    let idle = ready-IsIdle model_api 5 s0 refl refl in
    (
      ready model_api 5 s0 refl refl,
      after begin (adds 5 (add_watch-ready model_api 5 s0 refl refl)),
      refl,
      idle.posted,
      idle.data_is,
      idle.count,
    )

posted_returns_or_removed_example :
    ((s' : State model_api Adapter) × (run_posted model_api fresh_session.0 ≡ done s'))
    ⊎ ((fresh_session.0.env.contexts 0 ≡ some cleared_ctx)
        × (run_posted model_api fresh_session.0 ≡ fault))
posted_returns_or_removed_example =
    posted_returns_or_removed model_api (λ _. none) one_holder fresh_session.0 0 [] fresh_session.1
      (omega (arith, fresh_session.2)) fresh_session.3

callbacks_return_example :
    ((s' : State model_api Adapter) × (toggled model_api (fire model_api) (some 5) fresh_session.0
        ≡ done s'))
    × ((s' : State model_api Adapter) × (removed model_api (fire model_api) (some 5) fresh_session.0
          ≡ done s')
        × ((c : ℕ)
            → contains c (fresh_session.0.env.slots_of 0) ≡ true
            → s'.env.contexts c ≡ some cleared_ctx))
callbacks_return_example =
    callbacks_return model_api (λ _. none) one_holder fresh_session.0 5 0 2 fresh_session.1
      (omega (arith, fresh_session.2)) fresh_session.4 fresh_session.5
