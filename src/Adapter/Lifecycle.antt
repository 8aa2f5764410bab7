-- ===== src/Adapter/Lifecycle.antt =====
-- src/tscb-adapter.cc, src/connection.cc and src/watch.cc: a watch from the call by which
-- libdbus adds it to the end of its object.
use dbuscc.Base.{update-same, ◌≡◌, none, some, [], update, done, refl, arith, ◌∙◌, false}
use dbuscc.Watch.{WatchApi, State, removed, unref}
use dbuscc.Watch.Values.{release-live, created, created-live, create-created, unref-release}
use dbuscc.Watch.Removal.{counted, linked_to, detached, release_last_at}
use dbuscc.Connection.Sources.{add_watch}
use dbuscc.Adapter.{Adapter, on_watch_add, fire, run_posted}
use dbuscc.Adapter.Removal.{cleared_ctx}
use dbuscc.Adapter.Cycle.{IsIdle, added, on_watch_add-added, added-IsIdle, run-removed}

module _ (api : WatchApi) (r : api.Raw) (s : State api Adapter)
    (no_slots : s.env.slots_of s.next ≡ []) (none_posted : s.env.posted ≡ []) where
  -- The state after add_watch.
  abbrev pub ready : State api Adapter
  ready =
      let t = added api r s.next 2 (created api r s) in
      record t { heap = update t.heap s.next (counted 2 (linked_to r)) }

  idle : IsIdle s.env.next s.next 3 r (added api r s.next 2 (created api r s))
  idle =
      added-IsIdle api r s.next 2 (created api r s) (api.get_data-set_data s.world r s.next)
        (created-live api r s) (omega arith) (omega arith) no_slots none_posted

  pub add_watch-ready : add_watch api (on_watch_add api) (some r) s ≡ done ready
  unfolding add_watch
  add_watch-ready = rw (create-created api r s) (
      rw
        (on_watch_add-added api r s.next 2 (created api r s)
          (api.get_data-set_data s.world r s.next) (created-live api r s) (omega arith)
          (omega arith) no_slots none_posted)
        (release-live api s.next 3 _ (linked_to r) idle.count (omega arith) (omega arith)))

  pub ready-IsIdle : IsIdle s.env.next s.next 2 r ready
  ready-IsIdle = record {
    ctx = idle.ctx;
    slots = idle.slots;
    posted = idle.posted;
    count = update-same s.next (added api r s.next 2 (created api r s)).heap;
    data_is = idle.data_is;
  }

  -- libdbus adds a watch, when nothing is posted and no slot is connected to an object at the
  -- address that it gets: add_watch leaves the adapter and libdbus as its owners. The reactor
  -- then runs what is posted, libdbus removes the watch, and gives its reference back: no step
  -- fails, the adapter is left without its connection to the reactor, and the last step frees
  -- the object. Nothing leaks and nothing is freed too early.
  pub watch_is_freed :
      (s1 s2 s3 s4 : State api Adapter) × (add_watch api (on_watch_add api) (some r) s ≡ done s1)
      × (s1.heap s.next
          ≡ some (record { refcnt = 2; self = record { raw = some r; is_removed = false } }))
      × (run_posted api s1 ≡ done s2)
      × (removed api (fire api) (some r) s2 ≡ done s3)
      × (s3.env.contexts s.env.next ≡ some cleared_ctx)
      × (unref api (some s.next) s3 ≡ done s4)
      × (s4.heap s.next ≡ none)
  watch_is_freed =
      let (s2, s3, p2, p3, ctx, count, posted) =
        run-removed api s.env.next s.next 2 r ready ready-IsIdle (omega arith) (omega arith) in
      let (s4, p4, gone) = release_last_at api s.next 1 detached s3 count refl in
      (
        ready,
        s2,
        s3,
        s4,
        add_watch-ready,
        ready-IsIdle.count,
        p2,
        p3,
        ctx,
        unref-release api s.next s3 ∙ p4,
        gone,
      )
