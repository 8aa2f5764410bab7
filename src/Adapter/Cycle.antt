-- ===== src/Adapter/Cycle.antt =====
-- src/tscb-adapter.cc: a watch from on_watch_add to its removal, before and after the reactor
-- runs the function that was posted for it.
use dbuscc.Base.{
  update-same, ℕ, false, ◌+◌, ◌-◌, ◌<◌, ◌≡◌, none, some, List, [], ◌∷◌, ◌++◌, update, done, fault,
  refl, arith, ap, ◌∙◌,
}
use dbuscc.Pointer.{int_mod}
use dbuscc.Watch.{WatchApi, State, removed}
use dbuscc.Watch.Values.{add_ref-live}
use dbuscc.Watch.Removal.{counted, linked_to, detached}
use dbuscc.Adapter.{Adapter, on_watch_add, on_watch_change, fire, run_posted}
use dbuscc.Adapter.Io.{change_tracks}
use dbuscc.Adapter.Removal.{idle_ctx, cleared_ctx, removed_clears}

-- A context that is not watched yet, with its call posted, and its watch at some count.
pub record IsIdle {api : WatchApi} (c a m : ℕ) (r : api.Raw) (t : State api Adapter) : Type 0 where
  pub ctx : t.env.contexts c ≡ some (idle_ctx a)
  pub slots : t.env.slots_of a ≡ c ∷ []
  pub posted : t.env.posted ≡ c ∷ []
  pub count : t.heap a ≡ counted m (linked_to r)
  pub data_is : api.get_data t.world r ≡ some a

module _ (api : WatchApi) where
  pub run_posted-one :
      (c : ℕ) (t : State api Adapter)
      → t.env.posted ≡ c ∷ []
      → run_posted api t ≡ on_watch_change api c (record t { env = record (t.env) { posted = [] } })
  unfolding run_posted
  run_posted-one c t e = rw e refl

  change-cleared :
      (c : ℕ) (t : State api Adapter)
      → t.env.contexts c ≡ some cleared_ctx
      → on_watch_change api c t ≡ fault
  unfolding on_watch_change
  change-cleared c t e = rw e refl

  -- The reactor runs what is posted, and then libdbus removes the watch.
  pub run-removed :
      (c a m : ℕ) (r : api.Raw) (t : State api Adapter)
      → IsIdle c a m r t
      → 1 < m
      → m + 2 < int_mod
      → (s2 s3 : State api Adapter) × (run_posted api t ≡ done s2)
        × (removed api (fire api) (some r) s2 ≡ done s3)
        × (s3.env.contexts c ≡ some cleared_ctx)
        × (s3.heap a ≡ counted (m - 1) detached)
        × (s3.env.posted ≡ [])
  run-removed c a m r t idle more small =
      let t0 : State api Adapter = record t { env = record (t.env) { posted = [] } } in
      let (s2, ev, p2, rep, ctx, count, posted, slots, world) =
        change_tracks api a m r t0 idle.count c none idle.ctx (omega arith) in
      let (s3, p3, clear) =
        removed_clears api r c a (m + 1)
          (some (record { fd = api.get_unix_fd t.world r; events = ev; target = a })) (linked_to r)
          s2 (ap (λ (w : api.World). api.get_data w r) world ∙ idle.data_is)
          (ap (λ (f : ℕ → List ℕ). f a) slots ∙ idle.slots) ctx refl count (omega arith)
          (omega arith) in
      (
        s2,
        s3,
        run_posted-one c t idle.posted ∙ p2,
        p3,
        clear.ctx,
        clear.count ∙ ap (λ (k : ℕ). counted k (detached {Raw = api.Raw})) (omega arith),
        clear.posted ∙ posted,
      )

module _ (api : WatchApi) (r : api.Raw) (a n : ℕ) (s : State api Adapter) where
  -- The state after on_watch_add.
  abbrev pub added : State api Adapter
  added = record s {
    heap = update s.heap a (counted (n + 1) (linked_to r));
    env = record (s.env) {
      contexts = update s.env.contexts s.env.next (some (idle_ctx a));
      slots_of = update s.env.slots_of a (s.env.slots_of a ++ s.env.next ∷ []);
      posted = s.env.posted ++ s.env.next ∷ [];
      next = s.env.next + 1;
    };
  }

module _ (api : WatchApi) (r : api.Raw) (a n : ℕ) (s : State api Adapter)
    (data_is : api.get_data s.world r ≡ some a)
    (live : s.heap a
      ≡ some (record { refcnt = n; self = record { raw = some r; is_removed = false } }))
    (owned : 0 < n) (small : n + 3 < int_mod) (no_slots : s.env.slots_of a ≡ [])
    (none_posted : s.env.posted ≡ []) where
  abbrev after : State api Adapter
  after = added api r a n s

  pub on_watch_add-added : on_watch_add api a s ≡ done after
  unfolding on_watch_add
  on_watch_add-added = rw (add_ref-live api a n s (linked_to r) live (omega arith)) refl

  added_slots : after.env.slots_of a ≡ s.env.next ∷ []
  added_slots = update-same a s.env.slots_of ∙ ap (λ xs. xs ++ s.env.next ∷ []) no_slots

  added_posted : after.env.posted ≡ s.env.next ∷ []
  added_posted = ap (λ xs. xs ++ s.env.next ∷ []) none_posted

  pub added-IsIdle : IsIdle s.env.next a (n + 1) r after
  added-IsIdle = record {
    ctx = update-same s.env.next s.env.contexts;
    slots = added_slots;
    posted = added_posted;
    count = update-same a s.heap;
    data_is = data_is;
  }

  -- A watch that is linked, with owners and a count that does not wrap, is added when nothing is
  -- posted and no slot is connected to it. When libdbus removes it before the reactor runs the
  -- posted on_watch_change, that call dereferences the null pointer that on_watch_remove left in
  -- the context.
  pub removed_before_change :
      (s1 s2 : State api Adapter) × (on_watch_add api a s ≡ done s1)
      × (removed api (fire api) (some r) s1 ≡ done s2)
      × (run_posted api s2 ≡ fault)
  removed_before_change =
      let (s2, p2, clear) =
        removed_clears api r s.env.next a (n + 1) none (linked_to r) after data_is added_slots
          (update-same s.env.next s.env.contexts) tt (update-same a s.heap) (omega arith)
          (omega arith) in
      (
        after,
        s2,
        on_watch_add-added,
        p2,
        run_posted-one api s.env.next s2 (clear.posted ∙ added_posted)
            ∙ change-cleared api s.env.next _ clear.ctx,
      )

  -- A watch that is linked, with owners and a count that does not wrap, is added when nothing is
  -- posted and no slot is connected to it. When the reactor runs
  -- the posted on_watch_change first, and libdbus removes the watch then, no step fails, and the
  -- adapter ends without a connection to the reactor, with nothing posted, and with every reference
  -- to the watch given back that it took.
  pub removed_after_change :
      (s1 s2 s3 : State api Adapter) × (on_watch_add api a s ≡ done s1)
      × (run_posted api s1 ≡ done s2)
      × (removed api (fire api) (some r) s2 ≡ done s3)
      × (s3.env.contexts s.env.next ≡ some cleared_ctx)
      × (s3.heap a ≡ some (record { refcnt = n; self = detached }))
      × (s3.env.posted ≡ [])
  removed_after_change =
      let (s2, s3, p2, p3, ctx, count, posted) =
        run-removed api s.env.next a (n + 1) r after added-IsIdle (omega arith) (omega arith) in
      (
        after,
        s2,
        s3,
        on_watch_add-added,
        p2,
        p3,
        ctx,
        count ∙ ap (λ (k : ℕ). counted k (detached {Raw = api.Raw})) (omega arith),
        posted,
      )
