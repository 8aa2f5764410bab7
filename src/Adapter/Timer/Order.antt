-- ===== src/Adapter/Timer/Order.antt =====
-- src/tscb-adapter.cc: a timeout that libdbus removes before the reactor runs the function that
-- was posted when it was added.
use dbuscc.Base.{
  ℕ, ℤ, ◌+◌, ◌≡◌, none, some, [], ◌∷◌, ◌++◌, update, done, fault, refl, arith, ap, ◌∙◌, update-same,
}
use dbuscc.Timeout.{TimeoutApi, State, removed}
use dbuscc.Timeout.Values.{add_ref-live, release-live, created, created-live, create-created}
use dbuscc.Connection.Sources.{add_timeout}
use dbuscc.Timeout.Removal.{counted, linked_to}
use dbuscc.Adapter.Timer.{Timers, on_timeout_add, on_timeout_change, fire, run_posted}
use dbuscc.Adapter.Timer.Removal.{idle_ctx, cleared_ctx, removed_stops}

module _ (api : TimeoutApi) (now : ℤ) where
  run_posted-one :
      (c : ℕ) (t : State api Timers)
      → t.env.posted ≡ c ∷ []
      → run_posted api now t
        ≡ on_timeout_change api now c (record t { env = record (t.env) { posted = [] } })
  unfolding run_posted
  run_posted-one c t e = rw e refl

  change-cleared :
      (c : ℕ) (t : State api Timers)
      → t.env.contexts c ≡ some cleared_ctx
      → on_timeout_change api now c t ≡ fault
  unfolding on_timeout_change
  change-cleared c t e = rw e refl

  -- libdbus adds a timeout, when nothing is posted and no slot is connected to an object at the
  -- address that it gets, and removes it before the reactor runs the posted on_timeout_change. That
  -- call dereferences the null pointer that on_timeout_remove left in the context.
  pub removed_before_schedule :
      (r : api.Raw) (s : State api Timers)
      → s.env.slots_of s.next ≡ []
      → s.env.posted ≡ []
      → (s1 s2 : State api Timers) × (add_timeout api (on_timeout_add api) (some r) s ≡ done s1)
        × (removed api (fire api now) (some r) s1 ≡ done s2)
        × (run_posted api now s2 ≡ fault)
  unfolding add_timeout on_timeout_add
  removed_before_schedule r s no_slots none_posted =
      let a = s.next in
      let c = s.env.next in
      let s0 = created api r s in
      let sa : State api Timers = record s0 {
        heap = update s0.heap a (counted 3 (linked_to r));
        env = record (s.env) {
          contexts = update s.env.contexts c (some (idle_ctx a));
          slots_of = update s.env.slots_of a (s.env.slots_of a ++ c ∷ []);
          posted = s.env.posted ++ c ∷ [];
          next = c + 1;
        };
      } in
      let s1 : State api Timers = record sa { heap = update sa.heap a (counted 2 (linked_to r)) } in
      let (s2, p2, clear) =
        removed_stops api now r c a 2 none (linked_to r) s1 (api.get_data-set_data s.world r a)
          (update-same a s.env.slots_of ∙ ap (λ xs. xs ++ c ∷ []) no_slots)
          (update-same c s.env.contexts) tt (update-same a sa.heap) (omega arith) (omega arith) in
      (
        s1,
        s2,
        rw (create-created api r s) (
            rw (add_ref-live api a 2 s0 (linked_to r) (created-live api r s) (omega arith)) (
              release-live api a 3 sa (linked_to r) (update-same a s0.heap) (omega arith)
                (omega arith))),
        p2,
        run_posted-one c s2 (clear.posted ∙ ap (λ xs. xs ++ c ∷ []) none_posted)
            ∙ change-cleared c _ clear.ctx,
      )
