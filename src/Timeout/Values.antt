-- ===== src/Timeout/Values.antt =====
-- src/timeout.cc: the operations on a live timeout, as equations.
use dbuscc.Base.{
  update-same, ℕ, ◌+◌, ◌-◌, ◌<◌, ◌≡◌, refl, Option, some, update, Outcome, done, ◌>>=◌, arith,
}
use dbuscc.Pointer.{Counted, int_mod}
use dbuscc.Pointer.Count.{add_ref-done, release-done}
use dbuscc.Timeout.{
  TimeoutApi, Timeout, TimeoutEvent, on_remove, State, add_ref, release, handle, ms_interval,
  enabled, removed, from_raw, notify_removed, create, unref,
}
use dbuscc.Timeout.Removal.{counted, linked_to, detached}

module _ (api : TimeoutApi) {Env : Type 0} (a n : ℕ) (s : State api Env) where
  module _ (r : api.Raw) (live : s.heap a ≡ counted n (linked_to r)) where
    pub enabled-linked : enabled api a s ≡ done (api.get_enabled s.world r)
    unfolding enabled
    enabled-linked = rw live refl

    pub interval-linked : ms_interval api a s ≡ done (api.get_interval s.world r)
    unfolding ms_interval
    interval-linked = rw live refl

    pub handle-linked :
        handle api a s
        ≡ done ((api.handle s.world r).0, record s { world = (api.handle s.world r).1 })
    unfolding handle
    handle-linked = rw live refl

  module _ (w : Timeout api.Raw) (live : s.heap a ≡ counted n w) where
    pub add_ref-live :
        n + 1 < int_mod
        → add_ref api a s ≡ done (record s { heap = update s.heap a (counted (n + 1) w) })
    unfolding add_ref
    add_ref-live b = rw (add_ref-done a n w s.heap live b) refl

    pub release-live :
        1 < n
        → n < int_mod
        → release api a s ≡ done (record s { heap = update s.heap a (counted (n - 1) w) })
    unfolding release
    release-live m b = rw (release-done a n w s.heap live m b) refl

    pub removed-live :
        (fire : ℕ → TimeoutEvent → State api Env → Outcome (State api Env)) (r : api.Raw)
        → api.get_data s.world r ≡ some a
        → n + 1 < int_mod
        → removed api fire (some r) s ≡ (
            fire a on_remove (record s {
              heap = update (update s.heap a (counted (n + 1) w)) a (counted (n + 1) detached);
            })
            >>= release api a)
    unfolding removed from_raw notify_removed
    removed-live fire r g b = rw g (rw (add_ref-live b) (rw (update-same a s.heap) refl))

pub unref-release :
    (api : TimeoutApi) {Env : Type 0} (a : ℕ) (s : State api Env)
    → unref api (some a) s ≡ release api a s
unfolding unref
unref-release api a s = refl

module _ (api : TimeoutApi) {Env : Type 0} (r : api.Raw) (s : State api Env) where
  abbrev place :
      ℕ → (ℕ → Option (Counted (Timeout api.Raw))) → ℕ → Option (Counted (Timeout api.Raw))
  place n m = update m s.next (counted n (linked_to r))

  -- A new timeout, held by libdbus and by the timeout_ptr.
  abbrev pub created : State api Env
  created = record s {
    world = api.set_data s.world r s.next;
    heap = place 2 (place 1 (place 0 s.heap));
    next = s.next + 1;
  }

  pub created-live : (created).heap s.next ≡ counted 2 (linked_to r)
  created-live = update-same s.next (place 1 (place 0 s.heap))

  pub create-created : create api (some r) s ≡ done (s.next, created)
  unfolding create
  create-created =
      let s0 : State api Env = record s { heap = place 0 s.heap; next = s.next + 1 } in
      let s2 : State api Env = record s0 {
        heap = place 1 (place 0 s.heap);
        world = api.set_data s.world r s.next;
      } in
      rw (add_ref-live api s.next 0 s0 (linked_to r) (update-same s.next s.heap) (omega arith)) (
        rw
          (add_ref-live api s.next 1 s2 (linked_to r) (update-same s.next (place 0 s.heap))
            (omega arith))
          refl)
