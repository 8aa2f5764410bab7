-- ===== src/Adapter/Sync/Steps.antt =====
-- src/connection.cc, src/watch.cc, src/tscb-adapter.cc: the calls of libdbus and of the reactor
-- on the watches of a connection that has the adapter, and that each keeps the contexts in step.
use dbuscc.Base.{
  ℕ, ◌≡◌, ◌⊎◌, inl, inr, ◌==◌, true, some, [], contains, update, done, >>=-eq-done, arith,
  Bool-cases, sym, ◌∙◌, subst,
}
use dbuscc.Watch.{WatchApi, State, handle, unref, toggled, removed}
use dbuscc.Watch.Removal.{counted, detached}
use dbuscc.Watch.Values.{unref-release}
use dbuscc.Watch.Frame.{Keeps-detach, add_ref-Keeps, toggled-parts, removed-parts, handle-world}
use dbuscc.Connection.Sources.{add_watch}
use dbuscc.Adapter.{IoEvents, Adapter, on_watch_add, on_io_ready, fire, run_posted}
use dbuscc.Adapter.Sync.{Linked, IsSynced}
use dbuscc.Adapter.Sync.World.{SameHandle, SameEvents, reworld-IsSynced}
use dbuscc.Adapter.Sync.Add.{add_watch-parts, added-IsSynced}
use dbuscc.Adapter.Sync.Signals.{
  recounted-IsSynced, add_ref-IsSynced, release-IsSynced, fire_change-IsSynced,
  fire_remove-IsSynced, run_posted-IsSynced,
}

module _ (api : WatchApi) where
  open api use {Raw, World, Word}

  -- A call that returned. libdbus adds a raw watch that it has not added yet. It toggles one after
  -- it changed whether that is enabled, and its flags. What it does to its watches while it
  -- handles one it tells by calls of their own.
  pub data Step : State api Adapter → State api Adapter → Type 0 where
    adds :
        {s s' : State api Adapter} (r : Raw)
        → ((b : ℕ) → ¬ Linked api s.heap b r)
        → add_watch api (on_watch_add api) (some r) s ≡ done s'
        → Step s s'
    toggles :
        {s s' : State api Adapter} (r : Raw) (w' : World)
        → ((r2 : Raw) → SameHandle api s.world w' r2)
        → ((r2 : Raw) → (r ≡ r2) ⊎ SameEvents api s.world w' r2)
        → toggled api (fire api) (some r) (record s { world = w' }) ≡ done s'
        → Step s s'
    removes :
        {s s' : State api Adapter} (r : Raw)
        → removed api (fire api) (some r) s ≡ done s'
        → Step s s'
    frees : {s s' : State api Adapter} (a : ℕ) → unref api (some a) s ≡ done s' → Step s s'
    runs : {s s' : State api Adapter} → run_posted api s ≡ done s' → Step s s'
    is_ready :
        {s s' : State api Adapter} (a : ℕ) (e : IoEvents)
        → on_io_ready api a e s ≡ done s'
        → ((r : Raw) → SameHandle api s.world s'.world r)
        → ((r : Raw) → SameEvents api s.world s'.world r)
        → Step s s'

  toggles-IsSynced :
      (r : Raw) (w' : World) (s s' : State api Adapter)
      → ((r2 : Raw) → SameHandle api s.world w' r2)
      → ((r2 : Raw) → (r ≡ r2) ⊎ SameEvents api s.world w' r2)
      → toggled api (fire api) (some r) (record s { world = w' }) ≡ done s'
      → IsSynced api [] s
      → IsSynced api [] s'
  toggles-IsSynced r w' s s' same events e v =
      let (a, s1, s2, g, p1, p2, p3) =
        toggled-parts api (fire api) r (record s { world = w' }) s' e in
      let owner : api.get_data s.world r ≡ some a = sym (same r).0 ∙ g in
      let stale : (c b : ℕ)
          → contains c (s.env.slots_of b) ≡ true
          → (contains c (s.env.slots_of a) ≡ true)
            ⊎ ((r2 : Raw) → Linked api s.heap b r2 → SameEvents api s.world w' r2) =
        λ c b m. elim (Bool-cases (b == a)) [
          | inl p ↦ inl (ground (arith, p, m))
          | inr p ↦ inr λ r2 l. elim (events r2) [
            | inl q ↦
                let other = subst (λ (x : Raw). api.get_data s.world x ≡ some a) q owner in
                absurd (ground (arith, p, other, v.data_is b r2 l))
            | inr x ↦ x
          ]
        ] in
      let v1 = reworld-IsSynced api (s.env.slots_of a) s w' same stale v in
      let v2 = add_ref-IsSynced api (s.env.slots_of a) a _ s1 p1 v1 in
      let (h, same1, k) = add_ref-Keeps api a (record s { world = w' }) s1 p1 in
      let v3 =
        fire_change-IsSynced api a s1 s2 p2
          (subst (λ (x : State api Adapter). IsSynced api (x.env.slots_of a) s1) same1 v2) in
      release-IsSynced api [] a s2 s' p3 v3

  removes-step-IsSynced :
      (r : Raw) (s s' : State api Adapter)
      → removed api (fire api) (some r) s ≡ done s'
      → IsSynced api [] s
      → IsSynced api [] s'
  removes-step-IsSynced r s s' e v =
      let (a, c, s1, s2, g, p1, p_c, p2, p3) = removed-parts api (fire api) r s s' e in
      let v1 = add_ref-IsSynced api [] a s s1 p1 v in
      let h = update s1.heap a (counted c.refcnt detached) in
      let v2 = recounted-IsSynced api [] s1 h (Keeps-detach a c.refcnt s1.heap) v1 in
      let v3 =
        fire_remove-IsSynced api a (record s1 { heap = h }) s2 p2 (λ r2 (m, l). ground (arith, l))
          v2 in
      release-IsSynced api [] a s2 s' p3 v3

  is_ready-IsSynced :
      (a : ℕ) (e : IoEvents) (s s' : State api Adapter)
      → on_io_ready api a e s ≡ done s'
      → ((r : Raw) → SameHandle api s.world s'.world r)
      → ((r : Raw) → SameEvents api s.world s'.world r)
      → IsSynced api [] s
      → IsSynced api [] s'
  unfolding on_io_ready
  is_ready-IsSynced a e s s' p same events v =
      let ((ok, s1), p1, q1) = >>=-eq-done (handle api a _ s) _ p in
      let only : record s { world = s1.world } ≡ s1 = handle-world api a _ s ok s1 p1 in
      let end : record s { world = s'.world } ≡ s' =
        subst (λ (x : State api Adapter). record s { world = x.world } ≡ x) (cc (q1)) only in
      subst (IsSynced api []) end
        (reworld-IsSynced api [] s s'.world same (λ c b m. inr λ r l. events r) v)

  unref-IsSynced :
      (a : ℕ) (s s' : State api Adapter)
      → unref api (some a) s ≡ done s'
      → IsSynced api [] s
      → IsSynced api [] s'
  unref-IsSynced a s s' e v = release-IsSynced api [] a s s' (sym (unref-release api a s) ∙ e) v

  -- What dbus_watch_set_data does to the watches: it sets the data of one.
  module _
      (others : (w : World) (r r2 : Raw) (a : ℕ)
        → (r ≡ r2) ⊎ SameHandle api w (api.set_data w r a) r2)
      (events : (w : World) (r r2 : Raw) (a : ℕ) → SameEvents api w (api.set_data w r a) r2) where
    adds-IsSynced :
        (r : Raw) (s s' : State api Adapter)
        → ((b : ℕ) → ¬ Linked api s.heap b r)
        → add_watch api (on_watch_add api) (some r) s ≡ done s'
        → IsSynced api [] s
        → IsSynced api [] s'
    adds-IsSynced r s s' un e v =
        let (h, same, links) = add_watch-parts api r s s' e in
        subst (IsSynced api []) same (
          added-IsSynced api r s (api.set_data s.world r s.next) h links un
            (api.get_data-set_data s.world r s.next) (λ r2. others s.world r r2 s.next)
            (λ r2. events s.world r r2 s.next) v)

    pub Step-IsSynced :
        {s s' : State api Adapter} → Step s s' → IsSynced api [] s → IsSynced api [] s'
    Step-IsSynced {s} {s'} (adds r un e) v = adds-IsSynced r s s' un e v
    Step-IsSynced {s} {s'} (toggles r w' same ev e) v = toggles-IsSynced r w' s s' same ev e v
    Step-IsSynced {s} {s'} (removes r e) v = removes-step-IsSynced r s s' e v
    Step-IsSynced {s} {s'} (frees a e) v = unref-IsSynced a s s' e v
    Step-IsSynced {s} {s'} (runs e) v = run_posted-IsSynced api s s' e v
    Step-IsSynced {s} {s'} (is_ready a e p same ev) v = is_ready-IsSynced a e s s' p same ev v
