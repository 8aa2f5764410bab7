-- ===== src/Timeout/Removal.antt =====
-- src/timeout.cc: what is left of a timeout once libdbus has removed it, and when it is freed.
use dbuscc.Base.{
  ℕ, ◌+◌, ◌-◌, ◌<◌, ◌≡◌, minus_one, true, false, Option, none, some, update, Outcome, done, refl,
  arith, ap, ◌∙◌,
}
use dbuscc.Pointer.{Counted, construct, int_mod}
use dbuscc.Pointer.Count.{add_ref-done, release_last, release-done}
use dbuscc.Timeout.{
  TimeoutApi, Timeout, State, TimeoutEvent, on_remove, ms_interval, enabled, handle, create,
  add_ref, release, unref, removed, notify_removed, from_raw,
}

abbrev pub counted : {Raw : Type 0} → ℕ → Timeout Raw → Option (Counted (Timeout Raw))
counted n w = some (record { refcnt = n; self = w })

abbrev pub linked_to : {Raw : Type 0} → Raw → Timeout Raw
linked_to r = record { raw = some r; is_removed = false }

abbrev pub detached : {Raw : Type 0} → Timeout Raw
detached = record { raw = none; is_removed = true }

module _ (api : TimeoutApi) {Env : Type 0} where
  open api use {Raw}

  -- A timeout that answers every call by itself.
  abbrev pub IsInert : ℕ → State api Env → Type 0
  IsInert a s =
      (ms_interval api a s ≡ done minus_one)
      × (enabled api a s ≡ done false)
      × (handle api a s ≡ done (false, s))

  detached-IsInert :
      (a : ℕ) (s : State api Env) (c : Counted (Timeout Raw))
      → s.heap a ≡ some c
      → c.self ≡ detached {Raw = Raw}
      → IsInert a s
  unfolding ms_interval enabled handle
  detached-IsInert a s c e d = (ground (arith, e, d), ground (arith, e, d), ground (arith, e, d))

  module _ (a n : ℕ) (w : Timeout Raw) (s : State api Env) (live : s.heap a ≡ counted n w) where
    add_ref_at :
        n + 1 < int_mod
        → (s' : State api Env) × (add_ref api a s ≡ done s')
          × (s'.heap a ≡ counted (n + 1) w)
          × (s'.world ≡ s.world)
    unfolding add_ref
    add_ref_at b = (
      record s { heap = update s.heap a (counted (n + 1) w) },
      rw (add_ref-done a n w s.heap live b),
      ground arith,
      refl,
    )

    release_at :
        1 < n
        → n < int_mod
        → (s' : State api Env) × (release api a s ≡ done s')
          × (s'.heap a ≡ counted (n - 1) w)
          × (s'.world ≡ s.world)
    unfolding release
    release_at m b = (
      record s { heap = update s.heap a (counted (n - 1) w) },
      rw (release-done a n w s.heap live m b),
      ground arith,
      refl,
    )

    release_last_at :
        n ≡ 1 → (s' : State api Env) × (release api a s ≡ done s') × (s'.heap a ≡ none)
    unfolding release
    release_last_at one = (
      record s { heap = update s.heap a none },
      rw (release_last a n w s.heap live one),
      ground arith,
    )

  create_at :
      (r : Raw) (s : State api Env)
      → (s' : State api Env) × (create api (some r) s ≡ done (s.next, s'))
        × (s'.heap s.next ≡ counted 2 (linked_to r))
        × (api.get_data s'.world r ≡ some s.next)
  unfolding create
  create_at r s =
      let s0 : State api Env = record s {
        heap = update s.heap s.next (some (construct (linked_to r)));
        next = s.next + 1;
      } in
      let (s1, p1, h1, _) = add_ref_at s.next 0 (linked_to r) s0 (ground arith) (omega arith) in
      let s2 : State api Env = record s1 { world = api.set_data s1.world r s.next } in
      let (s3, p3, h3, w3) = add_ref_at s.next 1 (linked_to r) s2 h1 (omega arith) in
      (
        s3,
        rw p1 (rw p3),
        h3,
        ap (λ (w : api.World). api.get_data w r) w3 ∙ api.get_data-set_data s1.world r s.next,
      )

  -- Slots that leave libdbus and the timeouts alone, as code that holds no pointer to them must.
  abbrev pub IsQuiet : (ℕ → TimeoutEvent → State api Env → Outcome (State api Env)) → Type 0
  IsQuiet fire =
      (a : ℕ) (e : TimeoutEvent) (s : State api Env)
      → (env : Env) × (fire a e s ≡ done (record s { env = env }))

  module _ (fire : ℕ → TimeoutEvent → State api Env → Outcome (State api Env))
      (quiet : IsQuiet fire) where
    removed_at :
        (r : Raw) (a n : ℕ) (w : Timeout Raw) (s : State api Env)
        → api.get_data s.world r ≡ some a
        → s.heap a ≡ counted n w
        → 0 < n
        → n + 1 < int_mod
        → (s' : State api Env) × (removed api fire (some r) s ≡ done s')
          × (s'.heap a ≡ counted n detached)
          × (s'.world ≡ s.world)
    unfolding removed from_raw notify_removed
    removed_at r a n w s g live m b =
        let (s1, p1, h1, w1) = add_ref_at a n w s live b in
        let s2 : State api Env = record s1 { heap = update s1.heap a (counted (n + 1) detached) } in
        let (env, p2) = quiet a on_remove s2 in
        let s3 : State api Env = record s2 { env = env } in
        let (s4, p4, h4, w4) = release_at a (n + 1) detached s3 (ground arith) (omega arith) b in
        (
          s4,
          rw g (rw p1 (rw h1 (rw p2 p4))),
          h4 ∙ ap (λ (k : ℕ). counted k (detached {Raw = Raw})) (omega arith),
          w4 ∙ w1,
        )

    -- A timeout whose client lets go of it at once lives until libdbus gives its reference back:
    -- `create` hands out the pointer and stores the object as the data of the raw timeout, the
    -- client's release leaves it alive, `removed` detaches it and leaves it alive and inert, and
    -- `unref` frees it. No step fails. The slots leave libdbus and the timeouts alone.
    pub timeout_lifecycle :
        (r : Raw) (s : State api Env)
        → (s1 s2 s3 s4 : State api Env) × (create api (some r) s ≡ done (s.next, s1))
          × (api.get_data s1.world r ≡ some s.next)
          × (release api s.next s1 ≡ done s2)
          × (removed api fire (some r) s2 ≡ done s3)
          × IsInert s.next s3
          × (unref api (some s.next) s3 ≡ done s4)
          × (s4.heap s.next ≡ none)
    unfolding unref
    timeout_lifecycle r s =
        let (s1, p1, h1, g1) = create_at r s in
        let (s2, p2, h2, w2) =
          release_at s.next 2 (linked_to r) s1 h1 (omega arith) (omega arith) in
        let g2 : api.get_data s2.world r ≡ some s.next =
          ap (λ (w : api.World). api.get_data w r) w2 ∙ g1 in
        let (s3, p3, h3, w3) =
          removed_at r s.next 1 (linked_to r) s2 g2 h2 (omega arith) (omega arith) in
        let (s4, p4, h4) = release_last_at s.next 1 detached s3 h3 refl in
        (s1, s2, s3, s4, p1, g1, p2, p3, detached-IsInert s.next s3 _ h3 refl, p4, h4)

    -- Once libdbus has removed the raw timeout of an object that a client still holds, the object
    -- is detached and answers every call by itself: the interval -1, not enabled, and no call of
    -- libdbus from `handle`. The slots leave libdbus and the timeouts alone,
    -- and the count does not wrap.
    pub removed-timeout_IsInert :
        (r : Raw) (a n : ℕ) (w : Timeout Raw) (s : State api Env)
        → api.get_data s.world r ≡ some a
        → s.heap a ≡ some (record { refcnt = n; self = w })
        → 0 < n
        → n + 1 < int_mod
        → (s' : State api Env) × (removed api fire (some r) s ≡ done s')
          × (s'.heap a ≡ some (record { refcnt = n; self = detached }))
          × (s'.world ≡ s.world)
          × IsInert a s'
    removed-timeout_IsInert r a n w s g live m b =
        let (s', p, h, e) = removed_at r a n w s g live m b in
        (s', p, h, e, detached-IsInert a s' _ h refl)
