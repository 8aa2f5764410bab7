-- ===== src/Adapter/Timer/Schedule.antt =====
-- src/tscb-adapter.cc: the timer that on_timeout_change leaves, and its next time.
use dbuscc.Base.{
  ℕ, ◌+◌, ◌-◌, ◌<◌, ◌≡◌, ℤ, ◌+ℤ◌, Bool, true, false, Option, none, some, update, done, ◌>>=◌, refl,
  arith, inl, inr, if◌then◌else◌, Bool-cases, ap, ◌∙◌, update-same,
}
use dbuscc.Pointer.{int_mod}
use dbuscc.Timeout.{TimeoutApi, State, enabled}
use dbuscc.Timeout.Values.{
  enabled-linked, interval-linked, handle-linked, add_ref-live, release-live,
}
use dbuscc.Timeout.Removal.{counted, linked_to}
use dbuscc.Adapter.Timer.{TimerConnection, Timers, set_timer, on_timeout_change, on_timer}

-- The timer of a context, and the references that it holds.
abbrev pub IsFor : ℕ → Option TimerConnection → Type 0
IsFor a none = Unit {0}
IsFor a (some t) = t.target ≡ a

abbrev pub timers_held : Option TimerConnection → ℕ
timers_held none = 0
timers_held (some t) = 1

abbrev pub timer_if : Bool → ℤ → ℕ → Option TimerConnection
timer_if true when a = some (record { when = when; target = a })
timer_if false when a = none

module _ (api : TimeoutApi) (a : ℕ) (r : api.Raw) (now : ℤ) where
  -- The timer that the timeout of a state wants.
  abbrev pub wanted : State api Timers → Option TimerConnection
  wanted s = timer_if (api.get_enabled s.world r) (now +ℤ api.get_interval s.world r) a

  -- A state in which the context has the given timer and the timeout is at some count, and libdbus,
  -- the slots and what is posted are as in another.
  pub record IsScheduled (c m : ℕ) (conn : Option TimerConnection) (s s' : State api Timers)
      : Type 0 where
    pub ctx : s'.env.contexts c ≡ some (record { timeout = some a; conn = conn })
    pub count : s'.heap a ≡ counted m (linked_to r)
    pub world : s'.world ≡ s.world
    pub posted : s'.env.posted ≡ s.env.posted
    pub slots : s'.env.slots_of ≡ s.env.slots_of

  recount : {k l : ℕ} → k ≡ l → counted k (linked_to r) ≡ counted l (linked_to r)
  recount e = ap (λ (k : ℕ). counted k (linked_to r)) e

  schedule :
      (c m : ℕ) (s : State api Timers)
      → s.env.contexts c ≡ some (record { timeout = some a; conn = none })
      → s.heap a ≡ counted m (linked_to r)
      → m + 1 < int_mod
      → (s' : State api Timers) × ((enabled api a s >>= λ e.
            if e then set_timer api c a now s else done s)
          ≡ done s')
        × IsScheduled c (m + timers_held (wanted s)) (wanted s) s s'
  unfolding set_timer
  schedule c m s has live b = elim (Bool-cases (api.get_enabled s.world r)) [
    | inl on ↦
        let t : TimerConnection = record { when = now +ℤ api.get_interval s.world r; target = a } in
        (
          record s {
            heap = update s.heap a (counted (m + 1) (linked_to r));
            env = record (s.env) {
              contexts =
                  update s.env.contexts c (some (record { timeout = some a; conn = some t }));
            };
          },
          rw (enabled-linked api a m s r live) (
              rw on (
                rw (interval-linked api a m s r live)
                  (rw (add_ref-live api a m s (linked_to r) live b) refl))),
          record {
            ctx = rw on (update-same c s.env.contexts);
            count = rw on (update-same a s.heap);
            world = refl;
            posted = refl;
            slots = refl;
          },
        )
    | inr off ↦ (
      s,
      rw (enabled-linked api a m s r live) (rw off refl),
      record {
        ctx = rw off has;
        count = rw off (live ∙ recount (omega arith));
        world = refl;
        posted = refl;
        slots = refl;
      },
    )
  ]

  -- After on_timeout_change of the context of a linked timeout the reactor runs a timer for it
  -- exactly when libdbus has the timeout enabled, due after its interval from now, and the one
  -- that it ran before is gone. The count of the timeout has one reference for the timer and no
  -- other change; what is posted, the slots and libdbus are left alone. The timeout has another
  -- owner than the timer, and its count does not wrap.
  pub change_schedules :
      (c m : ℕ) (conn : Option TimerConnection) (s : State api Timers)
      → s.env.contexts c ≡ some (record { timeout = some a; conn = conn })
      → IsFor a conn
      → s.heap a ≡ some (record { refcnt = m; self = record { raw = some r; is_removed = false } })
      → timers_held conn < m
      → m + 1 < int_mod
      → (s' : State api Timers) × (on_timeout_change api now c s ≡ done s')
        × IsScheduled c (m - timers_held conn + timers_held (wanted s)) (wanted s) s s'
  unfolding on_timeout_change
  change_schedules c m none s has on live more b =
      let s1 : State api Timers = record s {
        env = record (s.env) {
          contexts = update s.env.contexts c (some (record { timeout = some a; conn = none }));
        };
      } in
      let (s', p, v) = schedule c m s1 (update-same c s.env.contexts) live b in
      (
        s',
        rw has p,
        record {
          ctx = v.ctx;
          count = v.count ∙ recount (omega arith);
          world = v.world;
          posted = v.posted;
          slots = v.slots;
        },
      )
  change_schedules c m (some t) s has on live more b =
      let s0 : State api Timers = record s {
        heap = update s.heap a (counted (m - 1) (linked_to r));
      } in
      let s1 : State api Timers = record s0 {
        env = record (s.env) {
          contexts = update s.env.contexts c (some (record { timeout = some a; conn = none }));
        };
      } in
      let (s', p, v) =
        schedule c (m - 1) s1 (update-same c s.env.contexts) (update-same a s.heap) (omega arith) in
      (
        s',
        rw has (rw on (rw (release-live api a m s (linked_to r) live more (omega arith)) p)),
        record {
          ctx = v.ctx;
          count = v.count;
          world = v.world;
          posted = v.posted;
          slots = v.slots;
        },
      )

  -- When the timer of a linked timeout runs, libdbus handles the timeout once, and the timer is due
  -- again after the interval that libdbus then has.
  pub timer_handles :
      (m : ℕ) (s : State api Timers)
      → s.heap a ≡ some (record { refcnt = m; self = record { raw = some r; is_removed = false } })
      → let w = (api.handle s.world r).1 in
        on_timer api now a s ≡ done (now +ℤ api.get_interval w r, record s { world = w })
  unfolding on_timer
  timer_handles m s live =
      let s1 : State api Timers = record s { world = (api.handle s.world r).1 } in
      rw (handle-linked api a m s r live) (rw (interval-linked api a m s1 r live) refl)
