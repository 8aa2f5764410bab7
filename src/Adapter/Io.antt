-- ===== src/Adapter/Io.antt =====
-- src/tscb-adapter.cc: what the reactor watches for a watch, and what it hands to libdbus.
use dbuscc.Base.{
  ℕ, ◌+◌, ◌<◌, ◌≡◌, Bool, false, ◌&&◌, Option, none, some, update, done, ◌>>=◌, refl, arith, inl,
  inr, if◌then◌else◌, Bool-cases, ◌∙◌,
}
use dbuscc.Pointer.{int_mod}
use dbuscc.Watch.{
  WatchApi, Bit, readable, writable, hangup, error, WatchFlags, has_flag, flag_read, flag_write,
  State, flags,
}
use dbuscc.Watch.Flags.{handle_translates, flags_report, flag_of}
use dbuscc.Watch.Values.{enabled-linked, fd-linked, add_ref-live}
use dbuscc.Watch.Removal.{counted, linked_to}
use dbuscc.Adapter.{
  IoEvents, ioready_none, IoConnection, Adapter, events_of, flags_of, on_watch_change, on_io_ready,
}

-- The events as the bits of libdbus.
abbrev pub event_of : IoEvents → Bit → Bool
event_of e readable = e.input
event_of e writable = e.output
event_of e hangup = e.hangup
event_of e error = e.error

has_flag-flags_of :
    (i o e h : Bool) (b : Bit)
    → has_flag (flags_of (record { input = i; output = o; error = e; hangup = h })) (flag_of b)
      ≡ event_of (record { input = i; output = o; error = e; hangup = h }) b
unfolding flags_of
has_flag-flags_of i o e h readable = ground arith
has_flag-flags_of i o e h writable = ground arith
has_flag-flags_of i o e h hangup = ground arith
has_flag-flags_of i o e h error = ground arith

input-events_of : (fl : WatchFlags) → (events_of fl).input ≡ has_flag fl flag_read
unfolding events_of
input-events_of fl = ground arith

output-events_of : (fl : WatchFlags) → (events_of fl).output ≡ has_flag fl flag_write
unfolding events_of
output-events_of fl = ground arith

error-events_of : (fl : WatchFlags) → (events_of fl).error ≡ false
unfolding events_of
error-events_of fl = ground arith

hangup-events_of : (fl : WatchFlags) → (events_of fl).hangup ≡ false
unfolding events_of
hangup-events_of fl = ground arith

module _ (api : WatchApi) (a n : ℕ) (r : api.Raw) (s : State api Adapter)
    (live : s.heap a
      ≡ some (record { refcnt = n; self = record { raw = some r; is_removed = false } })) where
  -- When the reactor finds the descriptor of a linked watch ready, libdbus handles the watch once,
  -- with exactly the bits of the events that the reactor reports.
  pub ready_handles :
      (e : IoEvents)
      → (w : api.Word) × (on_io_ready api a e s
          ≡ done (record s { world = (api.handle s.world r w).1 }))
        × ((b : Bit) → api.test_bit w b ≡ event_of e b)
  unfolding on_io_ready
  ready_handles e =
      let (w, p, t) = handle_translates api a s n r live (flags_of e) in
      (w, rw p refl, λ b. t b ∙ has_flag-flags_of e.input e.output e.error e.hangup b)

  abbrev pub Reported : Bool × Bool → IoEvents → Type 0
  Reported (rd, wr) ev =
      (ev.input ≡ rd) × (ev.output ≡ wr) × (ev.error ≡ false) × (ev.hangup ≡ false)

  pub change_events :
      (ev : IoEvents) × ((if api.get_enabled s.world r
          then (do fl ← flags api a s; done (events_of fl))
          else done ioready_none)
        ≡ done ev)
      × Reported
          (
            api.get_enabled s.world r && api.test_bit (api.get_flags s.world r) readable,
            api.get_enabled s.world r && api.test_bit (api.get_flags s.world r) writable,
          )
          ev
  change_events = elim (Bool-cases (api.get_enabled s.world r)) [
    | inl on ↦
        let (fl, p, rd, wr, _, _) = flags_report api a s n r live in
        (
          events_of fl,
          rw on (rw p refl),
          (
            input-events_of fl ∙ rd,
            output-events_of fl ∙ wr,
            error-events_of fl,
            hangup-events_of fl,
          ),
        )
    | inr off ↦ (ioready_none, rw off refl, (rw off refl, rw off refl, refl, refl))
  ]

  -- After on_watch_change of the context of a linked watch the reactor watches the descriptor of
  -- the watch for input exactly when libdbus has the watch enabled and readable, for output
  -- exactly when enabled and writable, and for nothing else. A new connection to the reactor
  -- holds one more reference to the watch; one that is there keeps its descriptor and adds none.
  -- What is posted, the slots of the watches and libdbus are left alone. The count of the watch
  -- does not wrap.
  pub change_tracks :
      (c : ℕ) (conn : Option IoConnection)
      → s.env.contexts c ≡ some (record { watch = some a; conn = conn })
      → n + 1 < int_mod
      → (s' : State api Adapter) × (ev : IoEvents) × (on_watch_change api c s ≡ done s')
        × Reported
            (
              api.get_enabled s.world r && api.test_bit (api.get_flags s.world r) readable,
              api.get_enabled s.world r && api.test_bit (api.get_flags s.world r) writable,
            )
            ev
        × (s'.env.contexts c
            ≡ some (record {
              watch = some a;
              conn = some (elim conn [
                | none ↦ record { fd = api.get_unix_fd s.world r; events = ev; target = a }
                | some io ↦ record io { events = ev }
              ]);
            }))
        × (s'.heap a ≡ (elim conn [
          | none ↦ counted (n + 1) (linked_to r)
          | some io ↦ counted n (linked_to r)
        ]))
        × (s'.env.posted ≡ s.env.posted)
        × (s'.env.slots_of ≡ s.env.slots_of)
        × (s'.world ≡ s.world)
  unfolding on_watch_change
  change_tracks c none has b =
      let (ev, p, rep) = change_events in
      let io : IoConnection = record { fd = api.get_unix_fd s.world r; events = ev; target = a } in
      (
        record s {
          heap = update s.heap a (counted (n + 1) (linked_to r));
          env = record (s.env) {
            contexts = update s.env.contexts c (some (record { watch = some a; conn = some io }));
          };
        },
        ev,
        rw has (
            rw (enabled-linked api a n s r live) (
              rw p (
                rw (fd-linked api a n s r live)
                  (rw (add_ref-live api a n s (linked_to r) live b) refl)))),
        rep,
        ground arith,
        ground arith,
        refl,
        refl,
        refl,
      )
  change_tracks c (some io) has b =
      let (ev, p, rep) = change_events in
      (
        record s {
          env = record (s.env) {
            contexts =
                update s.env.contexts c
                  (some (record { watch = some a; conn = some (record io { events = ev }) }));
          };
        },
        ev,
        rw has (rw (enabled-linked api a n s r live) (rw p refl)),
        rep,
        ground arith,
        live,
        refl,
        refl,
        refl,
      )
