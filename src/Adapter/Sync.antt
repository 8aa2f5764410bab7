-- ===== src/Adapter/Sync.antt =====
-- src/tscb-adapter.cc: what the reactor watches for the watches that libdbus has, over the calls of
-- libdbus and of the reactor in any order.
pub mod Change
pub mod Kept
pub mod Remove
pub mod Add
pub mod Reach
pub mod Signals
pub mod Steps
pub mod Tests
pub mod World
use dbuscc.Base.{
  ℕ, ◌+◌, ◌<◌, ◌≡◌, ◌⊎◌, Bool, true, false, ◌&&◌, ◌||◌, Option, none, some, List, [], ◌∷◌, contains,
  update, refl,
}
use dbuscc.Pointer.{Store}
use dbuscc.Watch.{WatchApi, Watch, State, readable, writable}
use dbuscc.Watch.Removal.{counted, linked_to}
use dbuscc.Adapter.{IoEvents, IoConnection, IoCtx, Adapter}
use dbuscc.Adapter.Removal.{cleared_ctx}

abbrev pub ctx_of : ℕ → Option IoConnection → IoCtx
ctx_of a conn = record { watch = some a; conn = conn }

module _ (api : WatchApi) where
  open api use {Raw, World}

  -- The object at an address is alive and wraps the raw watch, which libdbus has not removed.
  abbrev pub Linked : Store (Watch Raw) → ℕ → Raw → Type 0
  Linked h b r = (n : ℕ) × (h b ≡ counted n (linked_to r))

  -- The events that libdbus wants of a raw watch.
  pub record IsWanted (w : World) (r : Raw) (ev : IoEvents) : Type 0 where
    pub input : ev.input ≡ (api.get_enabled w r && api.test_bit (api.get_flags w r) readable)
    pub output : ev.output ≡ (api.get_enabled w r && api.test_bit (api.get_flags w r) writable)
    pub error : ev.error ≡ false
    pub hangup : ev.hangup ≡ false

  -- The reactor watches the descriptor of a raw watch, for the events that libdbus wants, and
  -- handles the object at the address.
  pub record IsWatched (w : World) (a : ℕ) (r : Raw) (io : IoConnection) : Type 0 where
    pub fd : io.fd ≡ api.get_unix_fd w r
    pub target : io.target ≡ a
    pub events : IsWanted w r io.events

  -- A context with a watch. Until a posted call for it has run, or a call that `stale` still has to
  -- run, the reactor may watch for other events than libdbus wants, or not at all.
  pub record IsTracked (stale : List ℕ) (c a : ℕ) (conn : Option IoConnection)
      (s : State api Adapter) : Type 0 where
    pub slot : contains c (s.env.slots_of a) ≡ true
    pub address : a < s.next
    pub context : c < s.env.next
    pub descriptor :
        (io : IoConnection) (r : Raw)
        → conn ≡ some io
        → Linked s.heap a r
        → (io.fd ≡ api.get_unix_fd s.world r) × (io.target ≡ a)
    pub current :
        ((contains c stale || contains c s.env.posted) ≡ true)
        ⊎ ((r : Raw)
            → Linked s.heap a r
            → (io : IoConnection) × (conn ≡ some io) × IsWatched s.world a r io)

  pub record IsSynced (stale : List ℕ) (s : State api Adapter) : Type 0 where
    pub tracked :
        (c a : ℕ) (conn : Option IoConnection)
        → s.env.contexts c ≡ some (ctx_of a conn)
        → IsTracked stale c a conn s
    pub data_is : (b : ℕ) (r : Raw) → Linked s.heap b r → api.get_data s.world r ≡ some b
    pub fresh : (b : ℕ) (r : Raw) → Linked s.heap b r → b < s.next
    pub served :
        (b : ℕ) (r : Raw)
        → Linked s.heap b r
        → (c : ℕ) × (conn : Option IoConnection) × (s.env.contexts c ≡ some (ctx_of b conn))
    pub owned :
        (c a : ℕ)
        → contains c (s.env.slots_of a) ≡ true
        → (c < s.env.next)
          × (((conn : Option IoConnection) × (s.env.contexts c ≡ some (ctx_of a conn)))
              ⊎ (s.env.contexts c ≡ some cleared_ctx))

  -- A state with another heap, and with another context at an address.
  abbrev pub put : State api Adapter → Store (Watch Raw) → ℕ → IoCtx → State api Adapter
  put s h c ctx = record s {
    heap = h;
    env = record (s.env) { contexts = update s.env.contexts c (some ctx) };
  }
