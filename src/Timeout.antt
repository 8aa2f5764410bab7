-- ===== src/Timeout.antt =====
-- src/timeout.cc, include/dbuscc/timeout.h and include/dbuscc/glue/timeout.h: a DBusTimeout and
-- the object that wraps it. libdbus is a parameter, and so are the slots that clients connect to
-- the two signals of a timeout: `fire` is what an invocation does to the state.
pub mod Invariant
pub mod Removal
pub mod Values
pub mod Tests
use dbuscc.Base.{
  ℕ, ◌+◌, ◌≡◌, ℤ, minus_one, Bool, true, false, Option, none, some, update, Outcome, done, ◌>>=◌,
  ◌>>◌, assert_ptr, deref, ◌==◌, if◌then◌else◌,
}
use dbuscc.Pointer.{Counted, Store, construct, intrusive_ptr_add_ref, intrusive_ptr_release}

-- What the code uses of libdbus: the data of a timeout is what was set last.
pub record TimeoutApi : Type 1 where
  pub World : Type 0
  pub Raw : Type 0
  pub get_enabled : World → Raw → Bool
  pub get_interval : World → Raw → ℤ
  pub handle : World → Raw → Bool × World
  pub get_data : World → Raw → Option ℕ
  pub set_data : World → Raw → ℕ → World
  pub get_data-set_data : (w : World) (r : Raw) (a : ℕ) → get_data (set_data w r a) r ≡ some a

pub data TimeoutEvent : Type 0 where
  on_change on_remove : TimeoutEvent

-- class timeout: its members but the signals, which `fire` stands for.
pub record Timeout (Raw : Type 0) : Type 0 where
  pub raw : Option Raw
  pub is_removed : Bool

-- libdbus, the timeout objects by address, the next free address, and the rest of the program.
pub record State (api : TimeoutApi) (Env : Type 0) : Type 0 where
  pub world : api.World
  pub heap : Store (Timeout api.Raw)
  pub next : ℕ
  pub env : Env

module _ (api : TimeoutApi) {Env : Type 0} where
  open api use {Raw}

  -- Access to the members of the object at an address.
  pub this : ℕ → State api Env → Outcome (Timeout Raw)
  this a s = do c ← deref (s.heap a); done c.self

  pub with_heap : State api Env → Outcome (Store (Timeout Raw)) → Outcome (State api Env)
  with_heap s m = do h ← m; done (record s { heap = h })

  pub add_ref : ℕ → State api Env → Outcome (State api Env)
  unfolding with_heap
  add_ref a s = with_heap s (intrusive_ptr_add_ref a s.heap)

  -- The destructor has only the members to clear.
  pub release : ℕ → State api Env → Outcome (State api Env)
  unfolding with_heap
  release a s = with_heap s (intrusive_ptr_release a s.heap)

  pub ms_interval : ℕ → State api Env → Outcome ℤ
  unfolding this
  ms_interval a s = do
    w ← this a s
    if w.is_removed
        then done minus_one
        else do raw ← assert_ptr w.raw; done (api.get_interval s.world raw)

  pub enabled : ℕ → State api Env → Outcome Bool
  unfolding this
  enabled a s = do
    w ← this a s
    if w.is_removed
        then done false
        else do raw ← assert_ptr w.raw; done (api.get_enabled s.world raw)

  pub handle : ℕ → State api Env → Outcome (Bool × State api Env)
  unfolding this
  handle a s = do
    w ← this a s
    if w.is_removed then done (false, s) else do
      raw ← assert_ptr w.raw
      let (ok, world) = api.handle s.world raw
      done (ok, record s { world = world })

  -- new internal::timeout(raw), turned into a timeout_ptr: the constructor takes the reference that
  -- libdbus keeps as the data of the raw timeout, the pointer takes another.
  pub create : Option Raw → State api Env → Outcome (ℕ × State api Env)
  unfolding add_ref construct
  create raw s = do
    let a = s.next
    let w : Timeout Raw = record { raw = raw; is_removed = false }
    s1 ← done (record s { heap = update s.heap a (some (construct w)); next = a + 1 })
    r ← assert_ptr raw
    s2 ← add_ref a s1
    s3 ← done (record s2 { world = api.set_data s2.world r a })
    s4 ← add_ref a s3
    done (a, s4)

  -- The free function of the data: libdbus gives its reference back.
  pub unref : Option ℕ → State api Env → Outcome (State api Env)
  unfolding release
  unref p s = do a ← assert_ptr p; release a s

  -- from_raw, but for the reference that the timeout_ptr takes.
  pub from_raw : Raw → State api Env → Outcome ℕ
  from_raw raw s = assert_ptr (api.get_data s.world raw)

  module _ (fire : ℕ → TimeoutEvent → State api Env → Outcome (State api Env)) where
    pub notify_toggled : ℕ → State api Env → Outcome (State api Env)
    notify_toggled a s = fire a on_change s

    pub notify_removed : ℕ → State api Env → Outcome (State api Env)
    notify_removed a s = do
      c ← deref (s.heap a)
      let w : Timeout Raw = record { raw = none; is_removed = true }
      fire a on_remove (record s { heap = update s.heap a (some (record c { self = w })) })

    -- The callbacks that libdbus is given, which do not check the raw pointer; the temporary
    -- timeout_ptr lives to their end.
    pub toggled : Option Raw → State api Env → Outcome (State api Env)
    unfolding from_raw add_ref release notify_toggled
    toggled raw s = do
      r ← deref raw
      a ← from_raw r s
      s1 ← add_ref a s
      s2 ← notify_toggled a s1
      release a s2

    pub removed : Option Raw → State api Env → Outcome (State api Env)
    unfolding from_raw add_ref release notify_removed
    removed raw s = do
      r ← deref raw
      a ← from_raw r s
      s1 ← add_ref a s
      s2 ← notify_removed a s1
      release a s2
