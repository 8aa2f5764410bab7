-- ===== src/Watch.antt =====
-- src/watch.cc, include/dbuscc/watch.h and include/dbuscc/glue/watch.h: a DBusWatch and the
-- object that wraps it. libdbus is a parameter: its state, its functions on watches and the bits
-- of a flag word. So are the slots that clients connect to the two signals of a watch: `fire` is
-- what an invocation does to the state.
pub mod Flags
pub mod Invariant
pub mod Removal
pub mod Values
pub mod Frame
pub mod Tests
use dbuscc.Base.{
  ℕ, ◌+◌, ◌≡◌, ℤ, pos, Bool, true, false, not, ◌||◌, Option, none, some, update, Outcome, done,
  ◌>>=◌, ◌>>◌, assert_ptr, deref, ◌==◌, if◌then◌else◌,
}
use dbuscc.Pointer.{Counted, Store, construct, intrusive_ptr_add_ref, intrusive_ptr_release}
use Prim.Native.Nat.{bit_and, bit_or}

-- The bits of DBusWatchFlags that the code names.
pub data Bit : Type 0 where
  readable writable hangup error : Bit

abbrev pub same_bit : Bit → Bit → Bool
same_bit readable readable = true
same_bit writable writable = true
same_bit hangup hangup = true
same_bit error error = true
same_bit _ _ = false

-- What the code uses of libdbus: a flag word is built from 0 by `|=` with one bit at a time and
-- tested by `&`, and the data of a watch is what was set last.
pub record WatchApi : Type 1 where
  pub World : Type 0
  pub Raw : Type 0
  pub Word : Type 0
  pub zero_word : Word
  pub or_bit : Word → Bit → Word
  pub test_bit : Word → Bit → Bool
  pub get_enabled : World → Raw → Bool
  pub get_flags : World → Raw → Word
  pub get_unix_fd : World → Raw → ℤ
  pub handle : World → Raw → Word → Bool × World
  pub get_data : World → Raw → Option ℕ
  pub set_data : World → Raw → ℕ → World
  pub test_bit-zero_word : (b : Bit) → test_bit zero_word b ≡ false
  pub test_bit-or_bit :
      (w : Word) (b c : Bit) → test_bit (or_bit w b) c ≡ (same_bit b c || test_bit w c)
  pub get_data-set_data : (w : World) (r : Raw) (a : ℕ) → get_data (set_data w r a) r ≡ some a

-- watch::Flags, an enum of bits, and its operators.
abbrev pub WatchFlags : Type 0
WatchFlags = ℕ

abbrev pub flag_none : WatchFlags
flag_none = 0

abbrev pub flag_read : WatchFlags
flag_read = 1

abbrev pub flag_write : WatchFlags
flag_write = 2

abbrev pub flag_hangup : WatchFlags
flag_hangup = 4

abbrev pub flag_error : WatchFlags
flag_error = 8

-- `flags & f` as a condition, and `flags |= f`.
abbrev pub has_flag : WatchFlags → WatchFlags → Bool
has_flag flags f = not (bit_and flags f == 0)

abbrev pub add_flag : WatchFlags → WatchFlags → WatchFlags
add_flag flags f = bit_or flags f

pub data WatchEvent : Type 0 where
  on_change on_remove : WatchEvent

-- class watch: its members but the signals, which `fire` stands for.
pub record Watch (Raw : Type 0) : Type 0 where
  pub raw : Option Raw
  pub is_removed : Bool

-- libdbus, the watch objects by address, the next free address, and the rest of the program.
pub record State (api : WatchApi) (Env : Type 0) : Type 0 where
  pub world : api.World
  pub heap : Store (Watch api.Raw)
  pub next : ℕ
  pub env : Env

module _ (api : WatchApi) where
  open api use {Word, zero_word, or_bit, test_bit}

  -- The middle of watch::flags and of watch::handle.
  from_dbus_flags : Word → WatchFlags
  from_dbus_flags dbus_flags =
      let ret =
        (if test_bit dbus_flags readable then add_flag flag_none flag_read else flag_none) in
      if test_bit dbus_flags writable then add_flag ret flag_write else ret

  to_dbus_flags : WatchFlags → Word
  to_dbus_flags fl =
      let w1 = (if has_flag fl flag_read then or_bit zero_word readable else zero_word) in
      let w2 = (if has_flag fl flag_write then or_bit w1 writable else w1) in
      let w3 = (if has_flag fl flag_hangup then or_bit w2 hangup else w2) in
      if has_flag fl flag_error then or_bit w3 error else w3

module _ (api : WatchApi) {Env : Type 0} where
  open api use {Raw}

  -- Access to the members of the object at an address.
  pub this : ℕ → State api Env → Outcome (Watch Raw)
  this a s = do c ← deref (s.heap a); done c.self

  pub with_heap : State api Env → Outcome (Store (Watch Raw)) → Outcome (State api Env)
  with_heap s m = do h ← m; done (record s { heap = h })

  pub add_ref : ℕ → State api Env → Outcome (State api Env)
  unfolding with_heap
  add_ref a s = with_heap s (intrusive_ptr_add_ref a s.heap)

  -- The destructor has only the members to clear.
  pub release : ℕ → State api Env → Outcome (State api Env)
  unfolding with_heap
  release a s = with_heap s (intrusive_ptr_release a s.heap)

  -- `return false` in a function that returns an int gives 0.
  pub fd : ℕ → State api Env → Outcome ℤ
  unfolding this
  fd a s = do
    w ← this a s
    if w.is_removed
        then done (pos 0)
        else do raw ← assert_ptr w.raw; done (api.get_unix_fd s.world raw)

  pub enabled : ℕ → State api Env → Outcome Bool
  unfolding this
  enabled a s = do
    w ← this a s
    if w.is_removed
        then done false
        else do raw ← assert_ptr w.raw; done (api.get_enabled s.world raw)

  pub flags : ℕ → State api Env → Outcome WatchFlags
  unfolding this from_dbus_flags
  flags a s = do
    w ← this a s
    if w.is_removed then done flag_none else do
      e ← enabled a s
      if not e
          then done flag_none
          else do raw ← assert_ptr w.raw; done (from_dbus_flags api (api.get_flags s.world raw))

  pub handle : ℕ → WatchFlags → State api Env → Outcome (Bool × State api Env)
  unfolding this to_dbus_flags
  handle a fl s = do
    w ← this a s
    if w.is_removed then done (false, s) else do
      raw ← assert_ptr w.raw
      let (ok, world) = api.handle s.world raw (to_dbus_flags api fl)
      done (ok, record s { world = world })

  -- new internal::watch(raw), turned into a watch_ptr: the constructor takes the reference that
  -- libdbus keeps as the data of the raw watch, the pointer takes another.
  pub create : Option Raw → State api Env → Outcome (ℕ × State api Env)
  unfolding add_ref construct
  create raw s = do
    let a = s.next
    let w : Watch Raw = record { raw = raw; is_removed = false }
    s1 ← done (record s { heap = update s.heap a (some (construct w)); next = a + 1 })
    r ← assert_ptr raw
    s2 ← add_ref a s1
    s3 ← done (record s2 { world = api.set_data s2.world r a })
    s4 ← add_ref a s3
    done (a, s4)

  -- The free function of the data: libdbus gives its reference back.
  pub unref : Option ℕ → State api Env → Outcome (State api Env)
  unfolding release
  unref p s = do a ← assert_ptr p; release a s

  -- from_raw, but for the reference that the watch_ptr takes.
  pub from_raw : Raw → State api Env → Outcome ℕ
  from_raw raw s = assert_ptr (api.get_data s.world raw)

  module _ (fire : ℕ → WatchEvent → State api Env → Outcome (State api Env)) where
    pub notify_toggled : ℕ → State api Env → Outcome (State api Env)
    notify_toggled a s = fire a on_change s

    pub notify_removed : ℕ → State api Env → Outcome (State api Env)
    notify_removed a s = do
      c ← deref (s.heap a)
      let w : Watch Raw = record { raw = none; is_removed = true }
      fire a on_remove (record s { heap = update s.heap a (some (record c { self = w })) })

    -- The callbacks that libdbus is given; the temporary watch_ptr lives to their end.
    pub toggled : Option Raw → State api Env → Outcome (State api Env)
    unfolding from_raw add_ref release notify_toggled
    toggled raw s = do
      r ← assert_ptr raw
      a ← from_raw r s
      s1 ← add_ref a s
      s2 ← notify_toggled a s1
      release a s2

    pub removed : Option Raw → State api Env → Outcome (State api Env)
    unfolding from_raw add_ref release notify_removed
    removed raw s = do
      r ← assert_ptr raw
      a ← from_raw r s
      s1 ← add_ref a s
      s2 ← notify_removed a s1
      release a s2
