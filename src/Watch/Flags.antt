-- ===== src/Watch/Flags.antt =====
-- src/watch.cc: watch::flags and watch::handle translate between the flags of dbuscc and those of
-- libdbus, in which hang-up and error have each other's bits.
use dbuscc.Base.{
  ℕ, ◌≡◌, refl, Bool, true, false, ◌&&◌, ◌||◌, some, done, arith, if◌then◌else◌, ◌∙◌, Bool-cases,
  inl, inr,
}
use dbuscc.Watch.{
  WatchApi, Bit, readable, writable, hangup, error, same_bit, WatchFlags, flag_read, flag_write,
  flag_hangup, flag_error, has_flag, State, flags, enabled, handle, to_dbus_flags, from_dbus_flags,
}

-- The flag of dbuscc that stands for a bit of libdbus.
abbrev pub flag_of : Bit → WatchFlags
flag_of readable = flag_read
flag_of writable = flag_write
flag_of hangup = flag_hangup
flag_of error = flag_error

abbrev pick : (r w h e : Bool) → Bit → Bool
pick r w h e readable = r
pick r w h e writable = w
pick r w h e hangup = h
pick r w h e error = e

mask-pick :
    (r w h e : Bool) (b : Bit)
    → ((e && same_bit error b)
        || ((h && same_bit hangup b)
            || ((w && same_bit writable b) || ((r && same_bit readable b) || false))))
      ≡ pick r w h e b
mask-pick r w h e readable = ground arith
mask-pick r w h e writable = ground arith
mask-pick r w h e hangup = ground arith
mask-pick r w h e error = ground arith

pick-has_flag :
    (fl : WatchFlags) (b : Bit)
    → pick
        (has_flag fl flag_read)
        (has_flag fl flag_write)
        (has_flag fl flag_hangup)
        (has_flag fl flag_error)
        b
      ≡ has_flag fl (flag_of b)
pick-has_flag fl readable = refl
pick-has_flag fl writable = refl
pick-has_flag fl hangup = refl
pick-has_flag fl error = refl

module _ (api : WatchApi) where
  open api use {World, Raw, Word, or_bit, test_bit, test_bit-or_bit, test_bit-zero_word}

  test_bit-if :
      (x : Bool) (w : Word) (b c : Bit)
      → test_bit (if x then or_bit w b else w) c ≡ ((x && same_bit b c) || test_bit w c)
  test_bit-if true w b c = test_bit-or_bit w b c
  test_bit-if false w b c = refl

  test_bit-to_dbus_flags :
      (fl : WatchFlags) (b : Bit) → test_bit (to_dbus_flags api fl) b ≡ has_flag fl (flag_of b)
  unfolding to_dbus_flags
  test_bit-to_dbus_flags fl b =
      simp (test_bit-if, test_bit-zero_word)
        (mask-pick (has_flag fl flag_read) (has_flag fl flag_write) (has_flag fl flag_hangup)
            (has_flag fl flag_error) b
          ∙ pick-has_flag fl b)

  has_flag-from_dbus_flags :
      (w : Word)
      → (has_flag (from_dbus_flags api w) flag_read ≡ test_bit w readable)
        × (has_flag (from_dbus_flags api w) flag_write ≡ test_bit w writable)
        × (has_flag (from_dbus_flags api w) flag_hangup ≡ false)
        × (has_flag (from_dbus_flags api w) flag_error ≡ false)
  unfolding from_dbus_flags
  has_flag-from_dbus_flags w = ground arith

  module _ {Env : Type 0} (a : ℕ) (s : State api Env) (n : ℕ) (r : Raw)
      (live : s.heap a
        ≡ some (record { refcnt = n; self = record { raw = some r; is_removed = false } })) where
    -- On a watch that is not removed, `handle` calls libdbus once, on its raw watch, with exactly
    -- the bits that stand for the flags that were passed, and gives back what libdbus answers.
    pub handle_translates :
        (fl : WatchFlags)
        → (w : Word) × (handle api a fl s
            ≡ done ((api.handle s.world r w).0, record s { world = (api.handle s.world r w).1 }))
          × ((b : Bit) → test_bit w b ≡ has_flag fl (flag_of b))
    unfolding handle
    handle_translates fl = (to_dbus_flags api fl, rw live, λ b. test_bit-to_dbus_flags fl b)

    -- `flags` reports reading and writing as libdbus has them for an enabled watch, nothing for one
    -- that is disabled, and never hang-up or error.
    pub flags_report :
        (fl : WatchFlags) × (flags api a s ≡ done fl)
        × (has_flag fl flag_read
            ≡ (api.get_enabled s.world r && test_bit (api.get_flags s.world r) readable))
        × (has_flag fl flag_write
            ≡ (api.get_enabled s.world r && test_bit (api.get_flags s.world r) writable))
        × (has_flag fl flag_hangup ≡ false)
        × (has_flag fl flag_error ≡ false)
    unfolding flags enabled
    flags_report = elim (Bool-cases (api.get_enabled s.world r)) [
      | inl on ↦
          let (rd, wr, hu, er) = has_flag-from_dbus_flags (api.get_flags s.world r) in
          (
            from_dbus_flags api (api.get_flags s.world r),
            ground (arith, live, on),
            rw on rd,
            rw on wr,
            hu,
            er,
          )
      | inr off ↦ (0, ground (arith, live, off), rw off refl, rw off refl, refl, refl)
    ]
