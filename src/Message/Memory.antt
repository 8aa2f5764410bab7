-- ===== src/Message/Memory.antt =====
-- src/message-reader.cc and src/message-writer.cc: whether libdbus stays within the objects
-- whose addresses the reader and the writer hand to it.
use mathlib.Core.List.{append-nil}
use dbuscc.Base.{
  ℕ, ◌<◌, ◌≡◌, ◌≢◌, refl, ◌∙◌, ap, sym, inl, inr, Bool, [], Outcome, done, fault, if◌then◌else◌,
  length, drop, leb, arith, drop-length, take-length, Bool-cases, subst,
}
use dbuscc.Message.Api.{
  MessageApi, Bytes, BasicType, byte, boolean, int16, uint16, int32, uint32, int64, uint64, double,
  width, same_type, same_type-eq,
}
use dbuscc.Message.{Messages}
use dbuscc.Message.Reader.{
  MessageReader, pop_fixed, pop_uint8, pop_bool, pop_int16, pop_uint16, pop_int32, pop_uint32,
  pop_int64, pop_uint64, pop_double, write_object, get_basic, valid,
}
use dbuscc.Message.Writer.{
  MessageWriter, Pushed, push_fixed, push_uint8, push_bool, push_int16, push_uint16, push_int32,
  push_uint32, push_int64, push_uint64, push_double, read_object, append_basic,
}

-- The C++ types that are read and written as bytes.
pub data FixedType : Type 0 where
  uint8_t bool int16_t uint16_t int32_t uint32_t int64_t uint64_t real : FixedType

abbrev pub dbus_type : FixedType → BasicType
dbus_type uint8_t = byte
dbus_type bool = boolean
dbus_type int16_t = int16
dbus_type uint16_t = uint16
dbus_type int32_t = int32
dbus_type uint32_t = uint32
dbus_type int64_t = int64
dbus_type uint64_t = uint64
dbus_type real = double

-- sizeof of the type.
abbrev pub size : FixedType → ℕ
size uint8_t = 1
size bool = 1
size int16_t = 2
size uint16_t = 2
size int32_t = 4
size uint32_t = 4
size int64_t = 8
size uint64_t = 8
size real = 8

module _ (api : MessageApi) where
  -- The pop and the push of each type.
  abbrev pub pop : FixedType → MessageReader api → Messages api → Bytes → Outcome (Bool × Bytes)
  pop uint8_t = pop_uint8 api
  pop bool = pop_bool api
  pop int16_t = pop_int16 api
  pop uint16_t = pop_uint16 api
  pop int32_t = pop_int32 api
  pop uint32_t = pop_uint32 api
  pop int64_t = pop_int64 api
  pop uint64_t = pop_uint64 api
  pop real = pop_double api

  abbrev pub push : FixedType → Bytes → MessageWriter api → Messages api → Pushed api
  push uint8_t = push_uint8 api
  push bool = push_bool api
  push int16_t = push_int16 api
  push uint16_t = push_uint16 api
  push int32_t = push_int32 api
  push uint32_t = push_uint32 api
  push int64_t = push_int64 api
  push uint64_t = push_uint64 api
  push real = push_double api

  pub pop-pop_fixed : (f : FixedType) → pop f ≡ pop_fixed api (dbus_type f)
  unfolding pop_uint8 pop_bool pop_int16 pop_uint16 pop_int32 pop_uint32 pop_int64 pop_uint64
      pop_double
  pop-pop_fixed uint8_t = refl
  pop-pop_fixed _ = refl

  push-push_fixed : (f : FixedType) → push f ≡ push_fixed api (dbus_type f)
  unfolding push_uint8 push_bool push_int16 push_uint16 push_int32 push_uint32 push_int64
      push_uint64 push_double
  push-push_fixed uint8_t = refl
  push-push_fixed _ = refl

  size-width : (f : FixedType) → f ≢ bool → size f ≡ width (dbus_type f)
  size-width bool n = absurd (n refl)
  size-width _ n = refl

  positive : (f : FixedType) → 0 < width (dbus_type f)
  positive bool = omega arith
  positive _ = omega arith

  write_exact : (v b : Bytes) → length b ≡ length v → write_object v b ≡ done b
  unfolding write_object
  write_exact v b h =
      let rest : drop (length b) v ≡ [] = drop-length (length b) v (sym h) in
      elim (Bool-cases (leb (length b) (length v))) [
        | inl fits ↦ rw fits (rw rest (ap done (append-nil b)))
        | inr over ↦ absurd (ground (arith, over))
      ]

  read_exact : (v : Bytes) → read_object (length v) v ≡ done v
  unfolding read_object
  read_exact v = ground (arith, take-length v)

  -- A value of the type that the iterator is at fits the object; any other type leaves it alone.
  pop_fixed-fits :
      (t : BasicType) (r : MessageReader api) (s : Messages api) (v : Bytes)
      → 0 < width t
      → length v ≡ width t
      → 0 < api.references s.world r.impl.msg
      → let hit = same_type (api.get_arg_type s.world r.impl.raw) t in
        pop_fixed api t r s v ≡ done (hit, (if hit then api.get_basic s.world r.impl.raw else v))
  unfolding pop_fixed get_basic valid
  pop_fixed-fits t r s v w l alive =
      elim (Bool-cases (same_type (api.get_arg_type s.world r.impl.raw) t)) [
        | inl hit ↦
            let e = same_type-eq (api.get_arg_type s.world r.impl.raw) t hit in
            let n : length (api.get_basic s.world r.impl.raw) ≡ length v =
              api.length-get_basic s.world r.impl.raw
                (subst (λ (x : BasicType). 0 < width x) (sym e) w)
              ∙ (ap width e ∙ sym l) in
            ground (arith, hit, write_exact v (api.get_basic s.world r.impl.raw) n)
        | inr miss ↦ ground (arith, miss)
      ]

  pub pop_fits :
      (f : FixedType) (r : MessageReader api) (s : Messages api) (v : Bytes)
      → f ≢ bool
      → length v ≡ size f
      → 0 < api.references s.world r.impl.msg
      → let hit = same_type (api.get_arg_type s.world r.impl.raw) (dbus_type f) in
        pop f r s v ≡ done (hit, (if hit then api.get_basic s.world r.impl.raw else v))
  pop_fits f r s v n l alive =
      ap (λ (p : MessageReader api → Messages api → Bytes → Outcome (Bool × Bytes)). p r s v)
        (pop-pop_fixed f)
      ∙ pop_fixed-fits (dbus_type f) r s v (positive f) (l ∙ size-width f n) alive

  pub push_fits :
      (f : FixedType) (w : MessageWriter api) (s : Messages api) (v : Bytes)
      → f ≢ bool
      → length v ≡ size f
      → push f v w s ≡ append_basic api (dbus_type f) v w s
  unfolding push_fixed
  push_fits f w s v n l =
      ap (λ (p : Bytes → MessageWriter api → Messages api → Pushed api). p v w s)
        (push-push_fixed f)
      ∙ rw (← size-width f n) (rw (← l) (rw (read_exact v)))

  -- For every fixed type but bool, with the object as large as its C++ type and the message alive:
  -- a pop returns, with true exactly when the argument at the iterator has the type, and then the
  -- object holds the value of the argument, else it is as it was; a push hands libdbus exactly the
  -- bytes of the object and gives back its answer.
  pub fixed_in_bounds :
      (f : FixedType) (r : MessageReader api) (w : MessageWriter api) (s : Messages api) (v : Bytes)
      → f ≢ bool
      → length v ≡ size f
      → 0 < api.references s.world r.impl.msg
      → 0 < api.references s.world w.impl.msg
      → let hit = same_type (api.get_arg_type s.world r.impl.raw) (dbus_type f) in
        let (ok, world, i) = api.append_basic s.world w.impl.raw (dbus_type f) v in
        (pop f r s v ≡ done (hit, (if hit then api.get_basic s.world r.impl.raw else v)))
        × (push f v w s
            ≡ done
                (ok, record w { impl = record (w.impl) { raw = i } }, record s { world = world }))
  unfolding append_basic valid
  fixed_in_bounds f r w s v n l alive open_ =
      (pop_fits f r s v n l alive, push_fits f w s v n l ∙ ground (arith, open_))

  -- A bool is one byte and a D-Bus boolean is four: reading a boolean argument into a bool writes
  -- past the object, and pushing a bool reads past it, each time.
  pub bool_out_of_bounds :
      (r : MessageReader api) (w : MessageWriter api) (s : Messages api) (v : Bytes)
      → length v ≡ size bool
      → api.get_arg_type s.world r.impl.raw ≡ boolean
      → 0 < api.references s.world r.impl.msg
      → (pop_bool api r s v ≡ fault) × (push_bool api v w s ≡ fault)
  unfolding pop_bool push_bool pop_fixed push_fixed get_basic valid write_object read_object
  bool_out_of_bounds r w s v l e alive =
      let n : length (api.get_basic s.world r.impl.raw) ≡ 4 =
        api.length-get_basic s.world r.impl.raw
          (subst (λ (x : BasicType). 0 < width x) (sym e) (omega arith))
        ∙ ap width e in
      (ground (arith, e, n, l, alive), ground (arith, l))
