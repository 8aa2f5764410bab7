-- ===== src/Message/Reader.antt =====
-- src/message-reader.cc, include/dbuscc/message-reader.h and
-- include/dbuscc/glue/message-reader.h. What a function reads into is the object that it is
-- given by reference, as its bytes.
use dbuscc.Base.{
  ℕ, Bool, true, false, Option, none, some, ◌++◌, Outcome, done, fault, ◌>>=◌, ◌>>◌, assert_ptr,
  ◌==◌, if◌then◌else◌, length, drop, leb,
}
use dbuscc.Message.Api.{
  MessageApi, Text, Bytes, BasicType, byte, boolean, int16, uint16, int32, uint32, int64, uint64,
  double, string, object_path, same_type,
}
use dbuscc.Message.{Messages, add_ref, release, raw}

-- glue::message_reader: the raw message is not owned.
pub record GlueReader (api : MessageApi) : Type 0 where
  pub msg : ℕ
  pub raw : api.Iter

-- message_reader: `msg` is the counted pointer to the message object.
pub record MessageReader (api : MessageApi) : Type 0 where
  pub msg : Option ℕ
  pub impl : GlueReader api

-- Memory: writing bytes over the start of an object must stay within it.
unfoldable pub write_object : Bytes → Bytes → Outcome Bytes
write_object v b = if leb (length b) (length v) then done (b ++ drop (length b) v) else fault

module _ (api : MessageApi) where
  -- The message of an iterator must still be there when the iterator is used.
  unfoldable pub valid : ℕ → Messages api → Outcome (Unit {0})
  valid m s = if api.references s.world m == 0 then fault else done tt

  unfoldable pub new_reader : Option ℕ → Messages api → Outcome (MessageReader api × Messages api)
  unfolding add_ref
  new_reader msg s = do
    a ← assert_ptr msg
    s1 ← add_ref api a s
    r ← raw api a s1
    done (record { msg = some a; impl = record { msg = r; raw = api.iter_init s1.world r } }, s1)

  -- create_reader of the message classes. The pointer to the object that its constructor is
  -- given is a temporary. The reader is built in the place of the result, which C++03 permits
  -- and g++ does; a compiler that copies it uses copy_reader, which loses the pointer to the
  -- object.
  unfoldable pub create_reader : ℕ → Messages api → Outcome (MessageReader api × Messages api)
  unfolding new_reader release
  create_reader a s = do
    s1 ← add_ref api a s
    (r, s2) ← new_reader (some a) s1
    s3 ← release api a s2
    done (r, s3)

  -- The copy constructor copies `impl` alone.
  unfoldable pub copy_reader : MessageReader api → MessageReader api
  copy_reader o = record { msg = none; impl = o.impl }

  -- The assignment of another reader, or of the reader itself.
  unfoldable pub assign_reader : Bool → MessageReader api → MessageReader api → MessageReader api
  assign_reader same r o = if same then r else record r { impl = o.impl }

  unfoldable pub destroy_reader : MessageReader api → Messages api → Outcome (Messages api)
  unfolding release
  destroy_reader r s = elim r.msg [ none ↦ done s | some a ↦ release api a s ]

  -- glue::message_reader::get_basic, up to the write: `none` stands for `return false`.
  unfoldable pub get_basic : BasicType → MessageReader api → Messages api → Outcome (Option Bytes)
  unfolding valid
  get_basic t r s = do
    valid r.impl.msg s
    done (
        if same_type (api.get_arg_type s.world r.impl.raw) t
        then some (api.get_basic s.world r.impl.raw)
        else none)

  -- A pop into an object of a fixed type.
  unfoldable pub pop_fixed :
      BasicType → MessageReader api → Messages api → Bytes → Outcome (Bool × Bytes)
  unfolding get_basic write_object
  pop_fixed t r s v = do
    o ← get_basic t r s
    elim o [ none ↦ done (false, v) | some b ↦ (do v' ← write_object v b; done (true, v')) ]

  unfoldable pub pop_uint8 : MessageReader api → Messages api → Bytes → Outcome (Bool × Bytes)
  unfolding pop_fixed
  pop_uint8 = pop_fixed byte

  unfoldable pub pop_bool : MessageReader api → Messages api → Bytes → Outcome (Bool × Bytes)
  unfolding pop_fixed
  pop_bool = pop_fixed boolean

  unfoldable pub pop_int16 : MessageReader api → Messages api → Bytes → Outcome (Bool × Bytes)
  unfolding pop_fixed
  pop_int16 = pop_fixed int16

  unfoldable pub pop_uint16 : MessageReader api → Messages api → Bytes → Outcome (Bool × Bytes)
  unfolding pop_fixed
  pop_uint16 = pop_fixed uint16

  unfoldable pub pop_int32 : MessageReader api → Messages api → Bytes → Outcome (Bool × Bytes)
  unfolding pop_fixed
  pop_int32 = pop_fixed int32

  unfoldable pub pop_uint32 : MessageReader api → Messages api → Bytes → Outcome (Bool × Bytes)
  unfolding pop_fixed
  pop_uint32 = pop_fixed uint32

  unfoldable pub pop_int64 : MessageReader api → Messages api → Bytes → Outcome (Bool × Bytes)
  unfolding pop_fixed
  pop_int64 = pop_fixed int64

  unfoldable pub pop_uint64 : MessageReader api → Messages api → Bytes → Outcome (Bool × Bytes)
  unfolding pop_fixed
  pop_uint64 = pop_fixed uint64

  unfoldable pub pop_double : MessageReader api → Messages api → Bytes → Outcome (Bool × Bytes)
  unfolding pop_fixed
  pop_double = pop_fixed double

  -- get_basic writes a pointer to the text, which is then assigned to the string.
  unfoldable pub pop_string : MessageReader api → Messages api → Text → Outcome (Bool × Text)
  unfolding get_basic
  pop_string r s v = do
    o ← get_basic string r s
    done (elim o [ none ↦ (false, v) | some t ↦ (true, t) ])

  unfoldable pub pop_object_path : MessageReader api → Messages api → Text → Outcome (Bool × Text)
  unfolding get_basic
  pop_object_path r s v = do
    o ← get_basic object_path r s
    done (elim o [ none ↦ (false, v) | some t ↦ (true, t) ])
