-- ===== src/Message/Writer.antt =====
-- src/message-writer.cc, include/dbuscc/message-writer.h and
-- include/dbuscc/glue/message-writer.h. The value of a fixed type is the bytes of the object
-- whose address is passed on.
use dbuscc.Base.{
  ℕ, Bool, Option, none, some, Outcome, done, fault, ◌>>=◌, ◌>>◌, assert_ptr, if◌then◌else◌, length,
  take, leb, c_str,
}
use dbuscc.Message.Api.{
  MessageApi, Text, Bytes, BasicType, byte, boolean, int16, uint16, int32, uint32, int64, uint64,
  double, string, object_path, width,
}
use dbuscc.Message.{Messages, add_ref, release, raw}
use dbuscc.Message.Reader.{valid}

pub record GlueWriter (api : MessageApi) : Type 0 where
  pub msg : ℕ
  pub raw : api.Iter

pub record MessageWriter (api : MessageApi) : Type 0 where
  pub msg : Option ℕ
  pub impl : GlueWriter api

-- Memory: reading bytes from the start of an object must stay within it.
unfoldable pub read_object : ℕ → Bytes → Outcome Bytes
read_object n v = if leb n (length v) then done (take n v) else fault

module _ (api : MessageApi) where
  unfoldable pub new_writer : Option ℕ → Messages api → Outcome (MessageWriter api × Messages api)
  unfolding add_ref
  new_writer msg s = do
    a ← assert_ptr msg
    s1 ← add_ref api a s
    r ← raw api a s1
    done (
      record { msg = some a; impl = record { msg = r; raw = api.iter_init_append s1.world r } },
      s1,
    )

  unfoldable pub create_writer : ℕ → Messages api → Outcome (MessageWriter api × Messages api)
  unfolding new_writer release
  create_writer a s = do
    s1 ← add_ref api a s
    (w, s2) ← new_writer (some a) s1
    s3 ← release api a s2
    done (w, s3)

  unfoldable pub copy_writer : MessageWriter api → MessageWriter api
  copy_writer o = record { msg = none; impl = o.impl }

  unfoldable pub assign_writer : Bool → MessageWriter api → MessageWriter api → MessageWriter api
  assign_writer same w o = if same then w else record w { impl = o.impl }

  unfoldable pub destroy_writer : MessageWriter api → Messages api → Outcome (Messages api)
  unfolding release
  destroy_writer w s = elim w.msg [ none ↦ done s | some a ↦ release api a s ]

  -- What a push gives: its result, the writer with its iterator, and the messages.
  abbrev pub Pushed : Type 0
  Pushed = Outcome (Bool × MessageWriter api × Messages api)

  -- glue::message_writer::append_basic.
  unfoldable pub append_basic : BasicType → Bytes → MessageWriter api → Messages api → Pushed
  unfolding valid
  append_basic t b w s = do
    valid api w.impl.msg s
    let (ok, world, i) = api.append_basic s.world w.impl.raw t b
    done (ok, record w { impl = record (w.impl) { raw = i } }, record s { world = world })

  -- A push of an object of a fixed type: libdbus reads the bytes behind the pointer.
  unfoldable pub push_fixed : BasicType → Bytes → MessageWriter api → Messages api → Pushed
  unfolding append_basic read_object
  push_fixed t v w s = do b ← read_object (width t) v; append_basic t b w s

  unfoldable pub push_uint8 : Bytes → MessageWriter api → Messages api → Pushed
  unfolding push_fixed
  push_uint8 = push_fixed byte

  unfoldable pub push_bool : Bytes → MessageWriter api → Messages api → Pushed
  unfolding push_fixed
  push_bool = push_fixed boolean

  unfoldable pub push_int16 : Bytes → MessageWriter api → Messages api → Pushed
  unfolding push_fixed
  push_int16 = push_fixed int16

  unfoldable pub push_uint16 : Bytes → MessageWriter api → Messages api → Pushed
  unfolding push_fixed
  push_uint16 = push_fixed uint16

  unfoldable pub push_int32 : Bytes → MessageWriter api → Messages api → Pushed
  unfolding push_fixed
  push_int32 = push_fixed int32

  unfoldable pub push_uint32 : Bytes → MessageWriter api → Messages api → Pushed
  unfolding push_fixed
  push_uint32 = push_fixed uint32

  unfoldable pub push_int64 : Bytes → MessageWriter api → Messages api → Pushed
  unfolding push_fixed
  push_int64 = push_fixed int64

  unfoldable pub push_uint64 : Bytes → MessageWriter api → Messages api → Pushed
  unfolding push_fixed
  push_uint64 = push_fixed uint64

  unfoldable pub push_double : Bytes → MessageWriter api → Messages api → Pushed
  unfolding push_fixed
  push_double = push_fixed double

  -- c_str ends at the first zero byte.
  unfoldable pub push_string : Text → MessageWriter api → Messages api → Pushed
  unfolding append_basic
  push_string v w s = append_basic string (c_str v) w s

  unfoldable pub push_object_path : Text → MessageWriter api → Messages api → Pushed
  unfolding append_basic
  push_object_path v w s = append_basic object_path (c_str v) w s
