-- ===== src/Message.antt =====
-- src/call-message.cc, src/return-message.cc, src/signal-message.cc and src/error-message.cc:
-- the objects that own a DBusMessage. The four classes differ in what creates them and share the
-- rest, so a constructor of MessageKind stands for the class. libdbus is a parameter.
pub mod Api
pub mod Reader
pub mod Writer
pub mod Memory
pub mod Exchange
pub mod Ownership
pub mod Tests
use dbuscc.Base.{
  ℕ, ◌+◌, Option, none, some, List, [], update, Outcome, done, ◌>>=◌, ◌>>◌, assert_ptr, deref, ◌==◌,
  if◌then◌else◌,
}
use dbuscc.Pointer.{Store, construct, intrusive_ptr_add_ref, intrusive_ptr_release}
use Api.{MessageApi, Text}

pub data MessageKind : Type 0 where
  call_message return_message signal_message error_message : MessageKind

-- The one member of the four classes: the raw message.
pub record Message : Type 0 where
  pub kind : MessageKind
  pub raw : ℕ

-- libdbus, the message objects by address, and the next free address.
pub record Messages (api : MessageApi) : Type 0 where
  pub world : api.World
  pub objects : Store Message
  pub next : ℕ

module _ (api : MessageApi) where
  abbrev with_objects : Messages api → Outcome (Store Message) → Outcome (Messages api)
  with_objects s m = do o ← m; done (record s { objects = o })

  unfoldable pub add_ref : ℕ → Messages api → Outcome (Messages api)
  add_ref a s = with_objects s (intrusive_ptr_add_ref a s.objects)

  -- The destructor, which runs when the last reference goes, gives the raw message back.
  unfoldable pub release : ℕ → Messages api → Outcome (Messages api)
  release a s = do
    c ← deref (s.objects a)
    s1 ← with_objects s (intrusive_ptr_release a s.objects)
    done (
        if c.refcnt == 1 then record s1 { world = api.message_unref s1.world (c.self.raw) } else s1)

  -- The constructors, with the pointer that glue::message::create_* returns.
  unfoldable pub create : MessageKind → Option ℕ → Messages api → Outcome (ℕ × Messages api)
  unfolding add_ref construct
  create kind raw s = do
    r ← assert_ptr raw
    let m : Message = record { kind = kind; raw = r }
    let s1 = record s { objects = update s.objects s.next (some (construct m)); next = s.next + 1 }
    s2 ← add_ref s.next s1
    done (s.next, s2)

  -- glue::message::create_call and create_signal from their parts.
  unfoldable pub create_call :
      (destination path iface name : Text) → Messages api → Outcome (ℕ × Messages api)
  unfolding create
  create_call destination path iface name s =
      let (raw, w) = api.new_method_call s.world destination path iface name in
      create call_message raw (record s { world = w })

  unfoldable pub create_signal :
      (path iface name : Text) → Messages api → Outcome (ℕ × Messages api)
  unfolding create
  create_signal path iface name s =
      let (raw, w) = api.new_signal s.world path iface name in
      create signal_message raw (record s { world = w })

  unfoldable pub create_return : Option ℕ → Messages api → Outcome (ℕ × Messages api)
  unfolding create
  create_return raw s = create return_message raw s

  unfoldable pub create_error : Option ℕ → Messages api → Outcome (ℕ × Messages api)
  unfolding create
  create_error raw s = create error_message raw s

  unfoldable pub raw : ℕ → Messages api → Outcome ℕ
  raw a s = do c ← deref (s.objects a); done (c.self.raw)

  -- error_message::error_name: no name is the empty text.
  unfoldable pub error_name : ℕ → Messages api → Outcome Text
  unfolding raw
  error_name a s = do
    r ← raw a s
    done (elim (api.get_error_name s.world r) [ none ↦ [] | some n ↦ n ])
