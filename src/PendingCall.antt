-- ===== src/PendingCall.antt =====
-- src/pending-call.cc, include/dbuscc/pending-call.h and include/dbuscc/glue/pending-call.h: a
-- method call that waits for its reply. libdbus is a parameter, and so are the slots of
-- on_completion: `fire` is what an invocation does to the call and to the rest of the program.
-- Messages and raw pending calls are addresses.
pub mod Completion
pub mod Members
pub mod Balance
pub mod Lifetime
pub mod Tests
use dbuscc.Base.{
  ℕ, ◌+◌, ◌<◌, ◌≡◌, ◌≢◌, Bool, true, false, Option, none, some, Outcome, done, ◌>>=◌, ◌>>◌, assert,
  assert_ptr, ◌==◌, if◌then◌else◌,
}
use dbuscc.Error.Types.{ErrorType, type_no_reply}
use dbuscc.Error.{ErrorApi, type}

pub data MessageType : Type 0 where
  invalid method_call method_return error signal : MessageType

pub data CallState : Type 0 where
  state_pending state_error state_timeout state_completed state_canceled : CallState

-- What the code uses of libdbus: an error message sets the error and no other message does, a
-- stolen reply comes with one reference, and unref gives one back.
pub record PendingApi : Type 1 where
  pub errors : ErrorApi
  pub World : Type 0
  pub set_notify : World → ℕ → World
  pub cancel : World → ℕ → World
  pub pending_unref : World → ℕ → World
  pub get_completed : World → ℕ → Bool
  pub steal_reply : World → ℕ → Option ℕ × World
  pub message_get_type : World → ℕ → MessageType
  pub message_unref : World → ℕ → World
  pub set_error_from_message : World → errors.DBusError → ℕ → Bool × errors.DBusError
  pub references : World → ℕ → ℕ
  pub set_error_message :
      (w : World) (e : errors.DBusError) (m : ℕ)
      → message_get_type w m ≡ error
      → (set_error_from_message w e m).0 ≡ true
  pub set_error_other :
      (w : World) (e : errors.DBusError) (m : ℕ)
      → message_get_type w m ≢ error
      → set_error_from_message w e m ≡ (false, e)
  pub references-steal_reply :
      (w w' : World) (r m n : ℕ)
      → steal_reply w r ≡ (some m, w')
      → references w' n ≡ (if n == m then references w n + 1 else references w n)
  pub references-message_unref :
      (w : World) (m n : ℕ)
      → 0 < references w m
      → references w n ≡ (
          if n == m then references (message_unref w m) n + 1 else references (message_unref w m) n)

-- class pending_call: the members but the signal. The reply is the return message that owns the
-- raw message.
pub record PendingCall (api : PendingApi) : Type 0 where
  pub raw : Option ℕ
  pub state : CallState
  pub reply_message : Option ℕ
  pub error : api.errors.DBusError

pub record State (api : PendingApi) (Env : Type 0) : Type 0 where
  pub call : PendingCall api
  pub world : api.World
  pub env : Env

abbrev pub is_canceled : CallState → Bool
is_canceled state_canceled = true
is_canceled _ = false

abbrev pub is_pending : CallState → Bool
is_pending state_pending = true
is_pending _ = false

abbrev pub is_no_reply : ErrorType → Bool
is_no_reply type_no_reply = true
is_no_reply _ = false

abbrev pub is_method_return : MessageType → Bool
is_method_return method_return = true
is_method_return _ = false

module _ (api : PendingApi) {Env : Type 0} where
  -- The constructor.
  pub new_call : Option ℕ → api.World → Env → Outcome (State api Env)
  new_call raw w env = do
    r ← assert_ptr raw
    let call : PendingCall api = record {
      raw = raw;
      state = state_pending;
      reply_message = none;
      error = api.errors.error_init;
    }
    done (record { call = call; world = api.set_notify w r; env = env })

  unfoldable pub set_state : CallState → State api Env → State api Env
  set_state x s = record s { call = record (s.call) { state = x } }

  pub cancel : State api Env → Outcome (State api Env)
  unfolding set_state
  cancel s = do
    r ← assert_ptr s.call.raw
    done (set_state state_canceled (record s { world = api.cancel s.world r }))

  -- The destructor.
  pub destroy : State api Env → Outcome (State api Env)
  unfolding cancel
  destroy s = do
    r ← assert_ptr s.call.raw
    s1 ← cancel s
    done
        (record s1 { call = record (s1.call) { raw = none }; world = api.pending_unref s1.world r })

  -- The members that go after it: the return message, which a client may share. Its last pointer
  -- gives the raw message back.
  pub destroy_members : Bool → State api Env → api.World
  destroy_members shared s = elim s.call.reply_message [
    | none ↦ s.world
    | some m ↦ if shared then s.world else api.message_unref s.world m
  ]

  -- What notify does with a reply that it stole while the call was pending, up to the last two
  -- statements.
  take_reply : ℕ → State api Env → State api Env
  unfolding set_state
  take_reply m s =
      let (is_error, e) = api.set_error_from_message s.world s.call.error m in
      let s1 = record s { call = record (s.call) { error = e } } in
      if is_error
      then set_state (if is_no_reply (type api.errors e) then state_timeout else state_error)
          (record s1 { world = api.message_unref s1.world m })
      else if is_method_return (api.message_get_type s.world m)
      then record s1 { call = record (s1.call) { reply_message = some m } }
      else record s1 { world = api.message_unref s1.world m }

  module _ (fire : State api Env → Outcome (State api Env)) where
    pub notify : State api Env → Outcome (State api Env)
    unfolding take_reply set_state
    notify s = do
      r ← assert_ptr s.call.raw
      assert (api.get_completed s.world r)
      let (raw_reply, w) = api.steal_reply s.world r
      m ← assert_ptr raw_reply
      let s1 = record s { world = w }
      if is_canceled s1.call.state then done (record s1 { world = api.message_unref w m }) else do
        assert (is_pending s1.call.state)
        fire (set_state state_completed (take_reply m s1))
