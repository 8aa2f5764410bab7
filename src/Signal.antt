-- ===== src/Signal.antt =====
-- include/yash.hpp: signals, their callbacks, and the connections that share them. A callback is
-- an address: `cb` lists the addresses that the signal owns through shared_ptr, `locked` those
-- that running invocations hold, and a weak_ptr can be locked while an address is in one of the
-- two. A slot is an opaque value, and a boost::function is an optional slot; what its call does
-- to the signal and to the rest of the program is the argument `run` of an invocation.
pub mod Invariant
pub mod Disconnect
pub mod Emission
pub mod Bound
pub mod Listing
pub mod View
pub mod Connections
pub mod Shows
pub mod Refine
pub mod Scoped
pub mod Tests
use dbuscc.Base.{
  ℕ, ◌+◌, Bool, true, false, ◌||◌, Option, none, some, List, [], ◌∷◌, ◌++◌, ◌==◌, if◌then◌else◌,
  contains, update, length, Outcome, done, abort, assert_ptr, raise, ◌>>=◌,
}

-- `struct callback`: the owner as whether it is not null, and the function, empty once cleared.
pub record Callback (Slot : Type 0) : Type 0 where
  pub owner : Bool
  pub fn : Option Slot

pub record Signal (Slot : Type 0) : Type 0 where
  pub next : ℕ
  pub cb : List ℕ
  pub locked : List ℕ
  pub callback : ℕ → Callback Slot

-- A connection is the weak pointer to its callback.
pub record Connection : Type 0 where
  pub cb : Option ℕ

-- The owner of a connection. It is built from a copy of the connection.
pub record AutoConnection : Type 0 where
  pub conn : Connection

-- Drops the first entry that is the given callback, as the loop of del_callback does.
unfoldable pub erase_first : ℕ → List ℕ → List ℕ
erase_first a [] = []
erase_first a (x ∷ xs) = if x == a then xs else x ∷ erase_first a xs

module _ {Slot : Type 0} where
  pub empty_signal : Signal Slot
  empty_signal = record {
    next = 0;
    cb = [];
    locked = [];
    callback = λ _. record { owner = false; fn = none };
  }

  pub slots : Signal Slot → ℕ
  slots s = length s.cb

  -- Whether weak_ptr::lock gives a callback.
  abbrev pub alive : ℕ → Signal Slot → Bool
  alive a s = contains a s.cb || contains a s.locked

  pub connected : Connection → Signal Slot → Bool
  connected c s = elim c.cb [ none ↦ false | some a ↦ alive a s ]

  -- The constructor of callback, with the signal as the owner. A boost::function may be empty,
  -- which its second assertion excludes.
  new_callback : Option Slot → Outcome (Callback Slot)
  new_callback fn = do f ← assert_ptr fn; done (record { owner = true; fn = some f })

  -- `new` gives the address `next`.
  add_callback : Option Slot → Signal Slot → Outcome (ℕ × Signal Slot)
  unfolding new_callback
  add_callback slot s = do
    cb ← new_callback slot
    done (
      s.next,
      record s {
        next = s.next + 1;
        cb = s.cb ++ s.next ∷ [];
        callback = update s.callback s.next cb;
      },
    )

  pub connect : Option Slot → Signal Slot → Outcome (Connection × Signal Slot)
  unfolding add_callback
  connect slot s = do (a, s') ← add_callback slot s; done (record { cb = some a }, s')

  del_callback : ℕ → Signal Slot → Outcome (Signal Slot)
  unfolding erase_first
  del_callback a s = if contains a s.cb then done (record s { cb = erase_first a s.cb }) else abort

  -- callback::disconnect.
  callback_disconnect : ℕ → Signal Slot → Outcome (Signal Slot)
  unfolding del_callback
  callback_disconnect a s =
      if (s.callback a).owner
      then (do
        s' ← del_callback a s
        done (record s' { callback = update s'.callback a (record { owner = false; fn = none }) }))
      else done s

  -- connection::disconnect.
  pub disconnect : Connection → Signal Slot → Outcome (Connection × Signal Slot)
  unfolding callback_disconnect
  disconnect c s = elim c.cb [
    | none ↦ done (c, s)
    | some a ↦
        if alive a s
        then (do s' ← callback_disconnect a s; done (record { cb = none }, s'))
        else done (c, s)
  ]

  -- The methods of auto_connection, and its destructor.
  pub auto_disconnect : AutoConnection → Signal Slot → Outcome (AutoConnection × Signal Slot)
  unfolding disconnect
  auto_disconnect x s = do (c, s') ← disconnect x.conn s; done (record { conn = c }, s')

  pub auto_connected : AutoConnection → Signal Slot → Bool
  unfolding connected
  auto_connected x s = connected x.conn s

  pub destroy_auto : AutoConnection → Signal Slot → Outcome (Signal Slot)
  unfolding disconnect
  destroy_auto x s = do (_, s') ← disconnect x.conn s; done s'

  lock : ℕ → Signal Slot → Signal Slot
  lock a s = record s { locked = a ∷ s.locked }

  unlock : ℕ → Signal Slot → Signal Slot
  unfolding erase_first
  unlock a s = record s { locked = erase_first a s.locked }

-- An invocation, where `W` is the state of the rest of the program.
module _ {Slot W : Type 0} (run : Slot → Signal Slot × W → Outcome (Signal Slot × W)) where
  -- One round of the loop: an empty function throws bad_function_call.
  call_one : ℕ → Signal Slot × W → Outcome (Signal Slot × W)
  unfolding lock unlock
  call_one a (s, w) =
      if alive a s
      then elim (s.callback a).fn [
        | none ↦ raise
        | some f ↦ run f (lock a s, w) >>= λ (s', w'). done (unlock a s', w')
      ]
      else done (s, w)

  pub call_all : List ℕ → Signal Slot × W → Outcome (Signal Slot × W)
  call_all [] t = done t
  call_all (a ∷ tmp) t = call_one a t >>= call_all tmp

  -- YASH_SIGNAL_CALL: the callbacks connected at the call are the ones considered.
  pub emit : Signal Slot × W → Outcome (Signal Slot × W)
  unfolding call_all call_one
  emit (s, w) = call_all s.cb (s, w)
