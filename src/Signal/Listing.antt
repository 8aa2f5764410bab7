-- ===== src/Signal/Listing.antt =====
-- include/yash.hpp: the list of the connected slots that a signal is to its clients, and the
-- calls of a client on the list and on the signal.
use dbuscc.Base.{
  Option, none, some, ◌-◌, ℕ, ◌+◌, ◌==◌, Bool, false, ◌||◌, List, [], ◌∷◌, ◌++◌, Outcome, done,
  ◌>>=◌, if◌then◌else◌,
}
use dbuscc.Signal.{Signal, Connection, empty_signal, connected, connect, disconnect}

-- The calls of a client: to connect a slot, and to disconnect the connection that the n-th call
-- of connect gave, from 0.
pub data Call (Slot : Type 0) : Type 0 where
  connects : Slot → Call Slot
  disconnects : ℕ → Call Slot

-- The specification: the numbers and slots of the connections that are left, oldest first.
pub record Listing (Slot : Type 0) : Type 0 where
  pub calls : ℕ
  pub entries : List (ℕ × Slot)

-- A signal, and the connections that the client keeps: what each call of connect gave, in their
-- order, and as disconnect left it.
pub record Session (Slot : Type 0) : Type 0 where
  pub conns : List Connection
  pub signal : Signal Slot

abbrev pub nth : ℕ → List Connection → Option Connection
nth n [] = none
nth n (c ∷ cs) = if n == 0 then some c else nth (n - 1) cs

abbrev pub set_nth : ℕ → Connection → List Connection → List Connection
set_nth n d [] = []
set_nth n d (c ∷ cs) = if n == 0 then d ∷ cs else c ∷ set_nth (n - 1) d cs

module _ {Slot : Type 0} where
  abbrev pub strike : ℕ → List (ℕ × Slot) → List (ℕ × Slot)
  strike a [] = []
  strike a ((b, f) ∷ l) = if b == a then strike a l else (b, f) ∷ strike a l

  abbrev pub lists : ℕ → List (ℕ × Slot) → Bool
  lists a [] = false
  lists a ((b, f) ∷ l) = (b == a) || lists a l

  abbrev pub list_call : Call Slot → Listing Slot → Listing Slot
  list_call (connects f) l = record {
    calls = l.calls + 1;
    entries = l.entries ++ (l.calls, f) ∷ [];
  }
  list_call (disconnects a) l = record l { entries = strike a l.entries }

  abbrev pub list_calls : List (Call Slot) → Listing Slot → Listing Slot
  list_calls [] l = l
  list_calls (c ∷ cs) l = list_calls cs (list_call c l)

  abbrev pub no_calls : Listing Slot
  no_calls = record { calls = 0; entries = [] }

  -- The calls on the signal. There is nothing to disconnect before the n-th call of connect.
  unfoldable pub make_call : Call Slot → Session Slot → Outcome (Session Slot)
  make_call (connects f) t = do
    (c, s) ← connect (some f) t.signal
    done (record { conns = t.conns ++ c ∷ []; signal = s })
  make_call (disconnects n) t = elim (nth n t.conns) [
    | none ↦ done t
    | some c ↦ (do
      (c', s) ← disconnect c t.signal
      done (record { conns = set_nth n c' t.conns; signal = s }))
  ]

  unfoldable pub make_calls : List (Call Slot) → Session Slot → Outcome (Session Slot)
  unfolding make_call
  make_calls [] t = done t
  make_calls (c ∷ cs) t = make_call c t >>= make_calls cs

  -- A new signal, and no connections.
  abbrev pub new_session : Session Slot
  new_session = record { conns = []; signal = empty_signal }

  -- What connected() of the n-th connection gives, once there is one.
  abbrev pub is_connected : ℕ → Session Slot → Bool
  is_connected n t = elim (nth n t.conns) [ none ↦ false | some c ↦ connected c t.signal ]

module _ {Slot W : Type 0} where
  -- The slots of the entries, called one after the other, up to one that fails.
  abbrev pub fold_slots : (Slot → W → Outcome W) → List (ℕ × Slot) → W → Outcome W
  fold_slots act [] w = done w
  fold_slots act ((a, f) ∷ l) w = act f w >>= fold_slots act l
