-- ===== src/Adapter/Own.antt =====
-- src/tscb-adapter.cc: who holds the counted pointers to the watches: libdbus and clients, the
-- contexts, and the functions that the reactor runs for them.
pub mod Sum
pub mod Heap
pub mod Calls
pub mod Slots
pub mod Add
pub mod Step
pub mod Counts
pub mod Next
pub mod Reach
pub mod Linked
pub mod Shape
pub mod Progress
pub mod Tied
pub mod Callbacks
pub mod Removed
pub mod Tests
use dbuscc.Base.{ℕ, zero, suc, ◌+◌, ◌≤◌, ◌<◌, ◌≡◌, ◌⊎◌, Option, none, some, ◌==◌, if◌then◌else◌}
use dbuscc.Pointer.{Store, int_mod}
use dbuscc.Watch.{WatchApi, Watch, State}
use dbuscc.Watch.Removal.{counted}
use dbuscc.Adapter.{IoConnection, IoCtx, Adapter}

-- A pointer counts once at its address.
abbrev pub points : Option ℕ → ℕ → ℕ
points none b = 0
points (some a) b = if a == b then 1 else 0

abbrev pub target_of : Option IoConnection → Option ℕ
target_of none = none
target_of (some io) = some io.target

abbrev pub held_in : Option IoCtx → ℕ → ℕ
held_in none b = 0
held_in (some ctx) b = points ctx.watch b + points (target_of ctx.conn) b

-- The pointers of the first contexts.
abbrev pub held_below : (ℕ → Option IoCtx) → ℕ → ℕ → ℕ
held_below m zero b = 0
held_below m (suc n) b = held_below m n b + held_in (m n) b

-- The pointers that others hold, and one more.
abbrev pub plus : (ℕ → ℕ) → Option ℕ → ℕ → ℕ
plus others o b = others b + points o b

-- An object has its number of pointers as its count, and is gone without pointers.
abbrev pub Held : {Raw : Type 0} → ℕ → Store (Watch Raw) → ℕ → Type 0
Held {Raw} n h a =
    (n < int_mod) × (((n ≡ 0) × (h a ≡ none)) ⊎ ((0 < n) × (w : Watch Raw) × (h a ≡ counted n w)))

module _ (api : WatchApi) where
  -- The pointers to an address, where `others` counts those outside of the adapter.
  abbrev pub pointers : (ℕ → ℕ) → State api Adapter → ℕ → ℕ
  pointers others s a = others a + held_below s.env.contexts s.env.next a

  pub record IsCounted (others : ℕ → ℕ) (s : State api Adapter) : Type 0 where
    pub counts : (a : ℕ) → Held (pointers others s a) s.heap a
    pub fresh : (a : ℕ) → s.next ≤ a → pointers others s a ≡ 0
    pub outside : (c : ℕ) → s.env.next ≤ c → s.env.contexts c ≡ none
