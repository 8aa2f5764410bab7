-- ===== src/Pointer.antt =====
-- include/dbuscc/pointer.h: the intrusive reference count. `refcnt_` is a boost::atomic_int,
-- kept here as its 32-bit pattern, so both atomic operations wrap modulo 2 ^ 32. Threads are
-- interleavings of atomic steps: every thread sees the steps in one order. This says nothing of
-- the other accesses to the object: the code counts with memory_order_relaxed, and the memory
-- orders and the fence before the deletion are left out.
pub mod Count
pub mod Threads
pub mod Tests
use dbuscc.Base.{
  Bool, ℕ, ◌+◌, ◌-◌, ◌%◌, ◌^◌, Option, none, some, update, Outcome, done, ◌>>=◌, deref, ◌==◌,
  if◌then◌else◌,
}

-- An object that derives from ref_counter<T>.
pub record Counted (T : Type 0) : Type 0 where
  pub refcnt : ℕ
  pub self : T

-- The objects by address; `none` is memory that is not, or no longer, an object.
abbrev pub Store : Type 0 → Type 0
Store T = ℕ → Option (Counted T)

abbrev pub int_mod : ℕ
int_mod = 2 ^ 32

-- Whether the old count says that the pointer was the last one.
abbrev pub is_last : ℕ → Bool
is_last old = old == 1

module _ {T : Type 0} where
  -- The constructor leaves the count at 0.
  unfoldable pub construct : T → Counted T
  construct t = record { refcnt = 0; self = t }

  -- ref_counter(ref_counter const&): a copy of the object has no owners yet.
  pub copy_construct : Counted T → Counted T
  copy_construct c = record { refcnt = 0; self = c.self }

  -- The assignment operator keeps the count of the object that is assigned to.
  pub assign : Counted T → Counted T → Counted T
  assign c o = record c { self = o.self }

  unfoldable pub intrusive_ptr_add_ref : ℕ → Store T → Outcome (Store T)
  intrusive_ptr_add_ref p m = do
    c ← deref (m p)
    done (update m p (some (record c { refcnt = (c.refcnt + 1) % int_mod })))

  -- What fetch_sub gives, the old count, and the store after it.
  abbrev pub fetch_sub : ℕ → Store T → Outcome (ℕ × Store T)
  fetch_sub p m = do
    c ← deref (m p)
    done (c.refcnt, update m p (some (record c { refcnt = (c.refcnt + int_mod - 1) % int_mod })))

  -- The steps of a thread one right after the other: fetch_sub, and the deletion of the object at
  -- the last pointer, which leaves nothing of what fetch_sub stored. Pointer/Threads interleaves
  -- these steps with those of other threads.
  unfoldable pub intrusive_ptr_release : ℕ → Store T → Outcome (Store T)
  intrusive_ptr_release p m = do
    (old, m') ← fetch_sub p m
    if is_last old then done (update m p none) else done m'
