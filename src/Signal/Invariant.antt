-- ===== src/Signal/Invariant.antt =====
-- include/yash.hpp: well-formed states of a signal.
use dbuscc.Base.{
  ◌++◌, some, none, done, abort, update, ℕ, ◌+◌, ◌≡◌, refl, true, false, [], ◌∷◌, arith, contains,
  Distinct, AllBelow, is_some, List, not-contains_below, AllBelow-snoc, Distinct-snoc,
  contains-append, length, if◌then◌else◌, ◌==◌,
}
use dbuscc.Signal.{Signal, erase_first, empty_signal, connect}

-- The owned callbacks are exactly those that the signal lists, each once, and exactly those have a
-- function.
pub record IsSignal {Slot : Type 0} (s : Signal Slot) : Type 0 where
  pub distinct : Distinct s.cb
  pub below : AllBelow s.next s.cb
  pub owned : (a : ℕ) → (s.callback a).owner ≡ contains a s.cb
  pub filled : (a : ℕ) → is_some (s.callback a).fn ≡ contains a s.cb

pub contains-erase_first :
    (a b : ℕ) (xs : List ℕ)
    → Distinct xs
    → contains b (erase_first a xs) ≡ (if a == b then false else contains b xs)
unfolding erase_first
contains-erase_first a b [] d = ground arith
contains-erase_first a b (x ∷ xs) d = ground (arith, contains-erase_first a b xs d.1)

pub Distinct-erase_first : (a : ℕ) (xs : List ℕ) → Distinct xs → Distinct (erase_first a xs)
unfolding erase_first
Distinct-erase_first a [] d = tt
Distinct-erase_first a (x ∷ xs) d =
    ground (arith, contains-erase_first a x xs d.1, Distinct-erase_first a xs d.1)

pub AllBelow-erase_first : (n a : ℕ) (xs : List ℕ) → AllBelow n xs → AllBelow n (erase_first a xs)
unfolding erase_first
AllBelow-erase_first n a [] b = tt
AllBelow-erase_first n a (x ∷ xs) b = ground (arith, AllBelow-erase_first n a xs b.1)

pub length-erase_first :
    (a : ℕ) (xs : List ℕ) → contains a xs ≡ true → length (erase_first a xs) + 1 ≡ length xs
unfolding erase_first
length-erase_first a [] h = cc
length-erase_first a (x ∷ xs) h = ground (arith, length-erase_first a xs)

module _ {Slot : Type 0} where
  pub empty_signal-IsSignal : IsSignal (empty_signal {Slot = Slot})
  unfolding empty_signal
  empty_signal-IsSignal = record {
    distinct = tt;
    below = tt;
    owned = λ a. refl;
    filled = λ a. refl;
  }

  -- Connecting a slot to a well-formed signal leaves it well formed.
  -- The signal with one more callback.
  unfoldable pub appended : Slot → Signal Slot → Signal Slot
  appended f s = record s {
    next = s.next + 1;
    cb = s.cb ++ s.next ∷ [];
    callback = update s.callback s.next (record { owner = true; fn = some f });
  }

  pub connect-some :
      (f : Slot) (s : Signal Slot)
      → connect (some f) s ≡ done (record { cb = some s.next }, appended f s)
  unfolding connect appended
  connect-some f s = refl

  pub connect-none : (s : Signal Slot) → connect none s ≡ abort
  unfolding connect
  connect-none s = refl

  pub connect-IsSignal : (f : Slot) (s : Signal Slot) → IsSignal s → IsSignal (appended f s)
  unfolding appended
  connect-IsSignal f s v = record {
    distinct = Distinct-snoc s.next s.cb v.distinct (not-contains_below s.next s.cb v.below);
    below = AllBelow-snoc s.next s.cb v.below;
    owned = λ a. ground (arith, v.owned a, contains-append a s.cb (s.next ∷ []));
    filled = λ a. ground (arith, v.filled a, contains-append a s.cb (s.next ∷ []));
  }
