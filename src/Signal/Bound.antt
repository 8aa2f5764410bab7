-- ===== src/Signal/Bound.antt =====
-- include/yash.hpp: an invocation ends, however the slots change the signal meanwhile.
use dbuscc.Base.{
  ℕ, ◌+◌, ◌≤◌, ◌≡◌, refl, true, none, ◌⊎◌, inl, inr, Bool-cases, Option-cases, List, [], ◌∷◌, ◌++◌,
  length, Outcome, done, raise, arith, ap,
}
use dbuscc.Signal.{Signal, slots, alive, call_one, call_all, emit, lock, unlock}

module _ {Slot W : Type 0} (run : Slot → Signal Slot × W → Outcome (Signal Slot × W))
    (calls : W → ℕ)
    (returns : (f : Slot) (t : Signal Slot × W)
      → (t' : Signal Slot × W) × (run f t ≡ done t') × (calls t'.1 ≡ calls t.1 + 1)) where
  -- A callback that some invocation still holds, and whose function was cleared.
  abbrev IsCleared : ℕ → Signal Slot → Type 0
  IsCleared a s = (alive a s ≡ true) × ((s.callback a).fn ≡ none)

  -- The calls for the callbacks before one of the list return, in a state in which it is cleared.
  abbrev MeetsCleared : List ℕ → Signal Slot × W → Type 0
  MeetsCleared tmp t =
      (xs : List ℕ) × (a : ℕ) × (ys : List ℕ) × (t' : Signal Slot × W) × (tmp ≡ xs ++ a ∷ ys)
      × (call_all run xs t ≡ done t')
      × IsCleared a t'.0

  -- What a part of an invocation comes to: it returns, with so many more calls at most, or throws
  -- at a cleared callback.
  abbrev pub EndsWithin : List ℕ → Signal Slot × W → Outcome (Signal Slot × W) → Type 0
  EndsWithin tmp t m =
      ((t' : Signal Slot × W) × (m ≡ done t') × (calls t'.1 ≤ calls t.1 + length tmp))
      ⊎ ((m ≡ raise) × MeetsCleared tmp t)

  call_one-ends :
      (a : ℕ) (t : Signal Slot × W)
      → ((t' : Signal Slot × W) × (call_one run a t ≡ done t') × (calls t'.1 ≤ calls t.1 + 1))
        ⊎ ((call_one run a t ≡ raise) × IsCleared a t.0)
  unfolding call_one lock unlock
  call_one-ends a (s, w) = elim (Bool-cases (alive a s)) [
    | inl live ↦ elim (Option-cases (s.callback a).fn) [
      | inl e ↦ inr (ground (arith, live, e), (live, e))
      | inr (f, e) ↦
          let ((s', w'), p, c) = returns f (lock a s, w) in
          inl ((unlock a s', w'), ground (arith, live, e, p), omega (arith, c))
    ]
    | inr gone ↦ inl ((s, w), ground (arith, gone), omega arith)
  ]

  call_all-EndsWithin : (tmp : List ℕ) (t : Signal Slot × W) → EndsWithin tmp t (call_all run tmp t)
  unfolding call_all
  call_all-EndsWithin [] t = inl (t, refl, omega arith)
  call_all-EndsWithin (a ∷ tmp) t = elim (call_one-ends a t) [
    | inl (t1, p, c1) ↦ elim (call_all-EndsWithin tmp t1) [
      | inl (t2, q, c2) ↦ inl (t2, rw p q, omega (arith, c1, c2))
      | inr (q, (xs, b, ys, t2, e, r, cleared)) ↦
          inr (rw p q, (a ∷ xs, b, ys, t2, ap (λ (l : List ℕ). a ∷ l) e, rw p r, cleared))
    ]
    | inr (p, cleared) ↦ inr (rw p refl, ([], a, tmp, t, refl, refl, cleared))
  ]

  -- When every call of a slot returns, whatever it connects and disconnects meanwhile, and in any
  -- state of the signal, an invocation returns, after at most as many calls of slots as slots()
  -- was at its begin, or throws. It throws only after the calls for some of the callbacks that were
  -- connected at its begin, at the next of these, which is still alive and has no function left.
  pub emit_ends :
      (s : Signal Slot) (w : W)
      → ((t : Signal Slot × W) × (emit run (s, w) ≡ done t) × (calls t.1 ≤ calls w + slots s))
        ⊎ ((emit run (s, w) ≡ raise)
            × (xs : List ℕ) × (a : ℕ) × (ys : List ℕ) × (t : Signal Slot × W) × (s.cb
                ≡ xs ++ a ∷ ys)
            × (call_all run xs (s, w) ≡ done t)
            × (alive a t.0 ≡ true)
            × ((t.0.callback a).fn ≡ none))
  unfolding emit slots
  emit_ends s w = elim (call_all-EndsWithin s.cb (s, w)) [
    | inl ended ↦ inl ended
    | inr (thrown, (xs, a, ys, t, e, r, (live, empty))) ↦
        inr (thrown, xs, a, ys, t, e, r, live, empty)
  ]
