-- ===== src/Signal/Disconnect.antt =====
-- include/yash.hpp: what connection::disconnect does to the signal and to the other connections.
use dbuscc.Base.{
  ℕ, ◌+◌, ◌≡◌, ◌≢◌, refl, true, false, none, some, [], ◌∷◌, ◌++◌, arith, contains, done, Option,
  sym, if◌then◌else◌, ◌==◌, update, Bool-cases, inl, inr, subst, length-append, contains-append, ap,
}
use dbuscc.Signal.{Signal, Connection, erase_first, slots, connected, connect, disconnect}
use dbuscc.Signal.Invariant.{
  appended, connect-some, IsSignal, contains-erase_first, Distinct-erase_first,
  AllBelow-erase_first, length-erase_first,
}

abbrev pub at : ℕ → Connection
at a = record { cb = some a }

module _ {Slot : Type 0} where
  -- The signal without one callback.
  unfoldable pub dropped : ℕ → Signal Slot → Signal Slot
  dropped a s = record s {
    cb = erase_first a s.cb;
    callback = update s.callback a (record { owner = false; fn = none });
  }

  pub dropped-IsSignal : (a : ℕ) (s : Signal Slot) → IsSignal s → IsSignal (dropped a s)
  unfolding dropped
  dropped-IsSignal a s v = record {
    distinct = Distinct-erase_first a s.cb v.distinct;
    below = AllBelow-erase_first s.next a s.cb v.below;
    owned = λ b. ground (arith, v.owned b, contains-erase_first a b s.cb v.distinct);
    filled = λ b. ground (arith, v.filled b, contains-erase_first a b s.cb v.distinct);
  }

  pub disconnect_listed :
      (a : ℕ) (s : Signal Slot)
      → IsSignal s
      → contains a s.cb ≡ true
      → disconnect (at a) s ≡ done (record { cb = none }, dropped a s)
  unfolding disconnect dropped
  disconnect_listed a s v h = ground (arith, v.owned a)

  pub disconnect_unlisted :
      (c : Connection) (a : ℕ) (s : Signal Slot)
      → IsSignal s
      → c.cb ≡ some a
      → contains a s.cb ≡ false
      → (c' : Connection) × (disconnect c s ≡ done (c', s))
  unfolding disconnect
  disconnect_unlisted c a s v e h = elim (Bool-cases (contains a s.locked)) [
    | inl held ↦ (record { cb = none }, ground (arith, v.owned a))
    | inr gone ↦ (c, ground (arith, v.owned a))
  ]

  disconnect-cases :
      (o : Connection) (a : ℕ) (s : Signal Slot)
      → IsSignal s
      → o.cb ≡ some a
      → (r : Connection × Signal Slot) × (disconnect o s ≡ done r) × IsSignal r.1
  disconnect-cases o a s v e = elim (Bool-cases (contains a s.cb)) [
    | inl h ↦ (
      (record { cb = none }, dropped a s),
      subst (λ (x : Connection). disconnect x s ≡ done (record { cb = none }, dropped a s))
          (ap (λ o'. record { cb = o' }) (sym e)) (disconnect_listed a s v h),
      dropped-IsSignal a s v,
    )
    | inr h ↦ let (c', p) = disconnect_unlisted o a s v e h in ((c', s), p, v)
  ]

  -- Disconnecting any connection of a well-formed signal returns, trips no assertion, and leaves
  -- the signal well formed.
  pub disconnect-IsSignal :
      (c : Connection) (s : Signal Slot)
      → IsSignal s
      → (r : Connection × Signal Slot) × (disconnect c s ≡ done r) × IsSignal r.1
  unfolding disconnect
  disconnect-IsSignal c s v = go c.cb refl
    where
      go :
          (o : Option ℕ)
          → c.cb ≡ o
          → (r : Connection × Signal Slot) × (disconnect c s ≡ done r) × IsSignal r.1
      go none e = ((c, s), ground arith, v)
      go (some a) e = disconnect-cases c a s v e

  -- Disconnecting a connected slot takes its callback out and no other; a copy of the connection
  -- that is disconnected later finds nothing left to do.
  pub disconnect_removes :
      (a : ℕ) (s : Signal Slot)
      → IsSignal s
      → contains a s.cb ≡ true
      → (s' : Signal Slot) × (disconnect (record { cb = some a }) s
          ≡ done (record { cb = none }, s'))
        × (slots s' + 1 ≡ slots s)
        × ((b : ℕ) → contains b s'.cb ≡ (if a == b then false else contains b s.cb))
        × (c : Connection) × (disconnect (record { cb = some a }) s' ≡ done (c, s'))
  unfolding slots dropped
  disconnect_removes a s v h =
      let s' = dropped a s in
      let gone : contains a s'.cb ≡ false =
        ground (arith, contains-erase_first a a s.cb v.distinct) in
      let (c, again) = disconnect_unlisted (at a) a s' (dropped-IsSignal a s v) refl gone in
      (
        s',
        disconnect_listed a s v h,
        length-erase_first a s.cb h,
        λ b. contains-erase_first a b s.cb v.distinct,
        c,
        again,
      )

  -- A new connection is connected, its callback is the last one, and every other connection is
  -- as it was.
  pub connect_appends :
      (f : Slot) (s : Signal Slot) (c : Connection)
      → IsSignal s
      → (c.cb ≢ some s.next)
      → (connect (some f) s ≡ done (at s.next, appended f s))
        × (slots (appended f s) ≡ slots s + 1)
        × (connected (at s.next) (appended f s) ≡ true)
        × (connected c (appended f s) ≡ connected c s)
        × ((appended f s).cb ≡ s.cb ++ s.next ∷ [])
  unfolding connect appended slots connected
  connect_appends f s c v h = (
    connect-some f s,
    length-append s.cb (s.next ∷ []),
    ground (arith, contains-append s.next s.cb (s.next ∷ [])),
    others c.cb h,
    refl,
  )
    where
      others :
          (o : Option ℕ)
          → o ≢ some s.next
          → connected (record { cb = o }) (appended f s) ≡ connected (record { cb = o }) s
      others none n = refl
      others (some b) n = ground (arith, contains-append b s.cb (s.next ∷ []))
