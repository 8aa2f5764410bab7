-- ===== src/Signal/Scoped.antt =====
-- include/yash.hpp: an auto_connection disconnects its slot at the end of its scope.
use dbuscc.Base.{
  ℕ, ◌≡◌, refl, true, false, none, some, arith, contains, done, if◌then◌else◌, ◌==◌, Bool-cases,
  inl, inr, >>=-eq-done, ap,
}
use dbuscc.Signal.{
  Signal, Connection, AutoConnection, connected, disconnect, auto_disconnect, auto_connected,
  destroy_auto,
}
use dbuscc.Signal.Invariant.{IsSignal, contains-erase_first}
use dbuscc.Signal.Disconnect.{at, dropped, dropped-IsSignal, disconnect_listed}

abbrev pub auto : Connection → AutoConnection
auto c = record { conn = c }

module _ {Slot : Type 0} where
  -- The state in which the destructor leaves the signal.
  abbrev IsEnded : ℕ → Signal Slot → Signal Slot → Type 0
  IsEnded a s s' =
      IsSignal s'
      × ((b : ℕ) → contains b s'.cb ≡ (if a == b then false else contains b s.cb))
      × (auto_connected (auto (at a)) s' ≡ contains a s.locked)
      × (x : AutoConnection) × (auto_disconnect (auto (at a)) s ≡ done (x, s'))
      × (destroy_auto x s' ≡ done s')

  listed_ends :
      (a : ℕ) (s : Signal Slot) → IsSignal s → contains a s.cb ≡ true → IsEnded a s (dropped a s)
  unfolding auto_connected connected auto_disconnect destroy_auto dropped
  listed_ends a s v h = (
    dropped-IsSignal a s v,
    λ b. contains-erase_first a b s.cb v.distinct,
    ground (arith, contains-erase_first a a s.cb v.distinct),
    auto (record { cb = none }),
    rw (disconnect_listed a s v h) refl,
    refl,
  )

  -- A connection whose callback is not listed finds nothing to do, now and once more.
  unlisted_again :
      (a : ℕ) (s : Signal Slot)
      → IsSignal s
      → contains a s.cb ≡ false
      → (x : AutoConnection) × (auto_disconnect (auto (at a)) s ≡ done (x, s))
        × (destroy_auto x s ≡ done s)
  unfolding auto_disconnect destroy_auto disconnect
  unlisted_again a s v h = elim (Bool-cases (contains a s.locked)) [
    | inl held ↦ (auto (record { cb = none }), ground (arith, v.owned a), refl)
    | inr gone ↦ (auto (at a), ground (arith, v.owned a), ground (arith, v.owned a))
  ]

  unlisted_ends : (a : ℕ) (s : Signal Slot) → IsSignal s → contains a s.cb ≡ false → IsEnded a s s
  unfolding auto_connected connected
  unlisted_ends a s v h =
      let (x, e, last) = unlisted_again a s v h in
      (v, λ b. ground (arith, h), ground (arith, h), x, e, last)

  destroy_auto-disconnect :
      (a : ℕ) (s s' : Signal Slot) (x : AutoConnection)
      → auto_disconnect (auto (at a)) s ≡ done (x, s')
      → destroy_auto (auto (at a)) s ≡ done s'
  unfolding auto_disconnect destroy_auto
  destroy_auto-disconnect a s s' x e =
      let (r, p, q) = >>=-eq-done (disconnect (at a) s) _ e in
      let same : r.1 ≡ s' = cc (q) in rw p (ap (λ (y : Signal Slot). done y) same)

  -- The end of an auto_connection of a well-formed signal, whether its callback is still listed or
  -- was disconnected by another copy: the destructor returns, trips no assertion, and leaves the
  -- signal well formed and without that callback, with every other one. The connection stays
  -- connected exactly while a running invocation holds the callback. When disconnect was called
  -- before, the destructor finds nothing left to do.
  pub auto_connection_ends :
      (a : ℕ) (s : Signal Slot)
      → IsSignal s
      → (s' : Signal Slot) × (destroy_auto (record { conn = record { cb = some a } }) s ≡ done s')
        × IsSignal s'
        × ((b : ℕ) → contains b s'.cb ≡ (if a == b then false else contains b s.cb))
        × (auto_connected (record { conn = record { cb = some a } }) s' ≡ contains a s.locked)
        × (x : AutoConnection) × (auto_disconnect (record { conn = record { cb = some a } }) s
            ≡ done (x, s'))
        × (destroy_auto x s' ≡ done s')
  auto_connection_ends a s v = elim (Bool-cases (contains a s.cb)) [
    | inl h ↦
        let (w, only, on, x, e, last) = listed_ends a s v h in
        (dropped a s, destroy_auto-disconnect a s (dropped a s) x e, w, only, on, x, e, last)
    | inr h ↦
        let (w, only, on, x, e, last) = unlisted_ends a s v h in
        (s, destroy_auto-disconnect a s s x e, w, only, on, x, e, last)
  ]
