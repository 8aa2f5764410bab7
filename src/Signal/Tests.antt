-- ===== src/Signal/Tests.antt =====
-- include/yash.hpp: runs of the model, and the theorems at concrete signals.
use dbuscc.Base.{
  ◌≤◌, ◌⊎◌, length, abort, ℕ, ◌+◌, ◌≡◌, refl, ◌&&◌, true, false, some, none, List, [], ◌∷◌, ◌++◌,
  arith, contains, Outcome, done, raise, ◌>>=◌, if◌then◌else◌, ◌==◌, Bool,
}
use dbuscc.Signal.{
  alive, AutoConnection, auto_disconnect, auto_connected, destroy_auto, Signal, Connection,
  empty_signal, slots, connected, connect, disconnect, emit, call_all,
}
use dbuscc.Signal.Invariant.{appended, IsSignal, empty_signal-IsSignal, connect-IsSignal}
use dbuscc.Signal.Disconnect.{disconnect-IsSignal, disconnect_removes, connect_appends, at}
use dbuscc.Signal.Scoped.{auto_connection_ends}
use dbuscc.Signal.Listing.{
  Call, connects, disconnects, lists, make_calls, fold_slots, Session, new_session, is_connected,
}
use dbuscc.Signal.Bound.{emit_ends}
use dbuscc.Signal.Refine.{refines_listing}
use dbuscc.Signal.Emission.{
  deliver, emit_in_order, Grows, emit_ignores_late, disconnecting, disconnect_during_emission,
}

-- Slots 10 and 20, at the addresses 0 and 1.
two : Signal ℕ
unfolding empty_signal appended
two = appended 20 (appended 10 (empty_signal {Slot = ℕ}))

two-IsSignal : IsSignal two
unfolding two
two-IsSignal = connect-IsSignal 20 _ (connect-IsSignal 10 _ empty_signal-IsSignal)

-- A slot that notes its call.
noting : ℕ → Signal ℕ × List ℕ → Outcome (Signal ℕ × List ℕ)
noting f (s, w) = done (s, w ++ f ∷ [])

-- Slot 10 connects slot 30; slot 30 throws in one behaviour only.
late : Bool → ℕ → Signal ℕ × List ℕ → Outcome (Signal ℕ × List ℕ)
unfolding appended
late b f (s, w) =
    if f == 10
    then done (appended 30 s, w ++ f ∷ [])
    else if f == 30 && b
    then raise
    else done (s, w ++ f ∷ [])

-- Slot 10 disconnects the callback at 1.
cutting : ℕ → Signal ℕ × List ℕ → Outcome (Signal ℕ × List ℕ)
unfolding disconnecting
cutting f t = if f == 10 then disconnecting 1 t else noting f t

emit-noting : emit noting (two, []) ≡ done (two, 10 ∷ 20 ∷ [])
unfolding two emit noting
emit-noting = refl

-- The invocation of the outer signal is calling 20 at 1 when the inner one disconnects it.
nested : Signal ℕ
unfolding two
nested = record two { locked = 1 ∷ [] }

nested-IsSignal : IsSignal nested
unfolding nested two
nested-IsSignal = record {
  distinct = two-IsSignal.distinct;
  below = two-IsSignal.below;
  owned = two-IsSignal.owned;
  filled = two-IsSignal.filled;
}

late-Grows :
    (f : ℕ) (s : Signal ℕ) (w : List ℕ) (t : Signal ℕ × List ℕ)
    → late true f (s, w) ≡ done t
    → Grows s t.0
unfolding late
late-Grows f s w t e = record { next = ground arith; kept = λ a h. ground arith }

disconnect-IsSignal-two :
    (r : Connection × Signal ℕ) × (disconnect (at 0) two ≡ done r) × IsSignal r.1
disconnect-IsSignal-two = disconnect-IsSignal (at 0) two two-IsSignal

auto_connection_ends_example :
    (s' : Signal ℕ) × (destroy_auto (record { conn = record { cb = some 0 } }) two ≡ done s')
    × IsSignal s'
    × ((b : ℕ) → contains b s'.cb ≡ (if 0 == b then false else contains b two.cb))
    × (auto_connected (record { conn = record { cb = some 0 } }) s' ≡ contains 0 two.locked)
    × (x : AutoConnection) × (auto_disconnect (record { conn = record { cb = some 0 } }) two
        ≡ done (x, s'))
    × (destroy_auto x s' ≡ done s')
auto_connection_ends_example = auto_connection_ends 0 two two-IsSignal

disconnect_removes-two :
    (s' : Signal ℕ) × (disconnect (record { cb = some 0 }) two ≡ done (record { cb = none }, s'))
    × (slots s' + 1 ≡ slots two)
    × ((b : ℕ) → contains b s'.cb ≡ (if 0 == b then false else contains b two.cb))
    × (c : Connection) × (disconnect (record { cb = some 0 }) s' ≡ done (c, s'))
unfolding two
disconnect_removes-two = disconnect_removes 0 two two-IsSignal refl

connect_appends-two :
    (connect (some 30) two ≡ done (at two.next, appended 30 two))
    × (slots (appended 30 two) ≡ slots two + 1)
    × (connected (at two.next) (appended 30 two) ≡ true)
    × (connected (at 0) (appended 30 two) ≡ connected (at 0) two)
    × ((appended 30 two).cb ≡ two.cb ++ two.next ∷ [])
unfolding two
connect_appends-two = connect_appends 30 two (at 0) two-IsSignal (λ e. cc)

three-IsSignal : IsSignal (appended 30 two)
three-IsSignal = connect-IsSignal 30 two two-IsSignal

noted : ℕ → List ℕ → Outcome (List ℕ)
noted f w = done (w ++ f ∷ [])

noting-passive :
    (f : ℕ) (s : Signal ℕ) (w : List ℕ) → noting f (s, w) ≡ (noted f w >>= λ w'. done (s, w'))
unfolding noting noted
noting-passive f s w = refl

emit_in_order-two : emit noting (two, []) ≡ (deliver noted two two.cb [] >>= λ w. done (two, w))
unfolding noting noted
emit_in_order-two = emit_in_order noting noted noting-passive two [] two-IsSignal

emit_ignores_late_example : emit (late true) (two, []) ≡ emit (late false) (two, [])
unfolding late two
emit_ignores_late_example =
    emit_ignores_late (late true) (late false) late-Grows two [] two-IsSignal agree
  where
    agree :
        (a : ℕ) (f : ℕ) (t : Signal ℕ × List ℕ)
        → contains a two.cb ≡ true
        → (two.callback a).fn ≡ some f
        → late true f t ≡ late false f t
    agree a f t h e = ground arith

disconnect_during_emission_example :
    (s' : Signal ℕ) × (disconnecting {W = List ℕ} 1 (nested, []) ≡ done (s', []))
    × (emit cutting (nested, [])
        ≡ (if contains 1 nested.locked then raise else call_all cutting [] (s', [])))
unfolding cutting nested two
disconnect_during_emission_example =
    disconnect_during_emission cutting nested [] 0 1 [] 10 nested-IsSignal refl refl (λ t. refl)

-- Slots 10 and 20 are connected, and 10 is disconnected, twice.
abbrev session : List (Call ℕ)
session = connects 10 ∷ connects 20 ∷ disconnects 0 ∷ disconnects 0 ∷ []

refines_listing_example :
    (t : Session ℕ) × (make_calls session new_session ≡ done t)
    × (length t.conns ≡ 2)
    × (slots t.signal ≡ 1)
    × ((n : ℕ) → is_connected n t ≡ lists {Slot = ℕ} n ((1, 20) ∷ []))
    × (emit noting (t.signal, [])
        ≡ (fold_slots noted ((1, 20) ∷ []) [] >>= λ w. done (t.signal, w)))
    × (connect none t.signal ≡ abort)
refines_listing_example = refines_listing noting noted noting-passive session []

-- Every slot connects another one; `w` counts the calls.
growing : ℕ → Signal ℕ × ℕ → Outcome (Signal ℕ × ℕ)
unfolding appended
growing f (s, w) = done (appended f s, w + 1)

growing-returns :
    (f : ℕ) (t : Signal ℕ × ℕ) → (t' : Signal ℕ × ℕ) × (growing f t ≡ done t') × (t'.1 ≡ t.1 + 1)
unfolding growing
growing-returns f (s, w) = (_, refl, refl)

emit_ends_example :
    ((t : Signal ℕ × ℕ) × (emit growing (two, 0) ≡ done t) × (t.1 ≤ 2))
    ⊎ ((emit growing (two, 0) ≡ raise)
        × (xs : List ℕ) × (a : ℕ) × (ys : List ℕ) × (t : Signal ℕ × ℕ) × (two.cb ≡ xs ++ a ∷ ys)
        × (call_all growing xs (two, 0) ≡ done t)
        × (alive a t.0 ≡ true)
        × ((t.0.callback a).fn ≡ none))
unfolding two slots
emit_ends_example = emit_ends growing (λ w. w) growing-returns two 0
