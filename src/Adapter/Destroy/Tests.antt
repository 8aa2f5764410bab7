-- ===== src/Adapter/Destroy/Tests.antt =====
-- src/tscb-adapter.cc: the theorem at signals that are the list of their connections.
use dbuscc.Base.{
  ℕ, ◌+◌, ◌≡◌, refl, true, false, none, some, List, [], ◌∷◌, ◌==◌, contains, if◌then◌else◌, done,
  fault, arith,
}
use dbuscc.Watch.Tests.{model_api}
use dbuscc.Watch.{State}
use dbuscc.Connection.Sources.{add_watch}
use dbuscc.Adapter.{Adapter, on_watch_add}
use dbuscc.Adapter.Sync.Reach.{unused}
use dbuscc.Adapter.Destroy.{SignalApi, Hooks, Owner, connect_hooks, destroy, run_through}
use dbuscc.Adapter.Destroy.Outlive.{AllConnected, posted_outlives}

without : ℕ → List ℕ → List ℕ
without a [] = []
without a (x ∷ xs) = let rest = without a xs in if x == a then rest else x ∷ rest

contains-without : (a : ℕ) (xs : List ℕ) → contains a (without a xs) ≡ false
unfolding without
contains-without a [] = refl
contains-without a (x ∷ xs) = ground (arith, contains-without a xs)

contains-head : (a : ℕ) (xs : List ℕ) → contains a (a ∷ xs) ≡ true
contains-head a xs = ground arith

-- A signal is the number of its next connection, and the connections that it has.
abbrev model_signals : SignalApi
model_signals = record {
  Slot = ℕ;
  Signal = ℕ × List ℕ;
  Connection = ℕ;
  connect = λ f s. (s.0, (s.0 + 1, s.0 ∷ s.1));
  disconnect = λ c s. (c, (s.0, without c s.1));
  connected = λ c s. contains c s.1;
  connected-connect = λ f s. contains-head s.0 s.1;
  connected-disconnect = λ c s. contains-without c s.1;
}

-- Other clients have some connections already.
abbrev others : Hooks model_signals
others = record {
  on_watch_add = (1, 0 ∷ []);
  on_timeout_add = (0, []);
  on_dispatch_state = (2, 1 ∷ 0 ∷ []);
}

posted_outlives_example :
    (s1 s2 : State model_api Adapter) × (o o' : Owner model_signals) × (h1 h2 : Hooks model_signals)
    × (connect_hooks model_signals 7 8 9 others ≡ (o, h1))
    × AllConnected model_signals true o h1
    × (add_watch model_api (on_watch_add model_api) (some 5) (unused model_api (λ _. none))
        ≡ done s1)
    × (run_through model_api o.alive s1 ≡ done s2)
    × (destroy model_signals o h1 ≡ (o', h2))
    × AllConnected model_signals false o h2
    × (run_through model_api o'.alive s1 ≡ fault)
posted_outlives_example =
    posted_outlives model_api model_signals 7 8 9 others 5 (unused model_api (λ _. none)) refl refl
