-- ===== src/Adapter/Sync/Reach.antt =====
-- src/tscb-adapter.cc: what the reactor watches once it has run all that was posted.
use dbuscc.Base.{ℕ, ◌≡◌, ◌⊎◌, inl, inr, none, some, [], arith, Option, ap, ◌∙◌}
use dbuscc.Watch.{WatchApi, State}
use dbuscc.Watch.Removal.{counted, linked_to}
use dbuscc.Adapter.{IoConnection, Adapter}
use dbuscc.Adapter.Sync.{ctx_of, IsWatched, IsSynced}
use dbuscc.Adapter.Sync.World.{SameHandle, SameEvents}
use dbuscc.Adapter.Sync.Steps.{Step, Step-IsSynced}

module _ (api : WatchApi) where
  open api use {Raw, World}

  -- Before libdbus adds its first watch.
  abbrev pub unused : World → State api Adapter
  unused w = record {
    world = w;
    heap = λ _. none;
    next = 0;
    env = record { contexts = λ _. none; slots_of = λ _. []; posted = []; next = 0 };
  }

  pub data Run (w : World) : State api Adapter → Type 0 where
    begin : Run w (unused w)
    then : {s s' : State api Adapter} → Run w s → Step api s s' → Run w s'

  unused-IsSynced : (w : World) → IsSynced api [] (unused w)
  unused-IsSynced w = record {
    tracked = λ c a conn e. absurd (cc (e));
    data_is = λ b r (n, e). absurd (cc (e));
    fresh = λ b r (n, e). absurd (cc (e));
    served = λ b r (n, e). absurd (cc (e));
    owned = λ c a m. absurd (cc (m));
  }

  module _
      (others : (w : World) (r r2 : Raw) (a : ℕ)
        → (r ≡ r2) ⊎ SameHandle api w (api.set_data w r a) r2)
      (events : (w : World) (r r2 : Raw) (a : ℕ) → SameEvents api w (api.set_data w r a) r2) where
    Run-IsSynced : (w : World) (s : State api Adapter) → Run w s → IsSynced api [] s
    Run-IsSynced w _ begin = unused-IsSynced w
    Run-IsSynced w s' (then {s} run step) =
        Step-IsSynced api others events step (Run-IsSynced w s run)

    -- A connection that starts without watches, and an adapter without contexts. libdbus adds
    -- watches that it has not added yet, toggles them after it changed whether they are enabled
    -- and their flags, removes them and gives references back; the reactor runs what is posted
    -- and reports what is ready; in any order, as long as each call returns. Setting the data of
    -- a watch changes nothing else in libdbus. Whenever nothing is posted, every object that is
    -- linked to a raw watch has a context by which the reactor watches the descriptor of that
    -- raw watch, for input and output exactly as libdbus wants it now, and hands what it reports
    -- to that object.
    pub all-IsWatched :
        (w : World) (s : State api Adapter) (b n : ℕ) (r : Raw)
        → Run w s
        → s.env.posted ≡ []
        → s.heap b ≡ counted n (linked_to r)
        → (c : ℕ) × (io : IoConnection) × (s.env.contexts c ≡ some (ctx_of b (some io)))
          × IsWatched api s.world b r io
    all-IsWatched w s b n r run none_left live =
        let v = Run-IsSynced w s run in
        let (c, conn, e) = v.served b r (n, live) in
        elim (v.tracked c b conn e).current [
          | inl m ↦ absurd (ground (arith, none_left, m))
          | inr f ↦
              let (io, p, x) = f r (n, live) in
              (c, io, e ∙ ap (λ (k : Option IoConnection). some (ctx_of b k)) p, x)
        ]
