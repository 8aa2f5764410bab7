-- ===== src/Adapter/Sync/World.antt =====
-- src/tscb-adapter.cc: contexts that stay in step while libdbus changes a raw watch, up to the
-- calls of on_watch_change that are still to come.
use dbuscc.Base.{ℕ, ◌≡◌, ◌⊎◌, inl, inr, true, Option, List, [], contains, arith, sym, ◌∙◌}
use dbuscc.Watch.{WatchApi, State}
use dbuscc.Adapter.{IoEvents, IoConnection, Adapter}
use dbuscc.Adapter.Sync.{Linked, IsWanted, IsTracked, IsSynced}

module _ (api : WatchApi) where
  open api use {Raw, World}

  -- A raw watch has the same object and descriptor; it is enabled as before, for the same events.
  abbrev pub SameHandle : World → World → Raw → Type 0
  SameHandle w w' r =
      (api.get_data w' r ≡ api.get_data w r) × (api.get_unix_fd w' r ≡ api.get_unix_fd w r)

  abbrev pub SameEvents : World → World → Raw → Type 0
  SameEvents w w' r =
      (api.get_enabled w' r ≡ api.get_enabled w r) × (api.get_flags w' r ≡ api.get_flags w r)

  pub same-IsWanted :
      (w w' : World) (r : Raw) (ev : IoEvents)
      → SameEvents w w' r
      → IsWanted api w r ev
      → IsWanted api w' r ev
  same-IsWanted w w' r ev (en, fl) x = record {
    input = rw en (rw fl x.input);
    output = rw en (rw fl x.output);
    error = x.error;
    hangup = x.hangup;
  }

  module _ (stale : List ℕ) (s : State api Adapter) (w' : World)
      (same : (r : Raw) → SameHandle s.world w' r)
      (events : (c a : ℕ)
        → contains c (s.env.slots_of a) ≡ true
        → (contains c stale ≡ true)
          ⊎ ((r : Raw) → Linked api s.heap a r → SameEvents s.world w' r)) where
    reworld-IsTracked :
        (c a : ℕ) (conn : Option IoConnection)
        → IsTracked api [] c a conn s
        → IsTracked api stale c a conn (record s { world = w' })
    reworld-IsTracked c a conn old = record {
      slot = old.slot;
      address = old.address;
      context = old.context;
      descriptor = λ io r p l. let (f, t) = old.descriptor io r p l in (f ∙ sym (same r).1, t);
      current = elim (events c a old.slot) [
        | inl st ↦ inl (ground (arith, st))
        | inr ev ↦ elim old.current [
          | inl p ↦ inl (ground (arith, p))
          | inr f ↦ inr λ r l.
              let (io, p, x) = f r l in
              (
                io,
                p,
                record {
                  fd = x.fd ∙ sym (same r).1;
                  target = x.target;
                  events = same-IsWanted s.world w' r io.events (ev r l) x.events;
                },
              )
        ]
      ];
    }

    pub reworld-IsSynced : IsSynced api [] s → IsSynced api stale (record s { world = w' })
    reworld-IsSynced v = record {
      tracked = λ c a conn e. reworld-IsTracked c a conn (v.tracked c a conn e);
      data_is = λ b r l. (same r).0 ∙ v.data_is b r l;
      fresh = v.fresh;
      served = v.served;
      owned = v.owned;
    }
