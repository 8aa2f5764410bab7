-- ===== src/Adapter/Own/Reach.antt =====
-- src/watch.cc, src/tscb-adapter.cc: the objects that are alive, over the calls of libdbus and
-- of the reactor in any order.
use dbuscc.Base.{ℕ, ◌+◌, ◌*◌, ◌<◌, ◌≡◌, refl, inl, inr, some, ◌==◌, arith, Bool-cases}
use dbuscc.Pointer.{int_mod}
use dbuscc.Watch.{WatchApi, State}
use dbuscc.Adapter.{Adapter}
use dbuscc.Adapter.Own.{held_below, plus, Held, IsCounted}
use dbuscc.Adapter.Own.Calls.{same-IsCounted}
use dbuscc.Adapter.Own.Slots.{AtMost, IsSmall}
use dbuscc.Adapter.Own.Add.{add_watch-IsCounted}
use dbuscc.Adapter.Own.Step.{Call, changes, adds, toggles, removes, frees, runs, is_ready}
use dbuscc.Adapter.Sync.Reach.{unused}
use dbuscc.Adapter.Own.Next.{Call-next}
use dbuscc.Adapter.Own.Counts.{
  world-IsCounted, toggled-IsCounted, removed-IsCounted, run_posted-IsCounted, is_ready-IsCounted,
  unref-IsCounted,
}

module _ (api : WatchApi) where
  open api use {World}

  added-AtMost :
      (others : ℕ → ℕ) (s : State api Adapter)
      → AtMost 1 others
      → IsCounted api others s
      → AtMost 1 (plus others (some s.next))
  added-AtMost others s few v b = elim (Bool-cases (s.next == b)) [
    | inl p ↦
        let same : s.next ≡ b = ground (arith, p) in
        ground (arith, p, v.fresh b (omega (arith, same)))
    | inr p ↦ ground (arith, p, few b)
  ]

  Call-IsCounted :
      {others : ℕ → ℕ} {s : State api Adapter} {others' : ℕ → ℕ} {s' : State api Adapter}
      → Call api others s others' s'
      → AtMost 1 others
      → IsSmall api s
      → IsCounted api others s
      → AtMost 1 others' × IsCounted api others' s'
  Call-IsCounted {others} {s} {others'} {s'} (changes w) few small v =
      (few, world-IsCounted api others s w v)
  Call-IsCounted {others} {s} {others'} {s'} (adds r e) few small v =
      (added-AtMost others s few v, add_watch-IsCounted api others r s s' e few small v)
  Call-IsCounted {others} {s} {others'} {s'} (toggles r e) few small v =
      (few, toggled-IsCounted api others r s s' e few small v)
  Call-IsCounted {others} {s} {others'} {s'} (removes r e) few small v =
      (few, removed-IsCounted api others r s s' e few small v)
  Call-IsCounted {others} {s} {others'} {s'} (frees a same e) few small v = (
    λ b. omega (arith, few b, same b),
    unref-IsCounted api others' a s s' e
        (same-IsCounted api others (plus others' (some a)) s same v),
  )
  Call-IsCounted {others} {s} {others'} {s'} (runs e) few small v =
      (few, run_posted-IsCounted api others s s' e few small v)
  Call-IsCounted {others} {s} {others'} {s'} (is_ready a ev e) few small v =
      (few, is_ready-IsCounted api others a ev s s' e v)

  pub data Run (w : World) : (ℕ → ℕ) → State api Adapter → Type 0 where
    begin : Run w (λ _. 0) (unused api w)
    after :
        {others : ℕ → ℕ} {s : State api Adapter} {others' : ℕ → ℕ} {s' : State api Adapter}
        → Run w others s
        → Call api others s others' s'
        → Run w others' s'

  unused-IsCounted : (w : World) → IsCounted api (λ _. 0) (unused api w)
  unused-IsCounted w = record {
    counts = λ a. (omega arith, inl (refl, refl));
    fresh = λ a l. refl;
    outside = λ c l. refl;
  }

  pub Run-IsCounted :
      (w : World) (others : ℕ → ℕ) (s : State api Adapter)
      → Run w others s
      → IsSmall api s
      → AtMost 1 others × IsCounted api others s
  Run-IsCounted w _ _ begin small = (λ a. omega arith, unused-IsCounted w)
  Run-IsCounted w others' s' (after {others} {s} run call) small =
      let before : IsSmall api s = omega (arith, small, Call-next api call) in
      let (few, v) = Run-IsCounted w others s run before in Call-IsCounted call few before v

  -- A connection that starts without watches, and an adapter without contexts. libdbus adds,
  -- toggles and removes watches and gives back pointers that it holds, and the reactor runs what
  -- is posted and reports what is ready, in any order, as long as each call returns; fewer than
  -- 2 ^ 31 - 2 contexts are made. At every address there is an object exactly as long as libdbus
  -- or the adapter holds a pointer to it, in a context or for a function that the reactor runs,
  -- and its count is the number of these pointers: no pointer dangles, and no object leaks.
  pub all-Held :
      (w : World) (others : ℕ → ℕ) (s : State api Adapter)
      → Run w others s
      → 2 * s.env.next + 4 < int_mod
      → (a : ℕ) → Held (others a + held_below s.env.contexts s.env.next a) s.heap a
  all-Held w others s run small a = (Run-IsCounted w others s run small).1.counts a
