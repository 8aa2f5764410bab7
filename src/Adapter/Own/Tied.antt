-- ===== src/Adapter/Own/Tied.antt =====
-- src/tscb-adapter.cc: the slots of a watch that is not removed are bound to contexts that have it.
pub mod Steps
use dbuscc.Base.{
  ℕ, ◌+◌, ◌<◌, ◌≡◌, ◌⊎◌, refl, inl, inr, true, false, Option, none, some, ◌==◌, List, [], ◌∷◌, ◌++◌,
  contains, contains-append, update, done, >>=-eq-done, sym, ap, ◌∙◌, arith, Bool-cases, subst,
}
use dbuscc.Pointer.{Store}
use dbuscc.Watch.{
  WatchApi, Watch, State, on_change, on_remove, handle, add_ref, release, toggled, removed,
}
use dbuscc.Watch.Removal.{counted, linked_to, detached}
use dbuscc.Watch.Values.{unref-release}
use dbuscc.Watch.Frame.{
  Keeps, Keeps-detach, add_ref-Keeps, release-Keeps, toggled-parts, removed-parts, handle-world,
}
use dbuscc.Connection.Sources.{add_watch}
use dbuscc.Adapter.{
  IoEvents, IoConnection, IoCtx, Adapter, on_watch_add, on_watch_change, on_watch_remove,
  on_io_ready, call_slots, fire, run_posted,
}
use dbuscc.Adapter.Removal.{cleared_ctx}
use dbuscc.Adapter.Sync.{ctx_of, Linked, put}
use dbuscc.Adapter.Sync.Change.{on_watch_change-IsChanged}
use dbuscc.Adapter.Sync.Remove.{on_watch_remove-cleared}
use dbuscc.Adapter.Sync.Kept.{kept}
use dbuscc.Adapter.Sync.Add.{with_added, add_watch-parts}
use dbuscc.Adapter.Own.Step.{Call, changes, adds, toggles, removes, frees, runs, is_ready}

module _ (api : WatchApi) where
  pub record IsTied (s : State api Adapter) : Type 0 where
    pub below : (c a : ℕ) → contains c (s.env.slots_of a) ≡ true → c < s.env.next
    pub apart :
        (c a b : ℕ)
        → contains c (s.env.slots_of a) ≡ true
        → contains c (s.env.slots_of b) ≡ true
        → a ≡ b
    pub address : (c a : ℕ) → contains c (s.env.slots_of a) ≡ true → a < s.next
    pub fresh : (b : ℕ) (r : api.Raw) → Linked api s.heap b r → b < s.next
    pub tied :
        (b c : ℕ) (r : api.Raw)
        → Linked api s.heap b r
        → contains c (s.env.slots_of b) ≡ true
        → (conn : Option IoConnection) × (s.env.contexts c ≡ some (ctx_of b conn))

  -- A state with fewer linked watches, and another list of posted functions.
  pub kept-IsTied :
      (s : State api Adapter) (h : Store (Watch api.Raw)) (posted : List ℕ)
      → Keeps s.heap h
      → IsTied s
      → IsTied (record s { heap = h; env = record (s.env) { posted = posted } })
  kept-IsTied s h posted k v = record {
    below = v.below;
    apart = v.apart;
    address = v.address;
    fresh = λ b r l. v.fresh b r (kept api s.heap h k b r l);
    tied = λ b c r l m. v.tied b c r (kept api s.heap h k b r l) m;
  }

  pub changed-IsTied :
      (s : State api Adapter) (h : Store (Watch api.Raw)) (c a : ℕ)
      (conn conn' : Option IoConnection)
      → Keeps s.heap h
      → s.env.contexts c ≡ some (ctx_of a conn)
      → IsTied s
      → IsTied (put api s h c (ctx_of a conn'))
  changed-IsTied s h c a conn conn' k before v = record {
    below = v.below;
    apart = v.apart;
    address = v.address;
    fresh = λ b r l. v.fresh b r (kept api s.heap h k b r l);
    tied = λ b d r l m.
        let (old, e) = v.tied b d r (kept api s.heap h k b r l) m in
        elim (Bool-cases (d == c)) [
          | inl p ↦
              let same : ctx_of a conn ≡ ctx_of b old = ground (arith, p, e, before) in
              let hit : a ≡ b = cc (same) in
              let now : update s.env.contexts c (some (ctx_of a conn')) d ≡ some (ctx_of a conn') =
                ground (arith, p) in
              (conn', now ∙ ap (λ (x : ℕ). some (ctx_of x conn')) hit)
          | inr p ↦ (old, ground (arith, p, e))
        ];
  }

  pub cleared-IsTied :
      (s : State api Adapter) (h : Store (Watch api.Raw)) (c a : ℕ)
      → Keeps s.heap h
      → contains c (s.env.slots_of a) ≡ true
      → ((r : api.Raw) → ¬ Linked api s.heap a r)
      → IsTied s
      → IsTied (put api s h c cleared_ctx)
  cleared-IsTied s h c a k slot gone v = record {
    below = v.below;
    apart = v.apart;
    address = v.address;
    fresh = λ b r l. v.fresh b r (kept api s.heap h k b r l);
    tied = λ b d r l m.
        let l0 = kept api s.heap h k b r l in
        let (old, e) = v.tied b d r l0 m in
        elim (Bool-cases (d == c)) [
          | inl p ↦
              let same : b ≡ a = v.apart c b a (ground (arith, p, m)) slot in
              absurd (gone r (subst (λ (x : ℕ). Linked api s.heap x r) same l0))
          | inr p ↦ (old, ground (arith, p, e))
        ];
  }

  -- A slot of the state after add_watch: the new one, or one that was there.
  slot_cases :
      (s : State api Adapter) (c a : ℕ)
      → contains c (update s.env.slots_of s.next (s.env.slots_of s.next ++ s.env.next ∷ []) a)
        ≡ true
      → ((c ≡ s.env.next) × (a ≡ s.next)) ⊎ (contains c (s.env.slots_of a) ≡ true)
  slot_cases s c a m = elim (Bool-cases (a == s.next)) [
    | inl hit ↦ elim (Bool-cases (c == s.env.next)) [
      | inl new ↦ inl (ground (arith, new), ground (arith, hit))
      | inr old ↦
          inr (
            ground
              (arith, m, hit, old, contains-append c (s.env.slots_of s.next) (s.env.next ∷ [])))
    ]
    | inr miss ↦ inr (ground (arith, m, miss))
  ]

  pub with_added-IsTied :
      (w : api.World) (h : Store (Watch api.Raw)) (s : State api Adapter)
      → ((b : ℕ) (r : api.Raw) → Linked api h b r → (b ≡ s.next) ⊎ Linked api s.heap b r)
      → IsTied s
      → IsTied (with_added api w h s)
  with_added-IsTied w h s links v = record {
    below = λ c a m. elim (slot_cases s c a m) [
      | inl (p, q) ↦ omega (arith, p)
      | inr old ↦ omega (arith, v.below c a old)
    ];
    apart = λ c a b m k. elim (slot_cases s c a m) [
      | inl (p, q) ↦ elim (slot_cases s c b k) [
        | inl (p2, q2) ↦ omega (arith, q, q2)
        | inr old ↦ absurd (omega (arith, p, v.below c b old))
      ]
      | inr old ↦ elim (slot_cases s c b k) [
        | inl (p, q) ↦ absurd (omega (arith, p, v.below c a old))
        | inr old2 ↦ v.apart c a b old old2
      ]
    ];
    address = λ c a m. elim (slot_cases s c a m) [
      | inl (p, q) ↦ omega (arith, q)
      | inr old ↦ omega (arith, v.address c a old)
    ];
    fresh = λ b r l. elim (links b r l) [
      | inl p ↦ omega (arith, p)
      | inr old ↦ omega (arith, v.fresh b r old)
    ];
    tied = λ b c r l m. elim (slot_cases s c b m) [
      | inl (p, q) ↦
          let new : update s.env.contexts s.env.next (some (ctx_of s.next none)) c
              ≡ some (ctx_of s.next none) =
            ground (arith, p) in
          (none, new ∙ ap (λ (x : ℕ). some (ctx_of x none)) (sym q))
      | inr old ↦ elim (links b r l) [
        | inl p ↦ absurd (omega (arith, p, v.address c b old))
        | inr l0 ↦
            let (conn, e) = v.tied b c r l0 old in
            let miss : (c == s.env.next) ≡ false = ground (arith, v.below c b old) in
            (conn, ground (arith, miss, e))
      ]
    ];
  }
