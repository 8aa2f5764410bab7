-- ===== src/Adapter/Sync/Signals.antt =====
-- src/tscb-adapter.cc: the slots of a watch keep the contexts in step, when libdbus toggles the
-- watch and when it removes it.
use dbuscc.Base.{
  ℕ, ◌≡◌, inl, inr, refl, true, none, List, [], ◌∷◌, contains, done, >>=-eq-done, arith, sym, subst,
}
use dbuscc.Pointer.{Store}
use dbuscc.Watch.{WatchApi, Watch, on_change, on_remove, State, add_ref, release}
use dbuscc.Watch.Frame.{Keeps, add_ref-Keeps, release-Keeps}
use dbuscc.Adapter.{Adapter, on_watch_change, on_watch_remove, call_slots, fire, run_posted}
use dbuscc.Adapter.Sync.{Linked, IsSynced, put}
use dbuscc.Adapter.Sync.Change.{on_watch_change-IsChanged}
use dbuscc.Adapter.Sync.Kept.{kept, changed-IsSynced}
use dbuscc.Adapter.Sync.Remove.{on_watch_remove-cleared, cleared-IsSynced}

module _ (api : WatchApi) where
  open api use {Raw, World}

  pub recounted-IsSynced :
      (stale : List ℕ) (s : State api Adapter) (h : Store (Watch Raw))
      → Keeps s.heap h
      → IsSynced api stale s
      → IsSynced api stale (record s { heap = h })
  recounted-IsSynced stale s h k v = record {
    tracked = λ c a conn e.
        let t = v.tracked c a conn e in
        record {
          slot = t.slot;
          address = t.address;
          context = t.context;
          descriptor = λ io r p l. t.descriptor io r p (kept api s.heap h k a r l);
          current = elim t.current [
            | inl p ↦ inl p
            | inr f ↦ inr λ r l. f r (kept api s.heap h k a r l)
          ];
        };
    data_is = λ b r l. v.data_is b r (kept api s.heap h k b r l);
    fresh = λ b r l. v.fresh b r (kept api s.heap h k b r l);
    served = λ b r l. v.served b r (kept api s.heap h k b r l);
    owned = v.owned;
  }

  pub add_ref-IsSynced :
      (stale : List ℕ) (a : ℕ) (s s' : State api Adapter)
      → add_ref api a s ≡ done s'
      → IsSynced api stale s
      → IsSynced api stale s'
  add_ref-IsSynced stale a s s' e v =
      let (h, same, k) = add_ref-Keeps api a s s' e in
      subst (IsSynced api stale) same (recounted-IsSynced stale s h k v)

  pub release-IsSynced :
      (stale : List ℕ) (a : ℕ) (s s' : State api Adapter)
      → release api a s ≡ done s'
      → IsSynced api stale s
      → IsSynced api stale s'
  release-IsSynced stale a s s' e v =
      let (h, same, k) = release-Keeps api a s s' e in
      subst (IsSynced api stale) same (recounted-IsSynced stale s h k v)

  on_watch_change-IsSynced :
      (stale : List ℕ) (c : ℕ) (s s' : State api Adapter)
      → on_watch_change api c s ≡ done s'
      → IsSynced api (c ∷ stale) s
      → IsSynced api stale s'
  on_watch_change-IsSynced stale c s s' e v =
      let (a, conn, conn', h, same, ch) = on_watch_change-IsChanged api c s s' e in
      subst (IsSynced api stale) same (changed-IsSynced api stale c a conn conn' h s v ch)

  changes-IsSynced :
      (cs : List ℕ) (s s' : State api Adapter)
      → call_slots api on_change cs s ≡ done s'
      → IsSynced api cs s
      → IsSynced api [] s'
  unfolding call_slots
  changes-IsSynced [] s s' e v = let same : s ≡ s' = cc (e) in subst (IsSynced api []) same v
  changes-IsSynced (c ∷ cs) s s' e v =
      let (s1, p, q) = >>=-eq-done (on_watch_change api c s) _ e in
      changes-IsSynced cs s1 s' q (on_watch_change-IsSynced cs c s s1 p v)

  removes-IsSynced :
      (cs : List ℕ) (a : ℕ) (s s' : State api Adapter)
      → call_slots api on_remove cs s ≡ done s'
      → ((c : ℕ) → contains c cs ≡ true → contains c (s.env.slots_of a) ≡ true)
      → ((r : Raw) → ¬ Linked api s.heap a r)
      → IsSynced api [] s
      → IsSynced api [] s'
  unfolding call_slots
  removes-IsSynced [] a s s' e sub un v =
      let same : s ≡ s' = cc (e) in subst (IsSynced api []) same v
  removes-IsSynced (c ∷ cs) a s s' e sub un v =
      let (s1, p, q) = >>=-eq-done (on_watch_remove api c s) _ e in
      let (h, same, k) = on_watch_remove-cleared api c s s1 p in
      let t = put api s h c (record { watch = none; conn = none }) in
      removes-IsSynced cs a t s'
        (subst (λ (x : State api Adapter). call_slots api on_remove cs x ≡ done s') (sym same) q)
        (λ c2 m. sub c2 (ground (arith, m))) (λ r l. un r (kept api s.heap h k a r l))
        (cleared-IsSynced api [] c a h s v (sub c (ground arith)) un k)

  pub fire_change-IsSynced :
      (a : ℕ) (s s' : State api Adapter)
      → fire api a on_change s ≡ done s'
      → IsSynced api (s.env.slots_of a) s
      → IsSynced api [] s'
  unfolding fire
  fire_change-IsSynced a s s' e v = changes-IsSynced (s.env.slots_of a) s s' e v

  pub fire_remove-IsSynced :
      (a : ℕ) (s s' : State api Adapter)
      → fire api a on_remove s ≡ done s'
      → ((r : Raw) → ¬ Linked api s.heap a r)
      → IsSynced api [] s
      → IsSynced api [] s'
  unfolding fire
  fire_remove-IsSynced a s s' e un v = removes-IsSynced (s.env.slots_of a) a s s' e (λ c m. m) un v

  -- The reactor runs the first function that was posted.
  pub run_posted-IsSynced :
      (s s' : State api Adapter)
      → run_posted api s ≡ done s'
      → IsSynced api [] s
      → IsSynced api [] s'
  unfolding run_posted
  run_posted-IsSynced s s' e v = go s.env.posted refl
    where
      go : (xs : List ℕ) → s.env.posted ≡ xs → IsSynced api [] s'
      go [] p = let same : s ≡ s' = ground (arith, p, e) in subst (IsSynced api []) same v
      go (c ∷ cs) p =
          let t : State api Adapter = record s { env = record (s.env) { posted = cs } } in
          let v' : IsSynced api (c ∷ []) t = record {
            tracked = λ c2 a conn q.
                let w = v.tracked c2 a conn q in
                record {
                  slot = w.slot;
                  address = w.address;
                  context = w.context;
                  descriptor = w.descriptor;
                  current = elim w.current [ inl m ↦ inl (ground (arith, p, m)) | inr f ↦ inr f ];
                };
            data_is = v.data_is;
            fresh = v.fresh;
            served = v.served;
            owned = v.owned;
          } in
          on_watch_change-IsSynced [] c t s' (ground (arith, p, e)) v'
