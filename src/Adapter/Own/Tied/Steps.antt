-- ===== src/Adapter/Own/Tied/Steps.antt =====
-- src/tscb-adapter.cc: the slots of the watches over the calls of libdbus and of the reactor.
use dbuscc.Base.{
  ℕ, ◌≡◌, refl, inl, inr, true, some, List, [], ◌∷◌, contains, update, done, >>=-eq-done, sym, ◌∙◌,
  arith, subst,
}
use dbuscc.Watch.{WatchApi, State, on_change, on_remove, handle, add_ref, release, toggled, removed}
use dbuscc.Watch.Removal.{counted, detached}
use dbuscc.Watch.Values.{unref-release}
use dbuscc.Watch.Frame.{
  Keeps-detach, add_ref-Keeps, release-Keeps, toggled-parts, removed-parts, handle-world,
}
use dbuscc.Connection.Sources.{add_watch}
use dbuscc.Adapter.{
  IoEvents, Adapter, on_watch_add, on_watch_change, on_watch_remove, on_io_ready, call_slots, fire,
  run_posted,
}
use dbuscc.Adapter.Removal.{cleared_ctx}
use dbuscc.Adapter.Sync.{Linked, put}
use dbuscc.Adapter.Sync.Change.{on_watch_change-IsChanged}
use dbuscc.Adapter.Sync.Remove.{on_watch_remove-cleared}
use dbuscc.Adapter.Sync.Kept.{kept}
use dbuscc.Adapter.Sync.Add.{add_watch-parts}
use dbuscc.Adapter.Own.Step.{Call, changes, adds, toggles, removes, frees, runs, is_ready}
use dbuscc.Adapter.Own.Tied.{IsTied, kept-IsTied, changed-IsTied, cleared-IsTied, with_added-IsTied}

module _ (api : WatchApi) where
  changes-IsTied :
      (cs : List ℕ) (s s' : State api Adapter)
      → call_slots api on_change cs s ≡ done s'
      → IsTied api s
      → IsTied api s'
  unfolding call_slots
  changes-IsTied [] s s' e v = let same : s ≡ s' = cc (e) in subst (IsTied api) same v
  changes-IsTied (c ∷ cs) s s' e v =
      let (s1, p, q) = >>=-eq-done (on_watch_change api c s) _ e in
      let (a, conn, conn', h, same, ch) = on_watch_change-IsChanged api c s s1 p in
      changes-IsTied cs s1 s' q
        (subst (IsTied api) same (changed-IsTied api s h c a conn conn' ch.keeps ch.before v))

  removes-IsTied :
      (cs : List ℕ) (a : ℕ) (s s' : State api Adapter)
      → call_slots api on_remove cs s ≡ done s'
      → ((c : ℕ) → contains c cs ≡ true → contains c (s.env.slots_of a) ≡ true)
      → ((r : api.Raw) → ¬ Linked api s.heap a r)
      → IsTied api s
      → IsTied api s'
  unfolding call_slots
  removes-IsTied [] a s s' e sub gone v = let same : s ≡ s' = cc (e) in subst (IsTied api) same v
  removes-IsTied (c ∷ cs) a s s' e sub gone v =
      let (s1, p, q) = >>=-eq-done (on_watch_remove api c s) _ e in
      let (h, same, k) = on_watch_remove-cleared api c s s1 p in
      let t = put api s h c cleared_ctx in
      removes-IsTied cs a t s'
        (subst (λ (x : State api Adapter). call_slots api on_remove cs x ≡ done s') (sym same) q)
        (λ d m. sub d (ground (arith, m))) (λ r l. gone r (kept api s.heap h k a r l))
        (cleared-IsTied api s h c a k (sub c (ground arith)) gone v)

  release-IsTied :
      (a : ℕ) (s s' : State api Adapter) → release api a s ≡ done s' → IsTied api s → IsTied api s'
  release-IsTied a s s' e v =
      let (h, same, k) = release-Keeps api a s s' e in
      subst (IsTied api) same (kept-IsTied api s h s.env.posted k v)

  add_ref-IsTied :
      (a : ℕ) (s s' : State api Adapter) → add_ref api a s ≡ done s' → IsTied api s → IsTied api s'
  add_ref-IsTied a s s' e v =
      let (h, same, k) = add_ref-Keeps api a s s' e in
      subst (IsTied api) same (kept-IsTied api s h s.env.posted k v)

  run_posted-IsTied :
      (s s' : State api Adapter) → run_posted api s ≡ done s' → IsTied api s → IsTied api s'
  unfolding run_posted
  run_posted-IsTied s s' e v = go s.env.posted refl
    where
      go : (xs : List ℕ) → s.env.posted ≡ xs → IsTied api s'
      go [] p = let same : s ≡ s' = ground (arith, p, e) in subst (IsTied api) same v
      go (c ∷ cs) p =
          let t : State api Adapter = record s { env = record (s.env) { posted = cs } } in
          let (a, conn, conn', h, same, ch) =
            on_watch_change-IsChanged api c t s' (ground (arith, p, e)) in
          let v' = kept-IsTied api s s.heap cs (λ b r n q. (n, q)) v in
          subst (IsTied api) same (changed-IsTied api t h c a conn conn' ch.keeps ch.before v')

  add_watch-IsTied :
      (r : api.Raw) (s s' : State api Adapter)
      → add_watch api (on_watch_add api) (some r) s ≡ done s'
      → IsTied api s
      → IsTied api s'
  add_watch-IsTied r s s' e v =
      let (h, same, links) = add_watch-parts api r s s' e in
      subst (IsTied api) same (
        with_added-IsTied api (api.set_data s.world r s.next) h s
          (λ b r2 l. elim (links b r2 l) [ inl (p, q) ↦ inl p | inr old ↦ inr old ]) v)

  removed-IsTied :
      (r : api.Raw) (s s' : State api Adapter)
      → removed api (fire api) (some r) s ≡ done s'
      → IsTied api s
      → IsTied api s'
  unfolding fire
  removed-IsTied r s s' e v =
      let (a, c, s1, s2, g, p1, here, p2, p3) = removed-parts api (fire api) r s s' e in
      let h = update s1.heap a (counted c.refcnt detached) in
      let v1 = add_ref-IsTied a s s1 p1 v in
      let v2 = kept-IsTied api s1 h s1.env.posted (Keeps-detach a c.refcnt s1.heap) v1 in
      release-IsTied a s2 s' p3 (
        removes-IsTied (s1.env.slots_of a) a (record s1 { heap = h }) s2 p2 (λ k m. m)
          (λ r2 (n, l). ground (arith, l)) v2)

  toggled-IsTied :
      (r : api.Raw) (s s' : State api Adapter)
      → toggled api (fire api) (some r) s ≡ done s'
      → IsTied api s
      → IsTied api s'
  unfolding fire
  toggled-IsTied r s s' e v =
      let (a, s1, s2, g, p1, p2, p3) = toggled-parts api (fire api) r s s' e in
      release-IsTied a s2 s' p3
        (changes-IsTied (s1.env.slots_of a) s1 s2 p2 (add_ref-IsTied a s s1 p1 v))

  is_ready-IsTied :
      (a : ℕ) (e : IoEvents) (s s' : State api Adapter)
      → on_io_ready api a e s ≡ done s'
      → IsTied api s
      → IsTied api s'
  unfolding on_io_ready
  is_ready-IsTied a e s s' p v =
      let ((ok, s1), p1, q1) = >>=-eq-done (handle api a _ s) _ p in
      let only : record s { world = s1.world } ≡ s1 = handle-world api a _ s ok s1 p1 in
      let last : s1 ≡ s' = cc (q1) in
      subst (IsTied api) (only ∙ last) (record {
        below = v.below;
        apart = v.apart;
        address = v.address;
        fresh = v.fresh;
        tied = v.tied;
      })

  pub Call-IsTied :
      {others : ℕ → ℕ} {s : State api Adapter} {others' : ℕ → ℕ} {s' : State api Adapter}
      → Call api others s others' s'
      → IsTied api s
      → IsTied api s'
  Call-IsTied (changes w) v = record {
    below = v.below;
    apart = v.apart;
    address = v.address;
    fresh = v.fresh;
    tied = v.tied;
  }
  Call-IsTied {s = s} {s' = s'} (adds r e) v = add_watch-IsTied r s s' e v
  Call-IsTied {s = s} {s' = s'} (toggles r e) v = toggled-IsTied r s s' e v
  Call-IsTied {s = s} {s' = s'} (removes r e) v = removed-IsTied r s s' e v
  Call-IsTied {s = s} {s' = s'} (frees a q e) v =
      release-IsTied a s s' (sym (unref-release api a s) ∙ e) v
  Call-IsTied {s = s} {s' = s'} (runs e) v = run_posted-IsTied s s' e v
  Call-IsTied {s = s} {s' = s'} (is_ready a ev e) v = is_ready-IsTied a ev s s' e v
