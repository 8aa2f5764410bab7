-- ===== src/Adapter/Own/Counts.antt =====
-- src/watch.cc, src/tscb-adapter.cc: each call of libdbus and of the reactor keeps the counts.
use dbuscc.Base.{
  ℕ, ◌≡◌, refl, inl, inr, some, List, [], ◌∷◌, update, done, >>=-eq-done, sym, ◌∙◌, arith, subst,
}
use dbuscc.Pointer.{Counted}
use dbuscc.Watch.{
  WatchApi, Watch, State, WatchEvent, on_change, on_remove, release, unref, handle, toggled,
  removed,
}
use dbuscc.Watch.Removal.{counted, detached}
use dbuscc.Watch.Values.{unref-release}
use dbuscc.Watch.Frame.{toggled-parts, removed-parts, handle-world}
use dbuscc.Adapter.{IoEvents, Adapter, on_io_ready, fire, run_posted}
use dbuscc.Adapter.Own.{plus, pointers, IsCounted}
use dbuscc.Adapter.Own.Heap.{Held-counted}
use dbuscc.Adapter.Own.Calls.{add_ref-IsCounted, release-IsCounted}
use dbuscc.Adapter.Own.Slots.{
  AtMost, plus-AtMost, IsSmall, pointers-small, on_watch_change-IsCounted, fire-IsCounted,
}

module _ (api : WatchApi) where
  open api use {Raw, World}

  pub world-IsCounted :
      (others : ℕ → ℕ) (s : State api Adapter) (w : World)
      → IsCounted api others s
      → IsCounted api others (record s { world = w })
  world-IsCounted others s w v = record { counts = v.counts; fresh = v.fresh; outside = v.outside }

  -- One more pointer is taken for the time of a signal.
  pub signal-IsCounted :
      (ev : WatchEvent) (others : ℕ → ℕ) (a : ℕ) (s2 s3 s' : State api Adapter)
      → fire api a ev s2 ≡ done s3
      → release api a s3 ≡ done s'
      → AtMost 1 others
      → IsSmall api s2
      → IsCounted api (plus others (some a)) s2
      → IsCounted api others s'
  signal-IsCounted ev others a s2 s3 s' p q few small v =
      let (v3, n3) =
        fire-IsCounted api ev a (plus others (some a)) s2 s3 p (plus-AtMost 1 others a few) small
          v in
      let (h, same, drops) = release-IsCounted api a s3 s' q in
      subst (IsCounted api others) same (drops others s3.env v3)

  pub detached-IsCounted :
      (others : ℕ → ℕ) (a : ℕ) (c : Counted (Watch Raw)) (s : State api Adapter)
      → s.heap a ≡ some c
      → IsCounted api others s
      → IsCounted api others (record s { heap = update s.heap a (counted c.refcnt detached) })
  detached-IsCounted others a c s here v = record {
    counts = elim (v.counts a).1 [
      | inl (z, gone) ↦ absurd (cc (gone, here))
      | inr (pos, w, same) ↦
          let count : pointers api others s a ≡ c.refcnt = cc (same, here) in
          Held-counted (pointers api others s) a c.refcnt detached s.heap count
            (omega (arith, pos, count)) (omega (arith, (v.counts a).0, count)) (λ b p. v.counts b)
    ];
    fresh = v.fresh;
    outside = v.outside;
  }

  pub toggled-IsCounted :
      (others : ℕ → ℕ) (r : Raw) (s s' : State api Adapter)
      → toggled api (fire api) (some r) s ≡ done s'
      → AtMost 1 others
      → IsSmall api s
      → IsCounted api others s
      → IsCounted api others s'
  toggled-IsCounted others r s s' e few small v =
      let (a, s1, s2, g, p1, p2, p3) = toggled-parts api (fire api) r s s' e in
      let (pos, h, same, v1) =
        add_ref-IsCounted api others a s s1 p1
          (pointers-small api others s a (λ b. omega (arith, few b)) small) v in
      let p2' = subst (λ (x : State api Adapter). fire api a on_change x ≡ done s2) (sym same) p2 in
      signal-IsCounted on_change others a (record s { heap = h }) s2 s' p2' p3 few small v1

  pub removed-IsCounted :
      (others : ℕ → ℕ) (r : Raw) (s s' : State api Adapter)
      → removed api (fire api) (some r) s ≡ done s'
      → AtMost 1 others
      → IsSmall api s
      → IsCounted api others s
      → IsCounted api others s'
  removed-IsCounted others r s s' e few small v =
      let (a, c, s1, s2, g, p1, here, p2, p3) = removed-parts api (fire api) r s s' e in
      let (pos, h, same, v1) =
        add_ref-IsCounted api others a s s1 p1
          (pointers-small api others s a (λ b. omega (arith, few b)) small) v in
      let v2 =
        detached-IsCounted (plus others (some a)) a c s1 here
          (subst (IsCounted api (plus others (some a))) same v1) in
      let small1 = subst (IsSmall api) same small in
      signal-IsCounted on_remove others a _ s2 s' p2 p3 few small1 v2

  pub run_posted-IsCounted :
      (others : ℕ → ℕ) (s s' : State api Adapter)
      → run_posted api s ≡ done s'
      → AtMost 1 others
      → IsSmall api s
      → IsCounted api others s
      → IsCounted api others s'
  unfolding run_posted
  run_posted-IsCounted others s s' e few small v = go s.env.posted refl
    where
      go : (xs : List ℕ) → s.env.posted ≡ xs → IsCounted api others s'
      go [] p = let same : s ≡ s' = ground (arith, p, e) in subst (IsCounted api others) same v
      go (c ∷ cs) p =
          let t : State api Adapter = record s { env = record (s.env) { posted = cs } } in
          let v' : IsCounted api others t = record {
            counts = v.counts;
            fresh = v.fresh;
            outside = v.outside;
          } in
          (on_watch_change-IsCounted api others c t s' (ground (arith, p, e))
            (λ b. omega (arith, few b)) small v').0

  pub is_ready-IsCounted :
      (others : ℕ → ℕ) (a : ℕ) (e : IoEvents) (s s' : State api Adapter)
      → on_io_ready api a e s ≡ done s'
      → IsCounted api others s
      → IsCounted api others s'
  unfolding on_io_ready
  is_ready-IsCounted others a e s s' p v =
      let ((ok, s1), p1, q1) = >>=-eq-done (handle api a _ s) _ p in
      let only : record s { world = s1.world } ≡ s1 = handle-world api a _ s ok s1 p1 in
      subst (IsCounted api others) (only ∙ cc (q1)) (world-IsCounted others s s1.world v)

  pub unref-IsCounted :
      (others : ℕ → ℕ) (a : ℕ) (s s' : State api Adapter)
      → unref api (some a) s ≡ done s'
      → IsCounted api (plus others (some a)) s
      → IsCounted api others s'
  unref-IsCounted others a s s' e v =
      let (h, same, drops) = release-IsCounted api a s s' (sym (unref-release api a s) ∙ e) in
      subst (IsCounted api others) same (drops others s.env v)
