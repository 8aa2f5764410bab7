-- ===== src/Adapter/Own/Removed.antt =====
-- src/watch.cc, src/tscb-adapter.cc: libdbus can remove any watch that is alive.
use dbuscc.Base.{
  ℕ, ◌+◌, ◌*◌, ◌<◌, ◌≡◌, ◌⊎◌, refl, inl, inr, true, Option, none, some, ◌==◌, List, [], ◌∷◌,
  contains, update, update-same, done, sym, ap, ◌∙◌, arith, Bool-cases,
}
use dbuscc.Pointer.{Store, Counted, int_mod}
use dbuscc.Watch.{WatchApi, Watch, State, on_remove, add_ref, removed}
use dbuscc.Watch.Removal.{counted, detached}
use dbuscc.Watch.Frame.{add_ref-alive, release-alive, release-parts, removed-runs}
use dbuscc.Adapter.{
  IoConnection, IoCtx, Adapter, on_watch_remove, drop_conn, drop_watch, call_slots, fire,
}
use dbuscc.Adapter.Removal.{cleared_ctx}
use dbuscc.Adapter.Sync.Remove.{on_watch_remove-cleared}
use dbuscc.Adapter.Own.{Held, points, target_of, plus, pointers, IsCounted}
use dbuscc.Adapter.Own.Calls.{add_ref-IsCounted}
use dbuscc.Adapter.Own.Slots.{
  plus-AtMost, pointers-small, with_ctx, idle-IsCounted, on_watch_remove-IsCounted, fire-IsCounted,
}
use dbuscc.Adapter.Own.Counts.{detached-IsCounted}
use dbuscc.Adapter.Own.Reach.{Run, Run-IsCounted}
use dbuscc.Adapter.Own.Progress.{alive, Run-IsShaped}

module _ (api : WatchApi) where
  pub present :
      (n a : ℕ) (h : Store (Watch api.Raw))
      → Held n h a
      → 0 < n
      → (x : Counted (Watch api.Raw)) × (h a ≡ some x)
  present n a h v pos = elim v.1 [
    | inl (z, gone) ↦ absurd (omega (arith, z, pos))
    | inr (pos', w, there) ↦ (record { refcnt = n; self = w }, there)
  ]

  drop_conn-returns :
      (others : ℕ → ℕ) (c : ℕ) (ctx : IoCtx) (s : State api Adapter) (conn : Option IoConnection)
      → IsCounted api others s
      → s.env.contexts c ≡ some ctx
      → ctx.conn ≡ conn
      → (s' : State api Adapter) × (drop_conn api conn s ≡ done s')
  unfolding drop_conn
  drop_conn-returns others c ctx s none v here has = (s, refl)
  drop_conn-returns others c ctx s (some io) v here has =
      let one : points (some io.target) io.target ≡ 1 = ground arith in
      let held : points (target_of ctx.conn) io.target ≡ points (some io.target) io.target =
        ap (λ (k : Option IoConnection). points (target_of k) io.target) has in
      let (x, there) = alive api others s c io.target ctx v here (omega (arith, one, held)) in
      release-alive api io.target s x there

  drop_watch-returns :
      (others : ℕ → ℕ) (c : ℕ) (ctx : IoCtx) (s : State api Adapter) (watch : Option ℕ)
      → IsCounted api others s
      → s.env.contexts c ≡ some ctx
      → ctx.watch ≡ watch
      → (s' : State api Adapter) × (drop_watch api watch s ≡ done s')
  unfolding drop_watch
  drop_watch-returns others c ctx s none v here has = (s, refl)
  drop_watch-returns others c ctx s (some a) v here has =
      let one : points (some a) a ≡ 1 = ground arith in
      let held : points ctx.watch a ≡ points (some a) a = ap (λ (k : Option ℕ). points k a) has in
      let (x, there) = alive api others s c a ctx v here (omega (arith, one, held)) in
      release-alive api a s x there

  on_watch_remove-returns :
      (others : ℕ → ℕ) (c : ℕ) (ctx : IoCtx) (s : State api Adapter)
      → IsCounted api others s
      → s.env.contexts c ≡ some ctx
      → (s' : State api Adapter) × (on_watch_remove api c s ≡ done s')
  unfolding on_watch_remove
  on_watch_remove-returns others c ctx s v here =
      let (s1, p1) = drop_conn-returns others c ctx s ctx.conn v here refl in
      let (v2, n) = idle-IsCounted api others c ctx s s1 here p1 v in
      let idle : IoCtx = record ctx { conn = none } in
      let s2 = with_ctx api s1 c idle in
      let (s3, p3) =
        drop_watch-returns others c idle s2 ctx.watch v2 (update-same c s1.env.contexts) refl in
      (with_ctx api s3 c cleared_ctx, rw here (rw p1 (rw p3 refl)))

  -- The contexts that the slots are bound to are there, or were cleared already.
  removes-return :
      (cs : List ℕ) (others : ℕ → ℕ) (s : State api Adapter)
      → IsCounted api others s
      → ((c : ℕ) → contains c cs ≡ true → (ctx : IoCtx) × (s.env.contexts c ≡ some ctx))
      → (s' : State api Adapter) × (call_slots api on_remove cs s ≡ done s')
        × ((c : ℕ)
            → (contains c cs ≡ true) ⊎ (s.env.contexts c ≡ some cleared_ctx)
            → s'.env.contexts c ≡ some cleared_ctx)
  unfolding call_slots
  removes-return [] others s v there =
      (s, refl, λ c k. elim k [ inl m ↦ absurd (cc (m)) | inr e ↦ e ])
  removes-return (c ∷ cs) others s v there =
      let (ctx, here) = there c (ground arith) in
      let (s1, p) = on_watch_remove-returns others c ctx s v here in
      let (h, same, keeps) = on_watch_remove-cleared api c s s1 p in
      let now : (k : ℕ) → s1.env.contexts k ≡ update s.env.contexts c (some cleared_ctx) k =
        λ k. ap (λ (x : State api Adapter). x.env.contexts k) (sym same) in
      let (v1, n) = on_watch_remove-IsCounted api others c s s1 p v in
      let (s', q, all) = removes-return cs others s1 v1 λ k m. elim (Bool-cases (k == c)) [
        | inl e ↦ (cleared_ctx, ground (arith, now k, e))
        | inr e ↦ let (x, old) = there k (ground (arith, m)) in (x, ground (arith, now k, e, old))
      ] in
      (
        s',
        rw p q,
        λ k m. all k (elim (Bool-cases (k == c)) [
          | inl e ↦ inr (ground (arith, now k, e))
          | inr e ↦ elim m [
            | inl i ↦ inl (ground (arith, i, e))
            | inr old ↦ inr (ground (arith, now k, e, old))
          ]
        ]),
      )

  -- When libdbus removes a watch whose object is alive, in such a state, the callback returns, and
  -- every context of the watch has let go of it and of its connection to the reactor.
  pub removed_returns :
      (w : api.World) (others : ℕ → ℕ) (s : State api Adapter) (r : api.Raw) (a : ℕ)
      (x : Counted (Watch api.Raw))
      → Run api w others s
      → 2 * s.env.next + 4 < int_mod
      → api.get_data s.world r ≡ some a
      → s.heap a ≡ some x
      → (s' : State api Adapter) × (removed api (fire api) (some r) s ≡ done s')
        × ((c : ℕ) → contains c (s.env.slots_of a) ≡ true → s'.env.contexts c ≡ some cleared_ctx)
  unfolding fire
  removed_returns w others s r a x run small data_is here =
      let (few, v) = Run-IsCounted api w others s run small in
      let shaped = Run-IsShaped api run in
      let (s1, p1) = add_ref-alive api a s x here in
      let (pos, h, same, v1) =
        add_ref-IsCounted api others a s s1 p1
          (pointers-small api others s a (λ b. omega (arith, few b)) small) v in
      let t : State api Adapter = record s { heap = h } in
      let one : points (some a) a ≡ 1 = ground arith in
      let (c1, here1) =
        present (pointers api (plus others (some a)) t a) a t.heap (v1.counts a)
          (omega (arith, one)) in
      let t2 : State api Adapter = record t {
        heap = update t.heap a (counted c1.refcnt detached);
      } in
      let v2 = detached-IsCounted api (plus others (some a)) a c1 t here1 v1 in
      let (s2, q, all) =
        removes-return (s.env.slots_of a) (plus others (some a)) t2 v2 λ c m. shaped.slots c a m in
      let (v3, n3) =
        fire-IsCounted api on_remove a (plus others (some a)) t2 s2 q (plus-AtMost 1 others a few)
          small v2 in
      let (c3, here3) =
        present (pointers api (plus others (some a)) s2 a) a s2.heap (v3.counts a)
          (omega (arith, one)) in
      let (s', p3) = release-alive api a s2 c3 here3 in
      let (h', p', same') = release-parts api a s2 s' p3 in
      let p1' : add_ref api a s ≡ done t = p1 ∙ ap (λ (y : State api Adapter). done y) (sym same) in
      (
        s',
        removed-runs api (fire api) r a c1 s t s2 s' data_is p1' here1 q p3,
        λ c m. ap (λ (y : State api Adapter). y.env.contexts c) (sym same') ∙ all c (inl m),
      )
