-- ===== src/Adapter/Own/Callbacks.antt =====
-- src/watch.cc, src/tscb-adapter.cc: libdbus can toggle and remove a watch that it has.
use dbuscc.Base.{
  ℕ, ◌+◌, ◌*◌, ◌<◌, ◌≡◌, refl, inl, inr, true, Option, some, ◌==◌, List, [], ◌∷◌, contains, done,
  subst, sym, ap, ◌∙◌, arith, Bool-cases,
}
use dbuscc.Pointer.{Store, int_mod}
use dbuscc.Watch.{WatchApi, Watch, State, on_change, add_ref, toggled, removed}
use dbuscc.Watch.Removal.{counted, linked_to}
use dbuscc.Watch.Invariant.{AllLinked, add_ref-AllLinked}
use dbuscc.Watch.Frame.{add_ref-alive, release-alive, toggled-runs}
use dbuscc.Adapter.{IoConnection, Adapter, on_watch_change, call_slots, fire}
use dbuscc.Adapter.Removal.{cleared_ctx}
use dbuscc.Adapter.Sync.{ctx_of, put}
use dbuscc.Adapter.Sync.Change.{on_watch_change-IsChanged}
use dbuscc.Adapter.Own.{points, plus, pointers, IsCounted}
use dbuscc.Adapter.Own.Calls.{add_ref-IsCounted}
use dbuscc.Adapter.Own.Slots.{
  AtMost, IsSmall, plus-AtMost, pointers-small, on_watch_change-IsCounted, fire-IsCounted,
}
use dbuscc.Adapter.Own.Linked.{on_watch_change-AllLinked}
use dbuscc.Adapter.Own.Reach.{Run, begin, after, Run-IsCounted}
use dbuscc.Adapter.Own.Progress.{alive, change_returns, Run-AllLinked}
use dbuscc.Adapter.Own.Removed.{present, removed_returns}
use dbuscc.Adapter.Own.Tied.{IsTied}
use dbuscc.Adapter.Own.Tied.Steps.{Call-IsTied}

module _ (api : WatchApi) where
  Run-IsTied :
      {w : api.World} {others : ℕ → ℕ} {s : State api Adapter} → Run api w others s → IsTied api s
  Run-IsTied begin = record {
    below = λ c a m. absurd (cc (m));
    apart = λ c a b m k. absurd (cc (m));
    address = λ c a m. absurd (cc (m));
    fresh = λ b r (n, e). absurd (cc (e));
    tied = λ b c r (n, e) m. absurd (cc (e));
  }
  Run-IsTied (after run call) = Call-IsTied api call (Run-IsTied run)

  abbrev HasWatch : State api Adapter → ℕ → Type 0
  HasWatch s c = (a : ℕ) × (conn : Option IoConnection) × (s.env.contexts c ≡ some (ctx_of a conn))

  put-HasWatch :
      (s : State api Adapter) (h : Store (Watch api.Raw)) (c a : ℕ) (conn : Option IoConnection)
      (k : ℕ)
      → HasWatch s k
      → HasWatch (put api s h c (ctx_of a conn)) k
  put-HasWatch s h c a conn k (b, old, e) = elim (Bool-cases (k == c)) [
    | inl p ↦ (a, conn, ground (arith, p))
    | inr p ↦ (b, old, ground (arith, p, e))
  ]

  on_watch_change-HasWatch :
      (c k : ℕ) (s s' : State api Adapter)
      → on_watch_change api c s ≡ done s'
      → HasWatch s k
      → HasWatch s' k
  on_watch_change-HasWatch c k s s' p has =
      let (b, old, new, h, same, ch) = on_watch_change-IsChanged api c s s' p in
      subst (λ (y : State api Adapter). HasWatch y k) same (put-HasWatch s h c b new k has)

  changes-return :
      (cs : List ℕ) (others : ℕ → ℕ) (s : State api Adapter)
      → AtMost 2 others
      → IsSmall api s
      → IsCounted api others s
      → AllLinked api s
      → ((c : ℕ) → contains c cs ≡ true → HasWatch s c)
      → (s' : State api Adapter) × (call_slots api on_change cs s ≡ done s')
  unfolding call_slots
  changes-return [] others s few small v l has = (s, refl)
  changes-return (c ∷ cs) others s few small v l has =
      let (a, conn, here) = has c (ground arith) in
      let one : points (some a) a ≡ 1 = ground arith in
      let (x, there) = alive api others s c a (ctx_of a conn) v here (omega (arith, one)) in
      let (s1, p) = change_returns api c a conn s x here there l in
      let (v1, n) = on_watch_change-IsCounted api others c s s1 p few small v in
      let (s', q) =
        changes-return cs others s1 few (omega (arith, small, n)) v1
          (on_watch_change-AllLinked api c s s1 p l)
          (λ k m. on_watch_change-HasWatch c k s s1 p (has k (ground (arith, m)))) in
      (s', rw p q)

  toggled_returns :
      (w : api.World) (others : ℕ → ℕ) (s : State api Adapter) (r : api.Raw) (a n : ℕ)
      → Run api w others s
      → 2 * s.env.next + 4 < int_mod
      → api.get_data s.world r ≡ some a
      → s.heap a ≡ counted n (linked_to r)
      → (s' : State api Adapter) × (toggled api (fire api) (some r) s ≡ done s')
  unfolding fire
  toggled_returns w others s r a n run small data_is here =
      let (few, v) = Run-IsCounted api w others s run small in
      let ties = Run-IsTied run in
      let (s1, p1) = add_ref-alive api a s (record { refcnt = n; self = linked_to r }) here in
      let (pos, h, same, v1) =
        add_ref-IsCounted api others a s s1 p1
          (pointers-small api others s a (λ b. omega (arith, few b)) small) v in
      let t : State api Adapter = record s { heap = h } in
      let p1' : add_ref api a s ≡ done t = p1 ∙ ap (λ (y : State api Adapter). done y) (sym same) in
      let few' = plus-AtMost 1 others a few in
      let (s2, q) =
        changes-return (s.env.slots_of a) (plus others (some a)) t few' small v1
          (add_ref-AllLinked api a s t p1' (Run-AllLinked api run))
          λ c m. let (conn, e) = ties.tied a c r (n, here) m in (a, conn, e) in
      let (v2, n2) = fire-IsCounted api on_change a (plus others (some a)) t s2 q few' small v1 in
      let one : points (some a) a ≡ 1 = ground arith in
      let (c2, here2) =
        present api (pointers api (plus others (some a)) s2 a) a s2.heap (v2.counts a)
          (omega (arith, one)) in
      let (s', p2) = release-alive api a s2 c2 here2 in
      (s', toggled-runs api (fire api) r a s t s2 s' data_is p1' q p2)

  -- After any calls of libdbus and of the reactor on a connection that started without watches,
  -- with fewer than 2 ^ 31 - 2 contexts, when libdbus toggles or removes a watch whose object is
  -- alive and was not removed before: both callbacks return, and after a removal every context of
  -- the watch has let go of it and of its connection to the reactor.
  pub callbacks_return :
      (w : api.World) (others : ℕ → ℕ) (s : State api Adapter) (r : api.Raw) (a n : ℕ)
      → Run api w others s
      → 2 * s.env.next + 4 < int_mod
      → api.get_data s.world r ≡ some a
      → s.heap a ≡ counted n (linked_to r)
      → ((s' : State api Adapter) × (toggled api (fire api) (some r) s ≡ done s'))
        × ((s' : State api Adapter) × (removed api (fire api) (some r) s ≡ done s')
            × ((c : ℕ)
                → contains c (s.env.slots_of a) ≡ true
                → s'.env.contexts c ≡ some cleared_ctx))
  callbacks_return w others s r a n run small data_is here = (
    toggled_returns w others s r a n run small data_is here,
    removed_returns api w others s r a (record { refcnt = n; self = linked_to r }) run small data_is
        here,
  )
