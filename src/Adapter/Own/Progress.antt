-- ===== src/Adapter/Own/Progress.antt =====
-- src/tscb-adapter.cc: when a function that was posted fails.
use dbuscc.Base.{
  ℕ, suc, zero, ◌+◌, ◌*◌, ◌≤◌, ◌<◌, ◌≡◌, ◌⊎◌, refl, inl, inr, Option, some, ◌==◌, if◌then◌else◌,
  leb, List, ◌∷◌, done, fault, ◌>>=◌, ap, arith, Bool-cases, Option-cases,
}
use dbuscc.Pointer.{Counted, int_mod}
use dbuscc.Watch.{WatchApi, Watch, State, flags}
use dbuscc.Watch.Invariant.{AllLinked, accessors_return}
use dbuscc.Watch.Frame.{add_ref-alive}
use dbuscc.Adapter.{
  IoEvents, IoConnection, IoCtx, Adapter, ioready_none, events_of, on_watch_change, run_posted,
}
use dbuscc.Adapter.Removal.{cleared_ctx}
use dbuscc.Adapter.Sync.{ctx_of}
use dbuscc.Adapter.Own.{points, held_in, held_below, pointers, IsCounted}
use dbuscc.Adapter.Own.Slots.{with_conn}
use dbuscc.Adapter.Own.Reach.{Run, begin, after, Run-IsCounted}
use dbuscc.Adapter.Own.Linked.{Call-AllLinked}
use dbuscc.Adapter.Own.Shape.{IsShaped, Call-IsShaped}

held_below-member : (m : ℕ → Option IoCtx) (c n b : ℕ) → c < n → held_in (m c) b ≤ held_below m n b
held_below-member m c zero b l = absurd (omega (arith, l))
held_below-member m c (suc n) b l = elim (Bool-cases (c == n)) [
  | inl p ↦
      let same : c ≡ n = ground (arith, p) in
      let now : held_in (m c) b ≡ held_in (m n) b = ap (λ (k : ℕ). held_in (m k) b) same in
      omega (arith, now)
  | inr p ↦ let less : c < n = ground (arith, p, l) in omega (arith, held_below-member m c n b less)
]

module _ (api : WatchApi) where
  -- What a context points to is alive.
  pub alive :
      (others : ℕ → ℕ) (s : State api Adapter) (c a : ℕ) (ctx : IoCtx)
      → IsCounted api others s
      → s.env.contexts c ≡ some ctx
      → 0 < held_in (some ctx) a
      → (x : Counted (Watch api.Raw)) × (s.heap a ≡ some x)
  alive others s c a ctx v here holds =
      let inside : c < s.env.next = elim (Bool-cases (leb s.env.next c)) [
        | inl p ↦ let gone = v.outside c (ground (arith, p)) in absurd (cc (gone, here))
        | inr p ↦ ground (arith, p)
      ] in
      let own : held_in (s.env.contexts c) a ≡ held_in (some ctx) a =
        ap (λ (o : Option IoCtx). held_in o a) here in
      let some_pointer : 0 < pointers api others s a =
        omega (arith, holds, own, held_below-member s.env.contexts c s.env.next a inside) in
      elim (v.counts a).1 [
        | inl (z, gone) ↦ absurd (omega (arith, z, some_pointer))
        | inr (pos, w, there) ↦ (record { refcnt = pointers api others s a; self = w }, there)
      ]

  pub change_returns :
      (c a : ℕ) (conn : Option IoConnection) (s : State api Adapter) (x : Counted (Watch api.Raw))
      → s.env.contexts c ≡ some (ctx_of a conn)
      → s.heap a ≡ some x
      → AllLinked api s
      → (s' : State api Adapter) × (on_watch_change api c s ≡ done s')
  unfolding on_watch_change
  change_returns c a conn s x here there v =
      let ((f, pf), (en, pe), (fl, pl), h) = accessors_return api a s x v there in
      let (s1, p1) = add_ref-alive api a s x there in
      let (ev, pv) : (ev : IoEvents) × ((if en
              then (do k ← flags api a s; done (events_of k))
              else done ioready_none)
            ≡ done ev) =
        elim (Bool-cases en) [
          | inl on ↦ (events_of fl, rw on (rw pl refl))
          | inr off ↦ (ioready_none, rw off refl)
        ] in
      elim (Option-cases conn) [
        | inl fresh ↦ (
          with_conn api s1 c a (record { fd = f; events = ev; target = a }),
          rw here (rw pe (rw pv (rw fresh (rw pf (rw p1 refl))))),
        )
        | inr (io, old) ↦
            (with_conn api s c a (record io { events = ev }), rw here (rw pe (rw pv (rw old refl))))
      ]

  cleared_faults :
      (c : ℕ) (s : State api Adapter)
      → s.env.contexts c ≡ some cleared_ctx
      → on_watch_change api c s ≡ fault
  unfolding on_watch_change
  cleared_faults c s e = rw e refl

  pub Run-AllLinked :
      {w : api.World} {others : ℕ → ℕ} {s : State api Adapter}
      → Run api w others s
      → AllLinked api s
  Run-AllLinked begin = λ a c e. absurd (cc (e))
  Run-AllLinked (after run call) = Call-AllLinked api call (Run-AllLinked run)

  pub Run-IsShaped :
      {w : api.World} {others : ℕ → ℕ} {s : State api Adapter} → Run api w others s → IsShaped s.env
  Run-IsShaped begin = record {
    shape = λ c ctx e. absurd (cc (e));
    posted = λ c m. absurd (cc (m));
    slots = λ c a m. absurd (cc (m));
  }
  Run-IsShaped (after run call) = Call-IsShaped api call (Run-IsShaped run)

  -- After any calls of libdbus and of the reactor on a connection that started without watches,
  -- with fewer than 2 ^ 31 - 2 contexts: the first function that is posted returns, unless it is
  -- for a context whose watch was removed. Then it dereferences the null pointer of the context,
  -- so that this is the only way in which a posted function fails.
  pub posted_returns_or_removed :
      (w : api.World) (others : ℕ → ℕ) (s : State api Adapter) (c : ℕ) (cs : List ℕ)
      → Run api w others s
      → 2 * s.env.next + 4 < int_mod
      → s.env.posted ≡ c ∷ cs
      → ((s' : State api Adapter) × (run_posted api s ≡ done s'))
        ⊎ ((s.env.contexts c ≡ some cleared_ctx) × (run_posted api s ≡ fault))
  unfolding run_posted
  posted_returns_or_removed w others s c cs run small first =
      let (few, v) = Run-IsCounted api w others s run small in
      let shaped = Run-IsShaped run in
      let t : State api Adapter = record s { env = record (s.env) { posted = cs } } in
      let (ctx, here) = shaped.posted c (ground (arith, first)) in
      elim (shaped.shape c ctx here) [
        | inl cleared ↦
            let now : s.env.contexts c ≡ some cleared_ctx = ground (arith, here, cleared) in
            inr (now, rw first (cleared_faults c t now))
        | inr (a, conn, whole) ↦
            let now : s.env.contexts c ≡ some (ctx_of a conn) = ground (arith, here, whole) in
            let one : points (some a) a ≡ 1 = ground arith in
            let (x, there) = alive others s c a (ctx_of a conn) v now (omega (arith, one)) in
            let (s', p) = change_returns c a conn t x now there (Run-AllLinked run) in
            inl (s', rw first p)
      ]
