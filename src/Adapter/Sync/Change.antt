-- ===== src/Adapter/Sync/Change.antt =====
-- src/tscb-adapter.cc: on_watch_change brings one context up to date and leaves the others alone.
use dbuscc.Base.{
  ℕ, ℤ, ◌≡◌, inl, inr, refl, Bool, Option, none, some, done, ◌>>=◌, >>=-eq-done, arith,
  Option-cases, ap, ◌∙◌, subst, if◌then◌else◌,
}
use dbuscc.Pointer.{Store}
use dbuscc.Watch.{WatchApi, Watch, State, enabled, flags, fd, add_ref}
use dbuscc.Watch.Values.{enabled-linked, fd-linked}
use dbuscc.Watch.Frame.{Keeps, add_ref-Keeps}
use dbuscc.Adapter.{IoEvents, IoConnection, Adapter, ioready_none, events_of, on_watch_change}
use dbuscc.Adapter.Io.{change_events}
use dbuscc.Adapter.Sync.{ctx_of, Linked, IsWanted, put}

module _ (api : WatchApi) where
  open api use {Raw, World}

  -- The two descriptions of the events, and the state after on_watch_change of the context `c`.
  pub record IsChanged (c a : ℕ) (conn conn' : Option IoConnection) (h : Store (Watch Raw))
      (s : State api Adapter) : Type 0 where
    pub before : s.env.contexts c ≡ some (ctx_of a conn)
    pub keeps : Keeps s.heap h
    pub now :
        (r : Raw)
        → Linked api s.heap a r
        → (ev : IoEvents) × (conn'
            ≡ some (elim conn [
              | none ↦ record { fd = api.get_unix_fd s.world r; events = ev; target = a }
              | some io ↦ record io { events = ev }
            ]))
          × IsWanted api s.world r ev

  events-IsWanted :
      (a : ℕ) (s : State api Adapter) (en : Bool) (ev : IoEvents)
      → enabled api a s ≡ done en
      → (if en then (do fl ← flags api a s; done (events_of fl)) else done ioready_none) ≡ done ev
      → (r : Raw) → Linked api s.heap a r
      → IsWanted api s.world r ev
  events-IsWanted a s en ev p q r (n, live) =
      let (ev', p', (i, o, x, h)) = change_events api a n r s live in
      let same_en : en ≡ api.get_enabled s.world r = cc (p, enabled-linked api a n s r live) in
      let same : ev' ≡ ev = cc (p', q, same_en) in
      subst (IsWanted api s.world r) same (record { input = i; output = o; error = x; hangup = h })

  set_conn :
      (c a : ℕ) (conn : Option IoConnection) (ev : IoEvents) (s s' : State api Adapter)
      → s.env.contexts c ≡ some (ctx_of a conn)
      → ((r : Raw) → Linked api s.heap a r → IsWanted api s.world r ev)
      → (elim conn [
        | some io ↦ done (put api s s.heap c (ctx_of a (some (record io { events = ev }))))
        | none ↦ (do
          f ← fd api a s
          s1 ← add_ref api a s
          done
              (put api s1 s1.heap c (ctx_of a (some (record { fd = f; events = ev; target = a })))))
      ])
        ≡ done s'
      → (conn' : Option IoConnection) × (h : Store (Watch Raw)) × (put api s h c (ctx_of a conn')
          ≡ s')
        × IsChanged c a conn conn' h s
  set_conn c a (some io) ev s s' b w e = (
    some (record io { events = ev }),
    s.heap,
    cc (e),
    record { before = b; keeps = λ x r n p. (n, p); now = λ r l. (ev, refl, w r l) },
  )
  set_conn c a none ev s s' b w e =
      let (f, p, q) = >>=-eq-done (fd api a s) _ e in
      let (s1, p1, q1) = >>=-eq-done (add_ref api a s) _ q in
      let (h, same, k) = add_ref-Keeps api a s s1 p1 in
      let io : IoConnection = record { fd = f; events = ev; target = a } in
      (
        some io,
        h,
        ap (λ (x : State api Adapter). put api x x.heap c (ctx_of a (some io))) same ∙ cc (q1),
        record {
          before = b;
          keeps = k;
          now = λ r (n, l).
              let same_fd : f ≡ api.get_unix_fd s.world r = cc (p, fd-linked api a n s r l) in
              (
                ev,
                ap (λ (x : ℤ). some (record { fd = x; events = ev; target = a })) same_fd,
                w r (n, l),
              );
        },
      )

  pub on_watch_change-IsChanged :
      (c : ℕ) (s s' : State api Adapter)
      → on_watch_change api c s ≡ done s'
      → (a : ℕ) × (conn conn' : Option IoConnection) × (h : Store (Watch Raw)) × (put api s h c
            (ctx_of a conn')
          ≡ s')
        × IsChanged c a conn conn' h s
  unfolding on_watch_change
  on_watch_change-IsChanged c s s' e = elim (Option-cases (s.env.contexts c)) [
    | inl gone ↦ absurd (ground (arith, gone, e))
    | inr (ctx, p) ↦ elim (Option-cases ctx.watch) [
      | inl gone ↦ absurd (ground (arith, p, gone, e))
      | inr (a, pw) ↦
          let before : s.env.contexts c ≡ some (ctx_of a ctx.conn) =
            p ∙ ap (λ (w : Option ℕ). some (record { watch = w; conn = ctx.conn })) pw in
          let (en, p2, q2) = >>=-eq-done (enabled api a s) _ (rw before at e) in
          let (ev, p3, q3) =
            >>=-eq-done
              (if en then (do fl ← flags api a s; done (events_of fl)) else done ioready_none) _
              q2 in
          let (conn', h, same, v) =
            set_conn c a ctx.conn ev s s' before (events-IsWanted a s en ev p2 p3) q3 in
          (a, ctx.conn, conn', h, same, v)
    ]
  ]
