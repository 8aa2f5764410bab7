-- ===== src/Adapter/Own/Linked.antt =====
-- src/tscb-adapter.cc: the functions of the adapter leave the raw pointers of the watches alone.
use dbuscc.Base.{
  ℕ, ◌≡◌, refl, inl, inr, Option, none, some, if◌then◌else◌, List, [], ◌∷◌, update, done, ◌>>=◌,
  deref, >>=-eq-done, sym, ap, ◌∙◌, arith, Option-cases, subst,
}
use dbuscc.Pointer.Count.{AllSelf}
use dbuscc.Watch.{
  WatchApi, State, WatchEvent, on_change, on_remove, add_ref, create, handle, enabled, flags, fd,
}
use dbuscc.Watch.Values.{unref-release}
use dbuscc.Watch.Invariant.{
  IsLinked, AllLinked, add_ref-AllLinked, release-AllLinked, create-AllLinked, handle-heap,
  toggled-AllLinked, removed-AllLinked,
}
use dbuscc.Connection.Sources.{add_watch}
use dbuscc.Adapter.{
  IoEvents, IoConnection, Adapter, ioready_none, events_of, on_watch_add, on_watch_change,
  on_watch_remove, drop_conn, drop_watch, on_io_ready, call_slots, fire, run_posted,
}
use dbuscc.Adapter.Own.Slots.{with_conn}
use dbuscc.Adapter.Own.Step.{Call, changes, adds, toggles, removes, frees, runs, is_ready}

module _ (api : WatchApi) where
  on_watch_add-AllLinked :
      (a : ℕ) (s s' : State api Adapter)
      → on_watch_add api a s ≡ done s'
      → AllLinked api s
      → AllLinked api s'
  unfolding on_watch_add
  on_watch_add-AllLinked a s s' e v =
      let (s1, p, q) = >>=-eq-done (add_ref api a s) _ e in
      let same : s1.heap ≡ s'.heap = cc (q) in
      subst (AllSelf IsLinked) same (add_ref-AllLinked api a s s1 p v)

  set_conn-AllLinked :
      (c a : ℕ) (conn : Option IoConnection) (ev : IoEvents) (s s' : State api Adapter)
      → (elim conn [
        | some io ↦ done (with_conn api s c a (record io { events = ev }))
        | none ↦ (do
          f ← fd api a s
          s1 ← add_ref api a s
          done (with_conn api s1 c a (record { fd = f; events = ev; target = a })))
      ])
        ≡ done s'
      → AllLinked api s
      → AllLinked api s'
  set_conn-AllLinked c a (some io) ev s s' e v =
      let same : s.heap ≡ s'.heap = cc (e) in subst (AllSelf IsLinked) same v
  set_conn-AllLinked c a none ev s s' e v =
      let (f, p, q) = >>=-eq-done (fd api a s) _ e in
      let (s1, p1, q1) = >>=-eq-done (add_ref api a s) _ q in
      let same : s1.heap ≡ s'.heap = cc (q1) in
      subst (AllSelf IsLinked) same (add_ref-AllLinked api a s s1 p1 v)

  pub on_watch_change-AllLinked :
      (c : ℕ) (s s' : State api Adapter)
      → on_watch_change api c s ≡ done s'
      → AllLinked api s
      → AllLinked api s'
  unfolding on_watch_change
  on_watch_change-AllLinked c s s' e v = elim (Option-cases (s.env.contexts c)) [
    | inl gone ↦ absurd (ground (arith, gone, e))
    | inr (ctx, p) ↦ elim (Option-cases ctx.watch) [
      | inl gone ↦ absurd (ground (arith, p, gone, e))
      | inr (a, pw) ↦
          let here : s.env.contexts c ≡ some (record { watch = some a; conn = ctx.conn }) =
            p ∙ ap (λ (w : Option ℕ). some (record { watch = w; conn = ctx.conn })) pw in
          let (en, p2, q2) = >>=-eq-done (enabled api a s) _ (rw here at e) in
          let (ev, p3, q3) =
            >>=-eq-done
              (if en then (do fl ← flags api a s; done (events_of fl)) else done ioready_none) _
              q2 in
          set_conn-AllLinked c a ctx.conn ev s s' q3 v
    ]
  ]

  drop_conn-AllLinked :
      (conn : Option IoConnection) (s s' : State api Adapter)
      → drop_conn api conn s ≡ done s'
      → AllLinked api s
      → AllLinked api s'
  unfolding drop_conn
  drop_conn-AllLinked none s s' e v = let same : s ≡ s' = cc (e) in subst (AllLinked api) same v
  drop_conn-AllLinked (some io) s s' e v = release-AllLinked api io.target s s' e v

  drop_watch-AllLinked :
      (watch : Option ℕ) (s s' : State api Adapter)
      → drop_watch api watch s ≡ done s'
      → AllLinked api s
      → AllLinked api s'
  unfolding drop_watch
  drop_watch-AllLinked none s s' e v = let same : s ≡ s' = cc (e) in subst (AllLinked api) same v
  drop_watch-AllLinked (some a) s s' e v = release-AllLinked api a s s' e v

  on_watch_remove-AllLinked :
      (c : ℕ) (s s' : State api Adapter)
      → on_watch_remove api c s ≡ done s'
      → AllLinked api s
      → AllLinked api s'
  unfolding on_watch_remove
  on_watch_remove-AllLinked c s s' e v =
      let (ctx, p, q) = >>=-eq-done (deref (s.env.contexts c)) _ e in
      let (s1, p1, q1) = >>=-eq-done (drop_conn api ctx.conn s) _ q in
      let v1 = drop_conn-AllLinked ctx.conn s s1 p1 v in
      let s2 : State api Adapter = record s1 {
        env = record (s1.env) {
          contexts = update s1.env.contexts c (some (record ctx { conn = none }));
        };
      } in
      let (s3, p3, q3) = >>=-eq-done (drop_watch api ctx.watch s2) _ q1 in
      let same : s3.heap ≡ s'.heap = cc (q3) in
      subst (AllSelf IsLinked) same (drop_watch-AllLinked ctx.watch s2 s3 p3 v1)

  call_slots-AllLinked :
      (ev : WatchEvent) (cs : List ℕ) (s s' : State api Adapter)
      → call_slots api ev cs s ≡ done s'
      → AllLinked api s
      → AllLinked api s'
  unfolding call_slots
  call_slots-AllLinked on_change [] s s' e v =
      let same : s ≡ s' = cc (e) in subst (AllLinked api) same v
  call_slots-AllLinked on_remove [] s s' e v =
      let same : s ≡ s' = cc (e) in subst (AllLinked api) same v
  call_slots-AllLinked on_change (c ∷ cs) s s' e v =
      let (s1, p, q) = >>=-eq-done (on_watch_change api c s) _ e in
      call_slots-AllLinked on_change cs s1 s' q (on_watch_change-AllLinked c s s1 p v)
  call_slots-AllLinked on_remove (c ∷ cs) s s' e v =
      let (s1, p, q) = >>=-eq-done (on_watch_remove api c s) _ e in
      call_slots-AllLinked on_remove cs s1 s' q (on_watch_remove-AllLinked c s s1 p v)

  fire-AllLinked :
      (a : ℕ) (ev : WatchEvent) (s s' : State api Adapter)
      → fire api a ev s ≡ done s'
      → AllLinked api s
      → AllLinked api s'
  unfolding fire
  fire-AllLinked a ev s s' e v = call_slots-AllLinked ev (s.env.slots_of a) s s' e v

  run_posted-AllLinked :
      (s s' : State api Adapter) → run_posted api s ≡ done s' → AllLinked api s → AllLinked api s'
  unfolding run_posted
  run_posted-AllLinked s s' e v = go s.env.posted refl
    where
      go : (xs : List ℕ) → s.env.posted ≡ xs → AllLinked api s'
      go [] p = let same : s ≡ s' = ground (arith, p, e) in subst (AllLinked api) same v
      go (c ∷ cs) p =
          let t : State api Adapter = record s { env = record (s.env) { posted = cs } } in
          on_watch_change-AllLinked c t s' (ground (arith, p, e)) v

  add_watch-AllLinked :
      (r : api.Raw) (s s' : State api Adapter)
      → add_watch api (on_watch_add api) (some r) s ≡ done s'
      → AllLinked api s
      → AllLinked api s'
  unfolding add_watch
  add_watch-AllLinked r s s' e v =
      let ((a, s1), p1, q1) = >>=-eq-done (create api (some r) s) _ e in
      let (s2, p2, q2) = >>=-eq-done (on_watch_add api a s1) _ q1 in
      release-AllLinked api a s2 s' q2
        (on_watch_add-AllLinked a s1 s2 p2 (create-AllLinked api (some r) s a s1 p1 v))

  is_ready-AllLinked :
      (a : ℕ) (e : IoEvents) (s s' : State api Adapter)
      → on_io_ready api a e s ≡ done s'
      → AllLinked api s
      → AllLinked api s'
  unfolding on_io_ready
  is_ready-AllLinked a e s s' p v =
      let ((ok, s1), p1, q1) = >>=-eq-done (handle api a _ s) _ p in
      let last : s1.heap ≡ s'.heap = cc (q1) in
      subst (AllSelf IsLinked) (sym (handle-heap api a _ s ok s1 p1) ∙ last) v

  pub Call-AllLinked :
      {others : ℕ → ℕ} {s : State api Adapter} {others' : ℕ → ℕ} {s' : State api Adapter}
      → Call api others s others' s'
      → AllLinked api s
      → AllLinked api s'
  Call-AllLinked (changes w) v = v
  Call-AllLinked {s = s} {s' = s'} (adds r e) v = add_watch-AllLinked r s s' e v
  Call-AllLinked {s = s} {s' = s'} (toggles r e) v =
      toggled-AllLinked api (fire api) fire-AllLinked (some r) s s' e v
  Call-AllLinked {s = s} {s' = s'} (removes r e) v =
      removed-AllLinked api (fire api) fire-AllLinked (some r) s s' e v
  Call-AllLinked {s = s} {s' = s'} (frees a same e) v =
      release-AllLinked api a s s' (sym (unref-release api a s) ∙ e) v
  Call-AllLinked {s = s} {s' = s'} (runs e) v = run_posted-AllLinked s s' e v
  Call-AllLinked {s = s} {s' = s'} (is_ready a ev e) v = is_ready-AllLinked a ev s s' e v
