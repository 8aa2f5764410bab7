-- ===== src/Adapter/Own/Slots.antt =====
-- src/tscb-adapter.cc: on_watch_change, on_watch_remove and the slots of a watch keep the counts.
use dbuscc.Base.{
  ℕ, ◌+◌, ◌*◌, ◌≤◌, ◌<◌, ◌≡◌, refl, inl, inr, Option, none, some, update-same, ◌==◌, if◌then◌else◌,
  List, [], ◌∷◌, update, done, ◌>>=◌, >>=-eq-done, ap, ◌∙◌, arith, Bool-cases, Option-cases, subst,
}
use dbuscc.Pointer.{Store, int_mod}
use dbuscc.Watch.{
  WatchApi, Watch, State, WatchEvent, on_change, on_remove, add_ref, enabled, flags, fd,
}
use dbuscc.Adapter.{
  IoEvents, IoConnection, IoCtx, Adapter, ioready_none, events_of, on_watch_change, on_watch_remove,
  drop_conn, drop_watch, call_slots, fire,
}
use dbuscc.Adapter.Removal.{cleared_ctx}
use dbuscc.Adapter.Own.{target_of, plus, pointers, IsCounted}
use dbuscc.Adapter.Own.Sum.{held_below_le}
use dbuscc.Adapter.Own.Calls.{same-IsCounted, add_ref-IsCounted, release-IsCounted, move-IsCounted}

-- Others hold at most so many pointers to an object.
abbrev pub AtMost : ℕ → (ℕ → ℕ) → Type 0
AtMost k others = (a : ℕ) → others a ≤ k

pub plus-AtMost :
    (k : ℕ) (others : ℕ → ℕ) (a : ℕ) → AtMost k others → AtMost (k + 1) (plus others (some a))
plus-AtMost k others a f b = elim (Bool-cases (a == b)) [
  | inl p ↦ ground (arith, p, f b)
  | inr p ↦ ground (arith, p, f b)
]

module _ (api : WatchApi) where
  -- The contexts are too few for a count to wrap.
  abbrev pub IsSmall : State api Adapter → Type 0
  IsSmall s = 2 * s.env.next + 4 < int_mod

  pub pointers-small :
      (others : ℕ → ℕ) (s : State api Adapter) (a : ℕ)
      → AtMost 3 others
      → IsSmall s
      → pointers api others s a + 1 < int_mod
  pointers-small others s a few small =
      omega (arith, few a, small, held_below_le s.env.contexts s.env.next a)

  abbrev pub with_conn : State api Adapter → ℕ → ℕ → IoConnection → State api Adapter
  with_conn s c a io = record s {
    env = record (s.env) {
      contexts = update s.env.contexts c (some (record { watch = some a; conn = some io }));
    };
  }

  set_conn-IsCounted :
      (others : ℕ → ℕ) (c a : ℕ) (conn : Option IoConnection) (ev : IoEvents)
      (s s' : State api Adapter)
      → s.env.contexts c ≡ some (record { watch = some a; conn = conn })
      → (elim conn [
        | some io ↦ done (with_conn s c a (record io { events = ev }))
        | none ↦ (do
          f ← fd api a s
          s1 ← add_ref api a s
          done (with_conn s1 c a (record { fd = f; events = ev; target = a })))
      ])
        ≡ done s'
      → AtMost 2 others
      → IsSmall s
      → IsCounted api others s
      → IsCounted api others s' × (s'.env.next ≡ s.env.next)
  set_conn-IsCounted others c a (some io) ev s s' here e few small v =
      let same : with_conn s c a (record io { events = ev }) ≡ s' = cc (e) in
      let v' =
        move-IsCounted api others others c (record { watch = some a; conn = some io })
          (record { watch = some a; conn = some (record io { events = ev }) }) s here (λ b. refl)
          v in
      subst (λ (x : State api Adapter). IsCounted api others x × (x.env.next ≡ s.env.next)) same
        (v', refl)
  set_conn-IsCounted others c a none ev s s' here e few small v =
      let (f, p, q) = >>=-eq-done (fd api a s) _ e in
      let (s1, p1, q1) = >>=-eq-done (add_ref api a s) _ q in
      let (pos, h, same1, v1) =
        add_ref-IsCounted api others a s s1 p1
          (pointers-small others s a (λ b. omega (arith, few b)) small) v in
      let io : IoConnection = record { fd = f; events = ev; target = a } in
      let t : State api Adapter = record s { heap = h } in
      let v2 =
        move-IsCounted api (plus others (some a)) others c (record { watch = some a; conn = none })
          (record { watch = some a; conn = some io }) t here (λ b. omega arith) v1 in
      let same : with_conn t c a io ≡ s' =
        ap (λ (x : State api Adapter). with_conn x c a io) same1 ∙ cc (q1) in
      subst (λ (x : State api Adapter). IsCounted api others x × (x.env.next ≡ s.env.next)) same
        (v2, refl)

  pub on_watch_change-IsCounted :
      (others : ℕ → ℕ) (c : ℕ) (s s' : State api Adapter)
      → on_watch_change api c s ≡ done s'
      → AtMost 2 others
      → IsSmall s
      → IsCounted api others s
      → IsCounted api others s' × (s'.env.next ≡ s.env.next)
  unfolding on_watch_change
  on_watch_change-IsCounted others c s s' e few small v = elim (Option-cases (s.env.contexts c)) [
    | inl gone ↦ absurd (ground (arith, gone, e))
    | inr (ctx, p) ↦ elim (Option-cases ctx.watch) [
      | inl gone ↦ absurd (ground (arith, p, gone, e))
      | inr (a, pw) ↦
          let here : s.env.contexts c ≡ some (record { watch = some a; conn = ctx.conn }) =
            p ∙ ap (λ (w : Option ℕ). some (record { watch = w; conn = ctx.conn })) pw in
          let (en, p2, q2) = >>=-eq-done (enabled api a s) _ (rw here at e) in
          let (ev, p3, q3) =
            >>=-eq-done
              (if en then (do fl ← flags api a s; done (events_of fl)) else done ioready_none) _
              q2 in
          set_conn-IsCounted others c a ctx.conn ev s s' here q3 few small v
    ]
  ]

  abbrev pub with_ctx : State api Adapter → ℕ → IoCtx → State api Adapter
  with_ctx s c ctx = record s {
    env = record (s.env) { contexts = update s.env.contexts c (some ctx) };
  }

  -- What the steps of on_watch_remove do to a pointer that is dropped.
  abbrev Drops : Option ℕ → State api Adapter → State api Adapter → Type 0
  Drops o s s' =
      (h : Store (Watch api.Raw)) × (record s { heap = h } ≡ s')
      × ((others : ℕ → ℕ) (env : Adapter)
          → IsCounted api (plus others o) (record s { env = env })
          → IsCounted api others (record s { heap = h; env = env }))

  no-Drops : (s : State api Adapter) → Drops none s s
  no-Drops s = (
    s.heap,
    refl,
    λ others env v.
        same-IsCounted api (plus others none) others (record s { env = env }) (λ b. omega arith) v,
  )

  drop_conn-Drops :
      (conn : Option IoConnection) (s s' : State api Adapter)
      → drop_conn api conn s ≡ done s'
      → Drops (target_of conn) s s'
  unfolding drop_conn
  drop_conn-Drops none s s' e = let same : s ≡ s' = cc (e) in subst (Drops none s) same (no-Drops s)
  drop_conn-Drops (some io) s s' e = release-IsCounted api io.target s s' e

  drop_watch-Drops :
      (watch : Option ℕ) (s s' : State api Adapter)
      → drop_watch api watch s ≡ done s'
      → Drops watch s s'
  unfolding drop_watch
  drop_watch-Drops none s s' e =
      let same : s ≡ s' = cc (e) in subst (Drops none s) same (no-Drops s)
  drop_watch-Drops (some a) s s' e = release-IsCounted api a s s' e

  -- The context after the first half of on_watch_remove.
  pub idle-IsCounted :
      (others : ℕ → ℕ) (c : ℕ) (ctx : IoCtx) (s s1 : State api Adapter)
      → s.env.contexts c ≡ some ctx
      → drop_conn api ctx.conn s ≡ done s1
      → IsCounted api others s
      → IsCounted api others (with_ctx s1 c (record ctx { conn = none }))
        × (s1.env.next ≡ s.env.next)
  idle-IsCounted others c ctx s s1 here e v =
      let (h, same, drops) = drop_conn-Drops ctx.conn s s1 e in
      let idle : IoCtx = record ctx { conn = none } in
      let v1 =
        move-IsCounted api others (plus others (target_of ctx.conn)) c ctx idle s here
          (λ b. omega arith) v in
      subst
        (λ (x : State api Adapter).
          IsCounted api others (with_ctx x c idle) × (x.env.next ≡ s.env.next))
        same (drops others (with_ctx s c idle).env v1, refl)

  pub on_watch_remove-IsCounted :
      (others : ℕ → ℕ) (c : ℕ) (s s' : State api Adapter)
      → on_watch_remove api c s ≡ done s'
      → IsCounted api others s
      → IsCounted api others s' × (s'.env.next ≡ s.env.next)
  unfolding on_watch_remove
  on_watch_remove-IsCounted others c s s' e v = elim (Option-cases (s.env.contexts c)) [
    | inl gone ↦ absurd (ground (arith, gone, e))
    | inr (ctx, p) ↦
        let (s1, p1, q1) = >>=-eq-done (drop_conn api ctx.conn s) _ (rw p at e) in
        let (v2, n) = idle-IsCounted others c ctx s s1 p p1 v in
        let idle : IoCtx = record ctx { conn = none } in
        let s2 = with_ctx s1 c idle in
        let (s3, p3, q3) = >>=-eq-done (drop_watch api ctx.watch s2) _ q1 in
        let (h3, same3, drops) = drop_watch-Drops ctx.watch s2 s3 p3 in
        let v3 =
          move-IsCounted api others (plus others ctx.watch) c idle cleared_ctx s2
            (update-same c s1.env.contexts) (λ b. omega arith) v2 in
        let v4 = drops others (with_ctx s2 c cleared_ctx).env v3 in
        let same : with_ctx (record s2 { heap = h3 }) c cleared_ctx ≡ s' =
          ap (λ (x : State api Adapter). with_ctx x c cleared_ctx) same3 ∙ cc (q3) in
        subst (λ (x : State api Adapter). IsCounted api others x × (x.env.next ≡ s.env.next)) same
          (v4, n)
  ]

  pub call_slots-IsCounted :
      (ev : WatchEvent) (cs : List ℕ) (others : ℕ → ℕ) (s s' : State api Adapter)
      → call_slots api ev cs s ≡ done s'
      → AtMost 2 others
      → IsSmall s
      → IsCounted api others s
      → IsCounted api others s' × (s'.env.next ≡ s.env.next)
  unfolding call_slots
  call_slots-IsCounted on_change [] others s s' e few small v =
      let same : s ≡ s' = cc (e) in
      subst (λ (x : State api Adapter). IsCounted api others x × (x.env.next ≡ s.env.next)) same
        (v, refl)
  call_slots-IsCounted on_remove [] others s s' e few small v =
      let same : s ≡ s' = cc (e) in
      subst (λ (x : State api Adapter). IsCounted api others x × (x.env.next ≡ s.env.next)) same
        (v, refl)
  call_slots-IsCounted on_change (c ∷ cs) others s s' e few small v =
      let (s1, p, q) = >>=-eq-done (on_watch_change api c s) _ e in
      let (v1, n1) = on_watch_change-IsCounted others c s s1 p few small v in
      let (v2, n2) =
        call_slots-IsCounted on_change cs others s1 s' q few (omega (arith, small, n1)) v1 in
      (v2, n2 ∙ n1)
  call_slots-IsCounted on_remove (c ∷ cs) others s s' e few small v =
      let (s1, p, q) = >>=-eq-done (on_watch_remove api c s) _ e in
      let (v1, n1) = on_watch_remove-IsCounted others c s s1 p v in
      let (v2, n2) =
        call_slots-IsCounted on_remove cs others s1 s' q few (omega (arith, small, n1)) v1 in
      (v2, n2 ∙ n1)

  pub fire-IsCounted :
      (ev : WatchEvent) (a : ℕ) (others : ℕ → ℕ) (s s' : State api Adapter)
      → fire api a ev s ≡ done s'
      → AtMost 2 others
      → IsSmall s
      → IsCounted api others s
      → IsCounted api others s' × (s'.env.next ≡ s.env.next)
  unfolding fire
  fire-IsCounted ev a others s s' e few small v =
      call_slots-IsCounted ev (s.env.slots_of a) others s s' e few small v
