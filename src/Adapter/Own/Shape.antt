-- ===== src/Adapter/Own/Shape.antt =====
-- src/tscb-adapter.cc: a context has its watch or lost it with its connection, and a function is
-- posted for contexts only.
use dbuscc.Base.{
  ℕ, ◌≡◌, ◌⊎◌, refl, inl, inr, true, Option, none, some, ◌==◌, List, [], ◌∷◌, contains,
  contains-append, update, done, >>=-eq-done, sym, ◌∙◌, arith, Bool-cases, subst,
}
use dbuscc.Watch.{WatchApi, State, WatchEvent, on_change, on_remove, handle, release}
use dbuscc.Watch.Values.{unref-release}
use dbuscc.Watch.Frame.{add_ref-parts, release-parts, toggled-parts, removed-parts, handle-world}
use dbuscc.Connection.Sources.{add_watch}
use dbuscc.Adapter.{
  IoEvents, IoConnection, IoCtx, Adapter, on_watch_add, on_watch_change, on_watch_remove,
  on_io_ready, call_slots, fire, run_posted,
}
use dbuscc.Adapter.Removal.{cleared_ctx}
use dbuscc.Adapter.Sync.{ctx_of}
use dbuscc.Adapter.Sync.Change.{on_watch_change-IsChanged}
use dbuscc.Adapter.Sync.Remove.{on_watch_remove-cleared}
use dbuscc.Adapter.Sync.Add.{add_watch-parts}
use dbuscc.Adapter.Own.Step.{Call, changes, adds, toggles, removes, frees, runs, is_ready}

abbrev pub HasShape : IoCtx → Type 0
HasShape ctx =
    (ctx ≡ cleared_ctx) ⊎ ((a : ℕ) × (conn : Option IoConnection) × (ctx ≡ ctx_of a conn))

pub record IsShaped (env : Adapter) : Type 0 where
  pub shape : (c : ℕ) (ctx : IoCtx) → env.contexts c ≡ some ctx → HasShape ctx
  pub posted : (c : ℕ) → contains c env.posted ≡ true → (ctx : IoCtx) × (env.contexts c ≡ some ctx)
  pub slots :
      (c a : ℕ) → contains c (env.slots_of a) ≡ true → (ctx : IoCtx) × (env.contexts c ≡ some ctx)

pub put-IsShaped :
    (c : ℕ) (ctx : IoCtx) (env : Adapter)
    → HasShape ctx
    → IsShaped env
    → IsShaped (record env { contexts = update env.contexts c (some ctx) })
put-IsShaped c ctx env good v = record {
  shape = λ k x e. elim (Bool-cases (k == c)) [
    | inl p ↦ let same : ctx ≡ x = ground (arith, p, e) in subst HasShape same good
    | inr p ↦ v.shape k x (ground (arith, p, e))
  ];
  posted = λ k m. elim (Bool-cases (k == c)) [
    | inl p ↦ (ctx, ground (arith, p))
    | inr p ↦ let (x, e) = v.posted k m in (x, ground (arith, p, e))
  ];
  slots = λ k a m. elim (Bool-cases (k == c)) [
    | inl p ↦ (ctx, ground (arith, p))
    | inr p ↦ let (x, e) = v.slots k a m in (x, ground (arith, p, e))
  ];
}

module _ (api : WatchApi) where
  call_slots-IsShaped :
      (ev : WatchEvent) (cs : List ℕ) (s s' : State api Adapter)
      → call_slots api ev cs s ≡ done s'
      → IsShaped s.env
      → IsShaped s'.env
  unfolding call_slots
  call_slots-IsShaped on_change [] s s' e v =
      let same : s.env ≡ s'.env = cc (e) in subst IsShaped same v
  call_slots-IsShaped on_remove [] s s' e v =
      let same : s.env ≡ s'.env = cc (e) in subst IsShaped same v
  call_slots-IsShaped on_change (c ∷ cs) s s' e v =
      let (s1, p, q) = >>=-eq-done (on_watch_change api c s) _ e in
      let (a, conn, conn', h, same, ch) = on_watch_change-IsChanged api c s s1 p in
      call_slots-IsShaped on_change cs s1 s' q (
        subst (λ (x : State api Adapter). IsShaped x.env) same
          (put-IsShaped c (ctx_of a conn') s.env (inr (a, conn', refl)) v))
  call_slots-IsShaped on_remove (c ∷ cs) s s' e v =
      let (s1, p, q) = >>=-eq-done (on_watch_remove api c s) _ e in
      let (h, same, k) = on_watch_remove-cleared api c s s1 p in
      call_slots-IsShaped on_remove cs s1 s' q (
        subst (λ (x : State api Adapter). IsShaped x.env) same
          (put-IsShaped c cleared_ctx s.env (inl refl) v))

  -- A signal, between taking a pointer and dropping it.
  signal-IsShaped :
      (ev : WatchEvent) (a : ℕ) (s1 s2 s' : State api Adapter)
      → fire api a ev s1 ≡ done s2
      → release api a s2 ≡ done s'
      → IsShaped s1.env
      → IsShaped s'.env
  unfolding fire
  signal-IsShaped ev a s1 s2 s' p q v =
      let (h, r, same) = release-parts api a s2 s' q in
      subst (λ (x : State api Adapter). IsShaped x.env) same
        (call_slots-IsShaped ev (s1.env.slots_of a) s1 s2 p v)

  run_posted-IsShaped :
      (s s' : State api Adapter) → run_posted api s ≡ done s' → IsShaped s.env → IsShaped s'.env
  unfolding run_posted
  run_posted-IsShaped s s' e v = go s.env.posted refl
    where
      go : (xs : List ℕ) → s.env.posted ≡ xs → IsShaped s'.env
      go [] p =
          let same : s ≡ s' = ground (arith, p, e) in
          subst (λ (x : State api Adapter). IsShaped x.env) same v
      go (c ∷ cs) p =
          let t : State api Adapter = record s { env = record (s.env) { posted = cs } } in
          let (a, conn, conn', h, same, ch) =
            on_watch_change-IsChanged api c t s' (ground (arith, p, e)) in
          let v' : IsShaped t.env = record {
            shape = v.shape;
            posted = λ k m. v.posted k (ground (arith, p, m));
            slots = v.slots;
          } in
          subst (λ (x : State api Adapter). IsShaped x.env) same
            (put-IsShaped c (ctx_of a conn') t.env (inr (a, conn', refl)) v')

  add_watch-IsShaped :
      (r : api.Raw) (s s' : State api Adapter)
      → add_watch api (on_watch_add api) (some r) s ≡ done s'
      → IsShaped s.env
      → IsShaped s'.env
  add_watch-IsShaped r s s' e v =
      let (h, same, links) = add_watch-parts api r s s' e in
      subst (λ (x : State api Adapter). IsShaped x.env) same
        (record {
          shape = λ k x q. elim (Bool-cases (k == s.env.next)) [
            | inl p ↦
                let new : ctx_of s.next none ≡ x = ground (arith, p, q) in
                subst HasShape new (inr (s.next, none, refl))
            | inr p ↦ v.shape k x (ground (arith, p, q))
          ];
          posted = λ k m. elim (Bool-cases (k == s.env.next)) [
            | inl p ↦ (ctx_of s.next none, ground (arith, p))
            | inr p ↦
                let old : contains k s.env.posted ≡ true =
                  ground (arith, p, m, contains-append k s.env.posted (s.env.next ∷ [])) in
                let (x, q) = v.posted k old in (x, ground (arith, p, q))
          ];
          slots = λ k a m. elim (Bool-cases (k == s.env.next)) [
            | inl p ↦ (ctx_of s.next none, ground (arith, p))
            | inr p ↦
                let old : contains k (s.env.slots_of a) ≡ true = elim (Bool-cases (a == s.next)) [
                  | inl hit ↦ ground (
                    arith,
                    p,
                    m,
                    hit,
                    contains-append k (s.env.slots_of s.next) (s.env.next ∷ []),
                  )
                  | inr miss ↦ ground (arith, m, miss)
                ] in
                let (x, q) = v.slots k a old in (x, ground (arith, p, q))
          ];
        })

  is_ready-IsShaped :
      (a : ℕ) (e : IoEvents) (s s' : State api Adapter)
      → on_io_ready api a e s ≡ done s'
      → IsShaped s.env
      → IsShaped s'.env
  unfolding on_io_ready
  is_ready-IsShaped a e s s' p v =
      let ((ok, s1), p1, q1) = >>=-eq-done (handle api a _ s) _ p in
      let only : record s { world = s1.world } ≡ s1 = handle-world api a _ s ok s1 p1 in
      let last : s1 ≡ s' = cc (q1) in
      subst (λ (x : State api Adapter). IsShaped x.env) (only ∙ last) v

  pub Call-IsShaped :
      {others : ℕ → ℕ} {s : State api Adapter} {others' : ℕ → ℕ} {s' : State api Adapter}
      → Call api others s others' s'
      → IsShaped s.env
      → IsShaped s'.env
  Call-IsShaped (changes w) v = v
  Call-IsShaped {s = s} {s' = s'} (adds r e) v = add_watch-IsShaped r s s' e v
  Call-IsShaped {s = s} {s' = s'} (toggles r e) v =
      let (a, s1, s2, g, p1, p2, p3) = toggled-parts api (fire api) r s s' e in
      let (h, q, same) = add_ref-parts api a s s1 p1 in
      signal-IsShaped on_change a s1 s2 s' p2 p3
        (subst (λ (x : State api Adapter). IsShaped x.env) same v)
  Call-IsShaped {s = s} {s' = s'} (removes r e) v =
      let (a, c, s1, s2, g, p1, here, p2, p3) = removed-parts api (fire api) r s s' e in
      let (h, q, same) = add_ref-parts api a s s1 p1 in
      signal-IsShaped on_remove a _ s2 s' p2 p3
        (subst (λ (x : State api Adapter). IsShaped x.env) same v)
  Call-IsShaped {s = s} {s' = s'} (frees a q e) v =
      let (h, r, same) = release-parts api a s s' (sym (unref-release api a s) ∙ e) in
      subst (λ (x : State api Adapter). IsShaped x.env) same v
  Call-IsShaped {s = s} {s' = s'} (runs e) v = run_posted-IsShaped s s' e v
  Call-IsShaped {s = s} {s' = s'} (is_ready a ev e) v = is_ready-IsShaped a ev s s' e v
