-- ===== src/Adapter/Sync/Kept.antt =====
-- src/tscb-adapter.cc: contexts that stay in step when on_watch_change or on_watch_remove
-- replaces one of them, or when only references to watches are taken or dropped.
use dbuscc.Base.{
  ℕ, ◌≡◌, inl, inr, refl, ◌==◌, true, Option, none, some, List, ◌∷◌, contains, arith, Bool-cases,
  ap, ◌∙◌, subst, update-same,
}
use dbuscc.Pointer.{Store}
use dbuscc.Watch.{WatchApi, Watch, State}
use dbuscc.Watch.Frame.{Keeps}
use dbuscc.Adapter.{IoConnection, IoCtx, Adapter}
use dbuscc.Adapter.Sync.{ctx_of, Linked, IsWatched, IsTracked, IsSynced, put}
use dbuscc.Adapter.Sync.Change.{IsChanged}

module _ (api : WatchApi) where
  open api use {Raw, World}

  pub kept :
      (h h' : Store (Watch Raw))
      → Keeps h h'
      → (b : ℕ) (r : Raw) → Linked api h' b r
      → Linked api h b r
  kept h h' k b r (n, p) = k b r n p

  -- A context that is not the one that was replaced.
  pub other-IsTracked :
      (stale stale' : List ℕ) (c c2 a : ℕ) (conn : Option IoConnection) (ctx : IoCtx)
      (s : State api Adapter) (h : Store (Watch Raw))
      → Keeps s.heap h
      → (contains c2 stale ≡ true → contains c2 stale' ≡ true)
      → IsTracked api stale c2 a conn s
      → IsTracked api stale' c2 a conn (put api s h c ctx)
  other-IsTracked stale stale' c c2 a conn ctx s h k sub old = record {
    slot = old.slot;
    address = old.address;
    context = old.context;
    descriptor = λ io r p l. old.descriptor io r p (kept s.heap h k a r l);
    current = elim old.current [
      | inl p ↦ inl (ground (arith, p, sub))
      | inr f ↦ inr λ r l. f r (kept s.heap h k a r l)
    ];
  }

  now-IsWatched :
      (c a : ℕ) (conn conn' : Option IoConnection) (h : Store (Watch Raw)) (s : State api Adapter)
      → IsChanged api c a conn conn' h s
      → ((io : IoConnection) (r : Raw)
          → conn ≡ some io
          → Linked api s.heap a r
          → (io.fd ≡ api.get_unix_fd s.world r) × (io.target ≡ a))
      → (r : Raw) → Linked api s.heap a r
      → (io : IoConnection) × (conn' ≡ some io) × IsWatched api s.world a r io
  now-IsWatched c a none conn' h s ch old r l =
      let (ev, p, w) = ch.now r l in
      (
        record { fd = api.get_unix_fd s.world r; events = ev; target = a },
        p,
        record { fd = refl; target = refl; events = w },
      )
  now-IsWatched c a (some io) conn' h s ch old r l =
      let (ev, p, w) = ch.now r l in
      let (f, t) = old io r refl l in
      (record io { events = ev }, p, record { fd = f; target = t; events = w })

  module _ (stale : List ℕ) (c a : ℕ) (conn conn' : Option IoConnection) (h : Store (Watch Raw))
      (s : State api Adapter) (v : IsSynced api (c ∷ stale) s)
      (ch : IsChanged api c a conn conn' h s) where
    changed-IsTracked : IsTracked api stale c a conn' (put api s h c (ctx_of a conn'))
    changed-IsTracked =
        let old = v.tracked c a conn ch.before in
        let watched = now-IsWatched c a conn conn' h s ch old.descriptor in
        record {
          slot = old.slot;
          address = old.address;
          context = old.context;
          descriptor = λ io r p l.
              let (io', p', w) = watched r (kept s.heap h ch.keeps a r l) in
              let same : io' ≡ io = cc (p, p') in
              subst (λ (x : IoConnection). (x.fd ≡ api.get_unix_fd s.world r) × (x.target ≡ a)) same
                (w.fd, w.target);
          current = inr λ r l. watched r (kept s.heap h ch.keeps a r l);
        }

    pub changed-IsSynced : IsSynced api stale (put api s h c (ctx_of a conn'))
    changed-IsSynced = record {
      tracked = λ c2 a2 k2 e. elim (Bool-cases (c2 == c)) [
        | inl p ↦
            let same_c : c ≡ c2 = ground (arith, p) in
            let same_ctx : ctx_of a conn' ≡ ctx_of a2 k2 = ground (arith, p, e) in
            let same_a : a ≡ a2 = cc (same_ctx) in
            let same_k : conn' ≡ k2 = cc (same_ctx) in
            let s' = put api s h c (ctx_of a conn') in
            let t1 =
              subst (λ (x : Option IoConnection). IsTracked api stale c a x s') same_k
                changed-IsTracked in
            let t2 = subst (λ (x : ℕ). IsTracked api stale c x k2 s') same_a t1 in
            subst (λ (x : ℕ). IsTracked api stale x a2 k2 s') same_c t2
        | inr p ↦
            other-IsTracked (c ∷ stale) stale c c2 a2 k2 (ctx_of a conn') s h ch.keeps
              (λ q. ground (arith, p, q)) (v.tracked c2 a2 k2 (ground (arith, p, e)))
      ];
      data_is = λ b r l. v.data_is b r (kept s.heap h ch.keeps b r l);
      fresh = λ b r l. v.fresh b r (kept s.heap h ch.keeps b r l);
      served = λ b r l.
          let (c2, k2, e) = v.served b r (kept s.heap h ch.keeps b r l) in
          elim (Bool-cases (c2 == c)) [
            | inl p ↦
                let same : ctx_of b k2 ≡ ctx_of a conn = ground (arith, p, e, ch.before) in
                let same_a : a ≡ b = cc (same) in
                (
                  c,
                  conn',
                  update-same c s.env.contexts ∙ ap (λ (x : ℕ). some (ctx_of x conn')) same_a,
                )
            | inr p ↦ (c2, k2, ground (arith, p, e))
          ];
      owned = λ c2 a2 q.
          let (lt, ctx) = v.owned c2 a2 q in
          (
            lt,
            elim (Bool-cases (c2 == c)) [
              | inl p ↦ elim ctx [
                | inl (k2, e) ↦
                    let same : ctx_of a2 k2 ≡ ctx_of a conn = ground (arith, p, e, ch.before) in
                    let same_a : a ≡ a2 = cc (same) in
                    inl (conn', rw p (ap (λ (x : ℕ). some (ctx_of x conn')) same_a))
                | inr e ↦ absurd (ground (arith, p, e, ch.before))
              ]
              | inr p ↦ elim ctx [
                | inl (k2, e) ↦ inl (k2, ground (arith, p, e))
                | inr e ↦ inr (ground (arith, p, e))
              ]
            ],
          );
    }
