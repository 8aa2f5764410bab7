-- ===== src/Adapter/Sync/Add.antt =====
-- src/connection.cc, src/tscb-adapter.cc: a watch that libdbus adds, and the context that is
-- made for it.
use dbuscc.Base.{
  ℕ, ◌+◌, ◌<◌, ◌≡◌, ◌⊎◌, inl, inr, ◌==◌, true, Option, none, some, [], ◌∷◌, ◌++◌, contains,
  contains-append, update, update-same, done, >>=-eq-done, arith, Bool-cases, sym, ap, ◌∙◌, subst,
}
use dbuscc.Pointer.{Store}
use dbuscc.Watch.{WatchApi, Watch, State, add_ref}
use dbuscc.Watch.Values.{create-created, created}
use dbuscc.Watch.Frame.{Keeps, add_ref-Keeps, release-Keeps}
use dbuscc.Adapter.{IoConnection, Adapter, on_watch_add}
use dbuscc.Connection.Sources.{add_watch}
use dbuscc.Adapter.Sync.{ctx_of, Linked, IsTracked, IsSynced}
use dbuscc.Adapter.Sync.World.{SameHandle, SameEvents, same-IsWanted}

module _ (api : WatchApi) where
  open api use {Raw, World}

  -- The state after add_watch, but for the heap.
  abbrev pub with_added : World → Store (Watch Raw) → State api Adapter → State api Adapter
  with_added w h s = record {
    world = w;
    heap = h;
    next = s.next + 1;
    env = record {
      contexts = update s.env.contexts s.env.next (some (ctx_of s.next none));
      slots_of = update s.env.slots_of s.next (s.env.slots_of s.next ++ s.env.next ∷ []);
      posted = s.env.posted ++ s.env.next ∷ [];
      next = s.env.next + 1;
    };
  }

  created_links :
      (r : Raw) (s : State api Adapter) (b : ℕ) (r2 : Raw)
      → Linked api (created api r s).heap b r2
      → ((b ≡ s.next) × (r ≡ r2)) ⊎ Linked api s.heap b r2
  created_links r s b r2 (n, e) = elim (Bool-cases (b == s.next)) [
    | inl p ↦ inl (ground (arith, p), ground (arith, p, e))
    | inr p ↦ inr (n, ground (arith, p, e))
  ]

  on_watch_add-parts :
      (a : ℕ) (s s' : State api Adapter)
      → on_watch_add api a s ≡ done s'
      → (h : Store (Watch Raw)) × Keeps s.heap h
        × (record s {
          heap = h;
          env = record {
            contexts = update s.env.contexts s.env.next (some (ctx_of a none));
            slots_of = update s.env.slots_of a (s.env.slots_of a ++ s.env.next ∷ []);
            posted = s.env.posted ++ s.env.next ∷ [];
            next = s.env.next + 1;
          };
        }
            ≡ s')
  unfolding on_watch_add
  on_watch_add-parts a s s' e =
      let (s1, p, q) = >>=-eq-done (add_ref api a s) _ e in
      let (h, same, k) = add_ref-Keeps api a s s1 p in
      (
        h,
        k,
        ap
              (λ (x : State api Adapter). record x {
                env = record {
                  contexts = update x.env.contexts x.env.next (some (ctx_of a none));
                  slots_of = update x.env.slots_of a (x.env.slots_of a ++ x.env.next ∷ []);
                  posted = x.env.posted ++ x.env.next ∷ [];
                  next = x.env.next + 1;
                };
              })
              same
            ∙ cc (q),
      )

  pub add_watch-parts :
      (r : Raw) (s s' : State api Adapter)
      → add_watch api (on_watch_add api) (some r) s ≡ done s'
      → (h : Store (Watch Raw)) × (with_added (api.set_data s.world r s.next) h s ≡ s')
        × ((b : ℕ) (r2 : Raw)
            → Linked api h b r2
            → ((b ≡ s.next) × (r ≡ r2)) ⊎ Linked api s.heap b r2)
  unfolding add_watch
  add_watch-parts r s s' e =
      let (s2, p, q) =
        >>=-eq-done (on_watch_add api s.next (created api r s)) _
          (rw (create-created api r s) at e) in
      let (h2, k2, same2) = on_watch_add-parts s.next (created api r s) s2 p in
      let (h3, same3, k3) = release-Keeps api s.next s2 s' q in
      (
        h3,
        ap (λ (x : State api Adapter). record x { heap = h3 }) same2 ∙ same3,
        λ b r2 (n, l).
            let (m, l2) =
              subst (λ (x : State api Adapter). Keeps x.heap h3) (sym same2) k3 b r2 n l in
            created_links r s b r2 (k2 b r2 m l2),
      )

  module _ (r : Raw) (s : State api Adapter) (w' : World) (h : Store (Watch Raw))
      (links : (b : ℕ) (r2 : Raw)
        → Linked api h b r2
        → ((b ≡ s.next) × (r ≡ r2)) ⊎ Linked api s.heap b r2)
      (unlinked : (b : ℕ) → ¬ Linked api s.heap b r) (set : api.get_data w' r ≡ some s.next)
      (other : (r2 : Raw) → (r ≡ r2) ⊎ SameHandle api s.world w' r2)
      (events : (r2 : Raw) → SameEvents api s.world w' r2) (v : IsSynced api [] s) where
    abbrev after : State api Adapter
    after = with_added w' h s

    new-IsTracked : IsTracked api [] s.env.next s.next none after
    new-IsTracked = record {
      slot = ground (arith, contains-append s.env.next (s.env.slots_of s.next) (s.env.next ∷ []));
      address = omega arith;
      context = omega arith;
      descriptor = λ io r2 p. absurd (ground (arith, p));
      current = inl (ground (arith, contains-append s.env.next s.env.posted (s.env.next ∷ [])));
    }

    -- A raw watch that is linked to an object from before is not the new one.
    before : (a : ℕ) (r2 : Raw) → a < s.next → Linked api h a r2 → Linked api s.heap a r2
    before a r2 lt l = elim (links a r2 l) [
      | inl (p, q) ↦ absurd (omega (arith, p, lt))
      | inr l0 ↦ l0
    ]

    handle_same : (a : ℕ) (r2 : Raw) → Linked api s.heap a r2 → SameHandle api s.world w' r2
    handle_same a r2 l = elim (other r2) [
      | inl p ↦ absurd (unlinked a (subst (Linked api s.heap a) (sym p) l))
      | inr x ↦ x
    ]

    old-IsTracked :
        (c a : ℕ) (conn : Option IoConnection)
        → IsTracked api [] c a conn s
        → IsTracked api [] c a conn after
    old-IsTracked c a conn t = record {
      slot = let lt = t.address in let m = t.slot in ground (arith, lt, m);
      address = omega (arith, t.address);
      context = omega (arith, t.context);
      descriptor = λ io r2 p l.
          let l0 = before a r2 t.address l in
          let (f, g) = t.descriptor io r2 p l0 in (f ∙ sym (handle_same a r2 l0).1, g);
      current = elim t.current [
        | inl p ↦ inl (ground (arith, p, contains-append c s.env.posted (s.env.next ∷ [])))
        | inr f ↦ inr λ r2 l.
            let l0 = before a r2 t.address l in
            let (io, p, x) = f r2 l0 in
            (
              io,
              p,
              record {
                fd = x.fd ∙ sym (handle_same a r2 l0).1;
                target = x.target;
                events = same-IsWanted api s.world w' r2 io.events (events r2) x.events;
              },
            )
      ];
    }

    slot_cases :
        (c a : ℕ)
        → contains c (after.env.slots_of a) ≡ true
        → ((c ≡ s.env.next) × (a ≡ s.next)) ⊎ (contains c (s.env.slots_of a) ≡ true)
    slot_cases c a m = elim (Bool-cases (a == s.next)) [
      | inl p ↦ elim (Bool-cases (c == s.env.next)) [
        | inl q ↦ inl (ground (arith, q), ground (arith, p))
        | inr q ↦
            inr
              (ground (arith, p, q, m, contains-append c (s.env.slots_of s.next) (s.env.next ∷ [])))
      ]
      | inr p ↦ inr (ground (arith, p, m))
    ]

    pub added-IsSynced : IsSynced api [] after
    added-IsSynced = record {
      tracked = λ c a conn e. elim (Bool-cases (c == s.env.next)) [
        | inl p ↦
            let same_c : s.env.next ≡ c = ground (arith, p) in
            let same : ctx_of s.next none ≡ ctx_of a conn = ground (arith, p, e) in
            let same_a : s.next ≡ a = cc (same) in
            let same_k : none ≡ conn = cc (same) in
            let t1 =
              subst (λ (x : Option IoConnection). IsTracked api [] s.env.next s.next x after) same_k
                new-IsTracked in
            let t2 = subst (λ (x : ℕ). IsTracked api [] s.env.next x conn after) same_a t1 in
            subst (λ (x : ℕ). IsTracked api [] x a conn after) same_c t2
        | inr p ↦ old-IsTracked c a conn (v.tracked c a conn (ground (arith, p, e)))
      ];
      data_is = λ b r2 l. elim (links b r2 l) [
        | inl (p, q) ↦
            subst (λ (x : Raw). api.get_data w' x ≡ some b) q (set ∙ ap (λ (x : ℕ). some x) (sym p))
        | inr l0 ↦ (handle_same b r2 l0).0 ∙ v.data_is b r2 l0
      ];
      fresh = λ b r2 l. elim (links b r2 l) [
        | inl (p, q) ↦ omega (arith, p)
        | inr l0 ↦ omega (arith, v.fresh b r2 l0)
      ];
      served = λ b r2 l. elim (links b r2 l) [
        | inl (p, q) ↦ (
          s.env.next,
          none,
          update-same s.env.next s.env.contexts ∙ ap (λ (x : ℕ). some (ctx_of x none)) (sym p),
        )
        | inr l0 ↦
            let (c, conn, e) = v.served b r2 l0 in
            let lt = (v.tracked c b conn e).context in (c, conn, ground (arith, e, lt))
      ];
      owned = λ c a m. elim (slot_cases c a m) [
        | inl (p, q) ↦
            (omega (arith, p), inl (none, rw p (rw q (update-same s.env.next s.env.contexts))))
        | inr m0 ↦
            let (lt, ctx) = v.owned c a m0 in
            (
              omega (arith, lt),
              elim ctx [
                | inl (conn, e) ↦ inl (conn, ground (arith, lt, e))
                | inr e ↦ inr (ground (arith, lt, e))
              ],
            )
      ];
    }
