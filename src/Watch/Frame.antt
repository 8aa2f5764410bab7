-- ===== src/Watch/Frame.antt =====
-- src/watch.cc: which watches stay linked to their raw watches over the operations on references.
use dbuscc.Base.{
  ℕ, ◌+◌, ◌-◌, ◌≡◌, refl, ◌==◌, Bool, false, none, some, update, Outcome, done, arith, inl, inr,
  Bool-cases, Option-cases, >>=-eq-done, subst, ◌%◌,
}
use dbuscc.Pointer.{Counted, Store, intrusive_ptr_add_ref, intrusive_ptr_release, int_mod}
use dbuscc.Watch.{
  WatchApi, WatchFlags, handle, this, to_dbus_flags, Watch, State, WatchEvent, on_change, on_remove,
  add_ref, release, toggled, removed, notify_removed, notify_toggled, from_raw,
}
use dbuscc.Watch.Removal.{counted, linked_to, detached}

-- A watch that is linked in the second store was so in the first.
abbrev pub Keeps : {Raw : Type 0} → Store (Watch Raw) → Store (Watch Raw) → Type 0
Keeps {Raw} h h' =
    (b : ℕ) (r : Raw) (n : ℕ)
    → h' b ≡ counted n (linked_to r)
    → (k : ℕ) × (h b ≡ counted k (linked_to r))

pub Keeps-trans :
    {Raw : Type 0} (h h' h'' : Store (Watch Raw)) → Keeps h h' → Keeps h' h'' → Keeps h h''
Keeps-trans h h' h'' k l b r n e = let (m, p) = l b r n e in k b r m p

module _ {Raw : Type 0} where
  Keeps-recount :
      (a n : ℕ) (h : Store (Watch Raw)) (c : Counted (Watch Raw))
      → h a ≡ some c
      → Keeps h (update h a (counted n c.self))
  Keeps-recount a n h c here b r m e = elim (Bool-cases (b == a)) [
    | inl p ↦ (c.refcnt, ground (arith, here, e, p))
    | inr p ↦ (m, ground (arith, e, p))
  ]

  Keeps-erase : (a : ℕ) (h : Store (Watch Raw)) → Keeps h (update h a none)
  Keeps-erase a h b r m e = elim (Bool-cases (b == a)) [
    | inl p ↦ (m, ground (arith, e, p))
    | inr p ↦ (m, ground (arith, e, p))
  ]

  pub Keeps-detach : (a n : ℕ) (h : Store (Watch Raw)) → Keeps h (update h a (counted n detached))
  Keeps-detach a n h b r m e = elim (Bool-cases (b == a)) [
    | inl p ↦ (m, ground (arith, e, p))
    | inr p ↦ (m, ground (arith, e, p))
  ]

  counted_add_ref :
      (a : ℕ) (h h' : Store (Watch Raw)) → intrusive_ptr_add_ref a h ≡ done h' → Keeps h h'
  unfolding intrusive_ptr_add_ref
  counted_add_ref a h h' e = elim (Option-cases (h a)) [
    | inl p ↦ absurd (ground (arith, p, e))
    | inr (c, p) ↦
        let same : update h a (counted ((c.refcnt + 1) % int_mod) c.self) ≡ h' =
          ground (arith, p, e) in
        subst (Keeps h) same (Keeps-recount a _ h c p)
  ]

  counted_release :
      (a : ℕ) (h h' : Store (Watch Raw)) → intrusive_ptr_release a h ≡ done h' → Keeps h h'
  unfolding intrusive_ptr_release
  counted_release a h h' e = elim (Option-cases (h a)) [
    | inl p ↦ absurd (ground (arith, p, e))
    | inr (c, p) ↦ elim (Bool-cases (c.refcnt == 1)) [
      | inl one ↦
          let same : update h a none ≡ h' = ground (arith, p, e, one) in
          subst (Keeps h) same (Keeps-erase a h)
      | inr more ↦
          let same : update h a (counted ((c.refcnt + int_mod - 1) % int_mod) c.self) ≡ h' =
            ground (arith, p, e, more) in
          subst (Keeps h) same (Keeps-recount a _ h c p)
    ]
  ]

module _ (api : WatchApi) {Env : Type 0} where
  pub add_ref-Keeps :
      (a : ℕ) (s s' : State api Env)
      → add_ref api a s ≡ done s'
      → (h : Store (Watch api.Raw)) × (record s { heap = h } ≡ s') × Keeps s.heap h
  unfolding add_ref
  add_ref-Keeps a s s' e =
      let (h, p, q) = >>=-eq-done (intrusive_ptr_add_ref a s.heap) _ e in
      (h, cc (q), counted_add_ref a s.heap h p)

  pub release-Keeps :
      (a : ℕ) (s s' : State api Env)
      → release api a s ≡ done s'
      → (h : Store (Watch api.Raw)) × (record s { heap = h } ≡ s') × Keeps s.heap h
  unfolding release
  release-Keeps a s s' e =
      let (h, p, q) = >>=-eq-done (intrusive_ptr_release a s.heap) _ e in
      (h, cc (q), counted_release a s.heap h p)

  -- The callbacks of libdbus that returned, in their parts.
  pub toggled-parts :
      (fire : ℕ → WatchEvent → State api Env → Outcome (State api Env)) (r : api.Raw)
      (s s' : State api Env)
      → toggled api fire (some r) s ≡ done s'
      → (a : ℕ) × (s1 s2 : State api Env) × (api.get_data s.world r ≡ some a)
        × (add_ref api a s ≡ done s1)
        × (fire a on_change s1 ≡ done s2)
        × (release api a s2 ≡ done s')
  unfolding toggled from_raw notify_toggled
  toggled-parts fire r s s' e = elim (Option-cases (api.get_data s.world r)) [
    | inl p ↦ absurd (ground (arith, p, e))
    | inr (a, p) ↦
        let (s1, p1, q1) = >>=-eq-done (add_ref api a s) _ (rw p at e) in
        let (s2, p2, q2) = >>=-eq-done (fire a on_change s1) _ q1 in (a, s1, s2, p, p1, p2, q2)
  ]

  pub removed-parts :
      (fire : ℕ → WatchEvent → State api Env → Outcome (State api Env)) (r : api.Raw)
      (s s' : State api Env)
      → removed api fire (some r) s ≡ done s'
      → (a : ℕ) × (c : Counted (Watch api.Raw)) × (s1 s2 : State api Env) × (api.get_data s.world r
          ≡ some a)
        × (add_ref api a s ≡ done s1)
        × (s1.heap a ≡ some c)
        × (fire a on_remove (record s1 { heap = update s1.heap a (counted c.refcnt detached) })
            ≡ done s2)
        × (release api a s2 ≡ done s')
  unfolding removed from_raw notify_removed
  removed-parts fire r s s' e = elim (Option-cases (api.get_data s.world r)) [
    | inl p ↦ absurd (ground (arith, p, e))
    | inr (a, p) ↦
        let (s1, p1, q1) = >>=-eq-done (add_ref api a s) _ (rw p at e) in
        let (s2, p2, q2) = >>=-eq-done (notify_removed api fire a s1) _ q1 in
        elim (Option-cases (s1.heap a)) [
          | inl gone ↦ absurd (ground (arith, gone, p2))
          | inr (c, p3) ↦ (a, c, s1, s2, p, p1, p3, rw p3 at p2, q2)
        ]
  ]

  -- Only libdbus changes when it handles a watch.
  pub handle-world :
      (a : ℕ) (fl : WatchFlags) (s : State api Env) (ok : Bool) (s' : State api Env)
      → handle api a fl s ≡ done (ok, s')
      → record s { world = s'.world } ≡ s'
  unfolding handle
  handle-world a fl s ok s' e =
      let (w, p, q) = >>=-eq-done (this api a s) _ e in
      elim (Bool-cases w.is_removed) [
        | inl gone ↦
            let same : ◌≡◌ {A = Outcome (Bool × State api Env)} (done (false, s)) (done (ok, s')) =
              ground (arith, q, gone) in
            let end : s ≡ s' = cc (same) in
            subst (λ (x : State api Env). record s { world = x.world } ≡ x) end refl
        | inr live ↦ elim (Option-cases w.raw) [
          | inl none_left ↦ absurd (ground (arith, q, live, none_left))
          | inr (r, p2) ↦
              let (ok', world) = api.handle s.world r (to_dbus_flags api fl) in
              let same : ◌≡◌ {A = Outcome (Bool × State api Env)}
                  (done (ok', record s { world = world })) (done (ok, s')) =
                ground (arith, q, live, p2) in
              let end : record s { world = world } ≡ s' = cc (same) in
              subst (λ (x : State api Env). record s { world = x.world } ≡ x) end refl
        ]
      ]

  pub add_ref-parts :
      (a : ℕ) (s s' : State api Env)
      → add_ref api a s ≡ done s'
      → (h : Store (Watch api.Raw)) × (intrusive_ptr_add_ref a s.heap ≡ done h)
        × (record s { heap = h } ≡ s')
  unfolding add_ref
  add_ref-parts a s s' e =
      let (h, p, q) = >>=-eq-done (intrusive_ptr_add_ref a s.heap) _ e in (h, p, cc (q))

  pub release-parts :
      (a : ℕ) (s s' : State api Env)
      → release api a s ≡ done s'
      → (h : Store (Watch api.Raw)) × (intrusive_ptr_release a s.heap ≡ done h)
        × (record s { heap = h } ≡ s')
  unfolding release
  release-parts a s s' e =
      let (h, p, q) = >>=-eq-done (intrusive_ptr_release a s.heap) _ e in (h, p, cc (q))

  pub add_ref-alive :
      (a : ℕ) (s : State api Env) (c : Counted (Watch api.Raw))
      → s.heap a ≡ some c
      → (s' : State api Env) × (add_ref api a s ≡ done s')
  unfolding add_ref intrusive_ptr_add_ref
  add_ref-alive a s c here = (
    record s { heap = update s.heap a (counted ((c.refcnt + 1) % int_mod) c.self) },
    rw here refl,
  )

  pub release-alive :
      (a : ℕ) (s : State api Env) (c : Counted (Watch api.Raw))
      → s.heap a ≡ some c
      → (s' : State api Env) × (release api a s ≡ done s')
  unfolding release intrusive_ptr_release
  release-alive a s c here = elim (Bool-cases (c.refcnt == 1)) [
    | inl one ↦ (record s { heap = update s.heap a none }, rw here (rw one refl))
    | inr more ↦ (
      record s { heap = update s.heap a (counted ((c.refcnt + int_mod - 1) % int_mod) c.self) },
      rw here (rw more refl),
    )
  ]

  pub removed-runs :
      (fire : ℕ → WatchEvent → State api Env → Outcome (State api Env)) (r : api.Raw) (a : ℕ)
      (c : Counted (Watch api.Raw)) (s s1 s2 s' : State api Env)
      → api.get_data s.world r ≡ some a
      → add_ref api a s ≡ done s1
      → s1.heap a ≡ some c
      → fire a on_remove (record s1 { heap = update s1.heap a (counted c.refcnt detached) })
        ≡ done s2
      → release api a s2 ≡ done s'
      → removed api fire (some r) s ≡ done s'
  unfolding removed from_raw notify_removed
  removed-runs fire r a c s s1 s2 s' g p1 here p2 p3 = rw g (rw p1 (rw here (rw p2 p3)))

  pub toggled-runs :
      (fire : ℕ → WatchEvent → State api Env → Outcome (State api Env)) (r : api.Raw) (a : ℕ)
      (s s1 s2 s' : State api Env)
      → api.get_data s.world r ≡ some a
      → add_ref api a s ≡ done s1
      → fire a on_change s1 ≡ done s2
      → release api a s2 ≡ done s'
      → toggled api fire (some r) s ≡ done s'
  unfolding toggled from_raw notify_toggled
  toggled-runs fire r a s s1 s2 s' g p1 p2 p3 = rw g (rw p1 (rw p2 p3))
