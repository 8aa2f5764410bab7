-- ===== src/Watch/Invariant.antt =====
-- src/watch.cc: the raw pointer of a watch and its flag is_removed, under the calls of clients
-- and of libdbus in any order.
use dbuscc.Base.{
  ℕ, ◌+◌, ◌≡◌, ◌⊎◌, inl, inr, ℤ, pos, sym, Bool, true, false, Option, none, some, update, Outcome,
  done, deref, refl, arith, Option-cases, >>=-eq-done, Bool-cases, subst,
}
use dbuscc.Pointer.{Counted, construct, intrusive_ptr_add_ref, intrusive_ptr_release}
use dbuscc.Pointer.Count.{AllSelf, AllSelf-update, add_ref-AllSelf, release-AllSelf}
use dbuscc.Watch.{
  WatchApi, WatchFlags, Watch, State, WatchEvent, on_change, on_remove, this, fd, enabled, flags,
  handle, create, add_ref, release, unref, to_dbus_flags, from_dbus_flags, toggled, removed,
  notify_removed, from_raw,
}

-- A watch is linked to its raw watch until it is removed.
abbrev pub IsLinked : {Raw : Type 0} → Watch Raw → Type 0
IsLinked {Raw} w =
    ((w.is_removed ≡ true) × (w.raw ≡ none))
    ⊎ ((w.is_removed ≡ false) × ((r : Raw) × (w.raw ≡ some r)))

module _ (api : WatchApi) {Env : Type 0} where
  open api use {Raw}

  abbrev pub AllLinked : State api Env → Type 0
  AllLinked s = AllSelf IsLinked s.heap

  linked_flags :
      (a : ℕ) (s : State api Env) (c : Counted (Watch Raw)) (r : Raw)
      → s.heap a ≡ some c
      → c.self.is_removed ≡ false
      → c.self.raw ≡ some r
      → (fl : WatchFlags) × (flags api a s ≡ done fl)
  unfolding flags enabled
  linked_flags a s c r e here p = elim (Bool-cases (api.get_enabled s.world r)) [
    | inl on ↦ (from_dbus_flags api (api.get_flags s.world r), ground (arith, e, here, p, on))
    | inr off ↦ (0, ground (arith, e, here, p, off))
  ]

  -- On a live watch of such a state every accessor returns: no assertion fails.
  pub accessors_return :
      (a : ℕ) (s : State api Env) (c : Counted (Watch Raw))
      → AllLinked s
      → s.heap a ≡ some c
      → ((x : ℤ) × (fd api a s ≡ done x))
        × ((b : Bool) × (enabled api a s ≡ done b))
        × ((fl : WatchFlags) × (flags api a s ≡ done fl))
        × ((fl : WatchFlags) → (r : Bool × State api Env) × (handle api a fl s ≡ done r))
  unfolding fd enabled flags handle
  accessors_return a s c v e = elim (v a c e) [
    | inl (gone, _) ↦ (
      (pos 0, ground (arith, e, gone)),
      (false, ground (arith, e, gone)),
      (0, ground (arith, e, gone)),
      λ fl. ((false, s), ground (arith, e, gone)),
    )
    | inr (here, (r, p)) ↦ (
      (api.get_unix_fd s.world r, ground (arith, e, here, p)),
      (api.get_enabled s.world r, ground (arith, e, here, p)),
      linked_flags a s c r e here p,
      λ fl.
          let w = to_dbus_flags api fl in
          (
            ((api.handle s.world r w).0, record s { world = (api.handle s.world r w).1 }),
            ground (arith, e, here, p),
          ),
    )
  ]

  pub add_ref-AllLinked :
      (a : ℕ) (s s' : State api Env) → add_ref api a s ≡ done s' → AllLinked s → AllLinked s'
  unfolding add_ref
  add_ref-AllLinked a s s' e v =
      let (h, p, q) = >>=-eq-done (intrusive_ptr_add_ref a s.heap) _ e in
      let same : h ≡ s'.heap = cc (q) in
      subst (AllSelf IsLinked) same (add_ref-AllSelf IsLinked a s.heap h p v)

  pub release-AllLinked :
      (a : ℕ) (s s' : State api Env) → release api a s ≡ done s' → AllLinked s → AllLinked s'
  unfolding release
  release-AllLinked a s s' e v =
      let (h, p, q) = >>=-eq-done (intrusive_ptr_release a s.heap) _ e in
      let same : h ≡ s'.heap = cc (q) in
      subst (AllSelf IsLinked) same (release-AllSelf IsLinked a s.heap h p v)

  pub create-AllLinked :
      (raw : Option Raw) (s : State api Env) (a : ℕ) (s' : State api Env)
      → create api raw s ≡ done (a, s')
      → AllLinked s
      → AllLinked s'
  unfolding create
  create-AllLinked none s a s' e v = cc
  create-AllLinked (some r) s a s' e v =
      let w : Watch Raw = record { raw = some r; is_removed = false } in
      let s1 : State api Env = record s {
        heap = update s.heap s.next (some (construct w));
        next = s.next + 1;
      } in
      let v1 : AllLinked s1 =
        AllSelf-update IsLinked s.next (construct w) s.heap (inr (refl, (r, refl))) v in
      let (s2, p, q) = >>=-eq-done (add_ref api s.next s1) _ e in
      let v2 = add_ref-AllLinked s.next s1 s2 p v1 in
      let s3 : State api Env = record s2 { world = api.set_data s2.world r s.next } in
      let (s4, p', q') = >>=-eq-done (add_ref api s.next s3) _ q in
      let same : s4 ≡ s' = cc (q') in subst AllLinked same (add_ref-AllLinked s.next s3 s4 p' v2)

  pub handle-heap :
      (a : ℕ) (fl : WatchFlags) (s : State api Env) (b : Bool) (s' : State api Env)
      → handle api a fl s ≡ done (b, s')
      → s'.heap ≡ s.heap
  unfolding handle
  handle-heap a fl s b s' e = elim (Option-cases (s.heap a)) [
    | inl n ↦ absurd (ground (arith, n))
    | inr (c, n) ↦ elim (Bool-cases c.self.is_removed) [
      | inl gone ↦ ground (arith, n, gone)
      | inr here ↦ elim (Option-cases c.self.raw) [
        | inl m ↦ absurd (ground (arith, n, here, m))
        | inr (r, m) ↦ ground (arith, n, here, m)
      ]
    ]
  ]

  module _ (fire : ℕ → WatchEvent → State api Env → Outcome (State api Env))
      (keeps : (a : ℕ) (e : WatchEvent) (s s' : State api Env)
        → fire a e s ≡ done s'
        → AllLinked s
        → AllLinked s') where
    pub toggled-AllLinked :
        (raw : Option Raw) (s s' : State api Env)
        → toggled api fire raw s ≡ done s'
        → AllLinked s
        → AllLinked s'
    unfolding toggled
    toggled-AllLinked none s s' e v = cc
    toggled-AllLinked (some r) s s' e v =
        let (a, p0, q0) = >>=-eq-done (from_raw api r s) _ e in
        let (s1, p1, q1) = >>=-eq-done (add_ref api a s) _ q0 in
        let (s2, p2, q2) = >>=-eq-done (fire a on_change s1) _ q1 in
        release-AllLinked a s2 s' q2 (keeps a on_change s1 s2 p2 (add_ref-AllLinked a s s1 p1 v))

    notify_removed-AllLinked :
        (a : ℕ) (s s' : State api Env)
        → notify_removed api fire a s ≡ done s'
        → AllLinked s
        → AllLinked s'
    unfolding notify_removed
    notify_removed-AllLinked a s s' e v =
        let (c, p, q) = >>=-eq-done (deref (s.heap a)) _ e in
        let w : Watch Raw = record { raw = none; is_removed = true } in
        let c' : Counted (Watch Raw) = record c { self = w } in
        keeps a on_remove (record s { heap = update s.heap a (some c') }) s' q
          (AllSelf-update IsLinked a c' s.heap (inl (refl, refl)) v)

    pub removed-AllLinked :
        (raw : Option Raw) (s s' : State api Env)
        → removed api fire raw s ≡ done s'
        → AllLinked s
        → AllLinked s'
    unfolding removed
    removed-AllLinked none s s' e v = cc
    removed-AllLinked (some r) s s' e v =
        let (a, p0, q0) = >>=-eq-done (from_raw api r s) _ e in
        let (s1, p1, q1) = >>=-eq-done (add_ref api a s) _ q0 in
        let (s2, p2, q2) = >>=-eq-done (notify_removed api fire a s1) _ q1 in
        release-AllLinked a s2 s' q2
          (notify_removed-AllLinked a s1 s2 p2 (add_ref-AllLinked a s s1 p1 v))

    -- One call: of libdbus into the callbacks that it is given, or of a client.
    pub data Step (s s' : State api Env) : Type 0 where
      creates : (raw : Option Raw) (a : ℕ) → create api raw s ≡ done (a, s') → Step s s'
      copies : (a : ℕ) → add_ref api a s ≡ done s' → Step s s'
      drops : (a : ℕ) → release api a s ≡ done s' → Step s s'
      unrefs : (p : Option ℕ) → unref api p s ≡ done s' → Step s s'
      toggles : (raw : Option Raw) → toggled api fire raw s ≡ done s' → Step s s'
      removes : (raw : Option Raw) → removed api fire raw s ≡ done s' → Step s s'
      handles : (a : ℕ) (fl : WatchFlags) (b : Bool) → handle api a fl s ≡ done (b, s') → Step s s'

    pub data Reach (s : State api Env) : State api Env → Type 0 where
      here : Reach s s
      next : {u v : State api Env} → Reach s u → Step u v → Reach s v

    Step-AllLinked : (s s' : State api Env) → Step s s' → AllLinked s → AllLinked s'
    unfolding unref handle this
    Step-AllLinked s s' (creates raw a e) v = create-AllLinked raw s a s' e v
    Step-AllLinked s s' (copies a e) v = add_ref-AllLinked a s s' e v
    Step-AllLinked s s' (drops a e) v = release-AllLinked a s s' e v
    Step-AllLinked s s' (unrefs none e) v = cc
    Step-AllLinked s s' (unrefs (some a) e) v = release-AllLinked a s s' e v
    Step-AllLinked s s' (toggles raw e) v = toggled-AllLinked raw s s' e v
    Step-AllLinked s s' (removes raw e) v = removed-AllLinked raw s s' e v
    Step-AllLinked s s' (handles a fl b e) v =
        subst (AllSelf IsLinked) (sym (handle-heap a fl s b s' e)) v

    Reach-AllLinked : {s s' : State api Env} → Reach s s' → AllLinked s → AllLinked s'
    Reach-AllLinked here v = v
    Reach-AllLinked (next r st) v = Step-AllLinked _ _ st (Reach-AllLinked r v)

    -- Whatever libdbus and the clients call, in any order, from a state whose watches are linked,
    -- with slots that keep them linked: on every watch that is alive all four accessors return, so
    -- none of the assertions on the raw pointer fails.
    pub Reach-accessors_return :
        {s s' : State api Env} (a : ℕ) (c : Counted (Watch Raw))
        → Reach s s'
        → AllLinked s
        → s'.heap a ≡ some c
        → ((x : ℤ) × (fd api a s' ≡ done x))
          × ((b : Bool) × (enabled api a s' ≡ done b))
          × ((fl : WatchFlags) × (flags api a s' ≡ done fl))
          × ((fl : WatchFlags) → (r : Bool × State api Env) × (handle api a fl s' ≡ done r))
    Reach-accessors_return {s'} a c r v e = accessors_return a s' c (Reach-AllLinked r v) e
