-- ===== src/Message/Ownership.antt =====
-- src/call-message.cc and its siblings, and src/message-reader.cc: who keeps a DBusMessage alive.
use dbuscc.Base.{
  subst, ℕ, ◌+◌, ◌-◌, ◌<◌, ◌≡◌, refl, ◌∙◌, ap, Bool, none, some, Outcome, done, fault, update,
  arith,
}
use dbuscc.Pointer.{construct, int_mod}
use dbuscc.Pointer.Count.{add_ref-done, release_last, release-done}
use dbuscc.Message.Api.{MessageApi, Bytes}
use dbuscc.Message.{Message, MessageKind, Messages, add_ref, release, create, raw}
use dbuscc.Message.Reader.{
  MessageReader, new_reader, create_reader, copy_reader, destroy_reader, pop_fixed, get_basic,
  valid,
}
use dbuscc.Message.Memory.{FixedType, pop, pop-pop_fixed}

module _ (api : MessageApi) where
  -- A message object with some owners.
  abbrev pub IsOwned : ℕ → ℕ → MessageKind → ℕ → Messages api → Type 0
  IsOwned a n kind m s =
      s.objects a ≡ some (record { refcnt = n; self = record { kind = kind; raw = m } })

  module _ (a n : ℕ) (kind : MessageKind) (m : ℕ) (s : Messages api)
      (own : IsOwned a n kind m s) where
    pub add_ref-IsOwned :
        n + 1 < int_mod
        → (s' : Messages api) × (add_ref api a s ≡ done s')
          × IsOwned a (n + 1) kind m s'
          × (s'.world ≡ s.world)
    unfolding add_ref
    add_ref-IsOwned b = (
      record s {
        objects =
            update s.objects a
              (some (record { refcnt = n + 1; self = record { kind = kind; raw = m } }));
      },
      rw (add_ref-done a n _ s.objects own b),
      ground arith,
      refl,
    )

    release-IsOwned :
        1 < n
        → n < int_mod
        → (s' : Messages api) × (release api a s ≡ done s')
          × IsOwned a (n - 1) kind m s'
          × (s'.world ≡ s.world)
    unfolding release
    release-IsOwned more small = (
      record s {
        objects =
            update s.objects a
              (some (record { refcnt = n - 1; self = record { kind = kind; raw = m } }));
      },
      rw own (rw (release-done a n _ s.objects own more small) (ground arith)),
      ground arith,
      refl,
    )

    release_last_owned :
        n ≡ 1
        → (s' : Messages api) × (release api a s ≡ done s')
          × (s'.objects a ≡ none)
          × (s'.world ≡ api.message_unref s.world m)
    unfolding release
    release_last_owned one = (
      record s { objects = update s.objects a none; world = api.message_unref s.world m },
      rw own (rw (release_last a n _ s.objects own one) (ground arith)),
      ground arith,
      refl,
    )

  create-IsOwned :
      (kind : MessageKind) (m : ℕ) (s : Messages api)
      → (s' : Messages api) × (create api kind (some m) s ≡ done (s.next, s'))
        × IsOwned s.next 1 kind m s'
        × (s'.world ≡ s.world)
  unfolding create
  create-IsOwned kind m s =
      let t : Message = record { kind = kind; raw = m } in
      let s0 : Messages api = record s {
        objects = update s.objects s.next (some (construct t));
        next = s.next + 1;
      } in
      let (s1, p, o, w) = add_ref-IsOwned s.next 0 kind m s0 (ground arith) (omega arith) in
      (s1, rw p, o, w)

  new_reader-IsOwned :
      (a n : ℕ) (kind : MessageKind) (m : ℕ) (s : Messages api)
      → IsOwned a n kind m s
      → n + 1 < int_mod
      → (r : MessageReader api) × (s' : Messages api) × (new_reader api (some a) s ≡ done (r, s'))
        × (r.msg ≡ some a)
        × (r.impl.msg ≡ m)
        × IsOwned a (n + 1) kind m s'
        × (s'.world ≡ s.world)
  unfolding new_reader raw
  new_reader-IsOwned a n kind m s own b =
      let (s', p, o, w) = add_ref-IsOwned a n kind m s own b in
      (
        record { msg = some a; impl = record { msg = m; raw = api.iter_init s'.world m } },
        s',
        rw p (rw o),
        refl,
        refl,
        o,
        w,
      )

  create_reader-IsOwned :
      (a n : ℕ) (kind : MessageKind) (m : ℕ) (s : Messages api)
      → IsOwned a n kind m s
      → n + 2 < int_mod
      → 0 < n
      → (r : MessageReader api) × (s' : Messages api) × (create_reader api a s ≡ done (r, s'))
        × (r.msg ≡ some a)
        × (r.impl.msg ≡ m)
        × IsOwned a (n + 1) kind m s'
        × (s'.world ≡ s.world)
  unfolding create_reader
  create_reader-IsOwned a n kind m s own b pos =
      let (s1, p1, o1, w1) = add_ref-IsOwned a n kind m s own (omega arith) in
      let (r, s2, p2, rm, ri, o2, w2) = new_reader-IsOwned a (n + 1) kind m s1 o1 (omega arith) in
      let (s3, p3, o3, w3) =
        release-IsOwned a (n + 1 + 1) kind m s2 o2 (omega arith) (omega arith) in
      (
        r,
        s3,
        rw p1 (rw p2 (rw p3 refl)),
        rm,
        ri,
        subst (λ (k : ℕ). IsOwned a k kind m s3) (omega arith) o3,
        w3 ∙ (w2 ∙ w1),
      )

  -- A pop on a reader whose raw message is gone uses freed memory.
  pop_gone :
      (f : FixedType) (r : MessageReader api) (s : Messages api) (v : Bytes)
      → api.references s.world r.impl.msg ≡ 0
      → pop api f r s v ≡ fault
  unfolding pop_fixed get_basic valid
  pop_gone f r s v z =
      ap (λ (p : MessageReader api → Messages api → Bytes → Outcome (Bool × Bytes)). p r s v)
        (pop-pop_fixed api f)
      ∙ ground (arith, z)

  -- A message object that is created for a raw message, and the reader that it creates: it keeps
  -- the object when the client lets go of it, and destroying the reader deletes the object and
  -- gives back the one reference to the raw message, no sooner.
  pub reader_keeps_message :
      (kind : MessageKind) (m : ℕ) (s : Messages api)
      → 0 < api.references s.world m
      → (s1 s2 s3 s4 : Messages api) × (r : MessageReader api) × (create api kind (some m) s
          ≡ done (s.next, s1))
        × (create_reader api s.next s1 ≡ done (r, s2))
        × (release api s.next s2 ≡ done s3)
        × (api.references s3.world m ≡ api.references s.world m)
        × (destroy_reader api r s3 ≡ done s4)
        × (s4.objects s.next ≡ none)
        × (api.references s4.world m + 1 ≡ api.references s.world m)
  unfolding destroy_reader
  reader_keeps_message kind m s alive =
      let a = s.next in
      let (s1, p1, o1, w1) = create-IsOwned kind m s in
      let (r, s2, p2, rm, ri, o2, w2) =
        create_reader-IsOwned a 1 kind m s1 o1 (omega arith) (omega arith) in
      let (s3, p3, o3, w3) = release-IsOwned a 2 kind m s2 o2 (omega arith) (omega arith) in
      let (s4, p4, g4, w4) = release_last_owned a 1 kind m s3 o3 refl in
      let w : s3.world ≡ s.world = w3 ∙ (w2 ∙ w1) in
      let same : api.references s3.world m ≡ api.references s.world m =
        ap (λ (x : api.World). api.references x m) w in
      let live : 0 < api.references s3.world m = rw same alive in
      let given : api.references s4.world m + 1 ≡ api.references s.world m =
        rw w4 (ground (arith, same, api.references-message_unref s3.world m m live)) in
      (s1, s2, s3, s4, r, p1, p2, p3, same, ground (arith, rm, p4), g4, given)

  -- A copy of a reader shares the iterator and not the ownership: destroying it changes nothing,
  -- and once the original, as the last owner, is destroyed, every pop of a fixed type on the copy
  -- uses a message that was freed.
  pub copy_dangles :
      (f : FixedType) (a : ℕ) (kind : MessageKind) (m : ℕ) (r : MessageReader api)
      (s : Messages api) (v : Bytes)
      → IsOwned a 1 kind m s
      → r.msg ≡ some a
      → r.impl.msg ≡ m
      → api.references s.world m ≡ 1
      → (destroy_reader api (copy_reader api r) s ≡ done s)
        × ((s' : Messages api) × (destroy_reader api r s ≡ done s')
            × (pop api f (copy_reader api r) s' v ≡ fault))
  unfolding destroy_reader copy_reader
  copy_dangles f a kind m r s v own rm ri one =
      let (s', p, g, w) = release_last_owned a 1 kind m s own refl in
      let live : 0 < api.references s.world m = omega (arith, one) in
      let gone : api.references (api.message_unref s.world m) r.impl.msg ≡ 0 =
        rw ri (ground (arith, one, api.references-message_unref s.world m m live)) in
      (refl, (s', ground (arith, rm, p), pop_gone f (copy_reader api r) s' v (rw w gone)))
