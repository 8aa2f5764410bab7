-- ===== src/Message/Exchange.antt =====
-- src/message-reader.cc and src/message-writer.cc: what a reader gets of the arguments that a
-- writer pushed.
use dbuscc.Base.{
  ◌+◌, some, Outcome, ℕ, ◌<◌, ◌≡◌, ◌≢◌, refl, ◌∙◌, ap, sym, true, List, [], ◌∷◌, ◌++◌, done,
  if◌then◌else◌, length, arith, subst,
}
use dbuscc.Message.Api.{MessageApi, Bytes, Argument, BasicType, same_type, type_at}
use dbuscc.Pointer.{Store, int_mod}
use dbuscc.Message.{Message, MessageKind, Messages, raw}
use dbuscc.Message.Reader.{MessageReader, new_reader, valid}
use dbuscc.Message.Writer.{MessageWriter, new_writer}
use dbuscc.Message.Ownership.{IsOwned, add_ref-IsOwned}
use dbuscc.Message.Memory.{FixedType, bool, size, dbus_type, pop, push, pop_fits, push_fits}
use dbuscc.Message.Writer.{append_basic}

module _ (api : MessageApi) where
  -- A writer whose iterator is on its message.
  abbrev pub IsOn : ℕ → MessageWriter api → Type 0
  IsOn m w = (w.impl.msg ≡ m) × (api.message_of w.impl.raw ≡ m)

  -- A successful push adds its argument at the end of the message.
  push_adds :
      (f : FixedType) (m : ℕ) (w w' : MessageWriter api) (s s' : Messages api) (v : Bytes)
      → f ≢ bool
      → length v ≡ size f
      → IsOn m w
      → 0 < api.references s.world m
      → push api f v w s ≡ done (true, w', s')
      → IsOn m w'
        × (s.objects ≡ s'.objects)
        × (0 < api.references s'.world m)
        × (api.arguments s'.world m ≡ api.arguments s.world m ++ (dbus_type f, v) ∷ [])
  unfolding append_basic valid
  push_adds f m w w' s s' v n l (o, p) alive e =
      let r = api.append_basic s.world w.impl.raw (dbus_type f) v in
      let e' = sym (push_fits api f w s v n l) ∙ e in
      let live : 0 < api.references s.world w.impl.msg = rw o alive in
      let ok : r.0 ≡ true = ground (arith, e', live) in
      let world : r.1 ≡ s'.world = ground (arith, e', live) in
      let iter : r.2 ≡ w'.impl.raw = ground (arith, e', live) in
      let objects : s.objects ≡ s'.objects = ground (arith, e', live) in
      let msg : w.impl.msg ≡ w'.impl.msg = ground (arith, e', live) in
      let (mo, args, refs) =
        api.append_basic_adds s.world r.1 w.impl.raw r.2 (dbus_type f) v (ground (arith, ok)) in
      (
        (sym msg ∙ o, ap api.message_of (sym iter) ∙ (mo ∙ p)),
        objects,
        subst (λ (x : api.World). 0 < api.references x m) world (rw (refs m) alive),
        subst
            (λ (x : api.World).
              api.arguments x m ≡ api.arguments s.world m ++ (dbus_type f, v) ∷ [])
            world
            (subst
              (λ (k : ℕ). api.arguments r.1 k ≡ api.arguments s.world k ++ (dbus_type f, v) ∷ []) p
              args),
      )

  -- Every pop is answered from the first argument.
  pop_first :
      (f : FixedType) (m : ℕ) (r : MessageReader api) (s : Messages api) (x : Bytes)
      (w0 : api.World) (t : BasicType) (b : Bytes) (l : List Argument)
      → f ≢ bool
      → length x ≡ size f
      → r.impl.msg ≡ m
      → r.impl.raw ≡ api.iter_init w0 m
      → 0 < api.references s.world m
      → api.arguments s.world m ≡ (t, b) ∷ l
      → pop api f r s x
        ≡ done (same_type t (dbus_type f), (if same_type t (dbus_type f) then b else x))
  pop_first f m r s x w0 t b l n len o i alive args =
      let ty : api.get_arg_type s.world r.impl.raw ≡ t =
        ap (api.get_arg_type s.world) i
        ∙ (api.get_arg_type-iter_init w0 s.world m ∙ ap type_at args) in
      let val : api.get_basic s.world r.impl.raw ≡ b =
        ap (api.get_basic s.world) i ∙ api.get_basic-iter_init w0 s.world m t b l args in
      pop_fits api f r s x n len (rw o alive) ∙ rw (ty, val) refl

  -- A new writer is on the raw message of the object that it shares.
  new_writer-IsOn :
      (a n : ℕ) (kind : MessageKind) (m : ℕ) (s s' : Messages api) (w : MessageWriter api)
      → IsOwned api a n kind m s
      → n + 1 < int_mod
      → new_writer api (some a) s ≡ done (w, s')
      → IsOn m w × IsOwned api a (n + 1) kind m s' × (s.world ≡ s'.world)
  unfolding new_writer raw
  new_writer-IsOn a n kind m s s' w own small e =
      let (t, p, owned, world) = add_ref-IsOwned api a n kind m s own small in
      let made : MessageWriter api = record {
        msg = some a;
        impl = record { msg = m; raw = api.iter_init_append t.world m };
      } in
      let runs : new_writer api (some a) s ≡ done (made, t) = rw (p, owned) refl in
      let same : ◌≡◌ {A = Outcome (MessageWriter api × Messages api)} (done (made, t))
          (done (w, s')) =
        sym runs ∙ e in
      let writer : made ≡ w = cc (same) in
      let state : t ≡ s' = cc (same) in
      (
        subst (IsOn m) writer (refl, api.message_of-iter_init_append t.world m),
        subst (IsOwned api a (n + 1) kind m) state owned,
        sym world ∙ ap (λ (x : Messages api). x.world) state,
      )

  -- A new reader is at the first argument of the raw message.
  new_reader-first :
      (a n : ℕ) (kind : MessageKind) (m : ℕ) (s : Messages api)
      → IsOwned api a n kind m s
      → n + 1 < int_mod
      → (r : MessageReader api) × (s' : Messages api) × (new_reader api (some a) s ≡ done (r, s'))
        × (r.impl.msg ≡ m)
        × (r.impl.raw ≡ api.iter_init s'.world m)
        × (s.world ≡ s'.world)
  unfolding new_reader raw
  new_reader-first a n kind m s own small =
      let (t, p, owned, world) = add_ref-IsOwned api a n kind m s own small in
      (
        record { msg = some a; impl = record { msg = m; raw = api.iter_init t.world m } },
        t,
        rw (p, owned) refl,
        refl,
        refl,
        sym world,
      )

  -- A message object has fewer than 2 ^ 32 - 2 owners, and its message a reference and no
  -- arguments. A writer is constructed on it, and pushes two values of fixed types other than
  -- bool, for which libdbus has memory, each from an object of its size. Then a reader can be
  -- constructed on it. With objects of the sizes of the types, the pop of the first type gives
  -- back the first value, and so does every later one; the second value is never read: a pop of
  -- its type gives the first value again, or false if the types differ.
  pub pop-push :
      (f g : FixedType) (a n : ℕ) (kind : MessageKind) (m : ℕ) (w w1 w2 : MessageWriter api)
      (s s1 s2 s3 : Messages api) (u v x y : Bytes)
      → f ≢ bool
      → g ≢ bool
      → length u ≡ size f
      → length v ≡ size g
      → length x ≡ size f
      → length y ≡ size g
      → s.objects a ≡ some (record { refcnt = n; self = record { kind = kind; raw = m } })
      → n + 2 < int_mod
      → 0 < api.references s.world m
      → api.arguments s.world m ≡ []
      → new_writer api (some a) s ≡ done (w, s1)
      → push api f u w s1 ≡ done (true, w1, s2)
      → push api g v w1 s2 ≡ done (true, w2, s3)
      → (r : MessageReader api) × (s4 : Messages api) × (new_reader api (some a) s3 ≡ done (r, s4))
        × (pop api f r s4 x ≡ done (true, u))
        × (pop api f r s4 u ≡ done (true, u))
        × (pop api g r s4 y
            ≡ done (
              same_type (dbus_type f) (dbus_type g),
              (if same_type (dbus_type f) (dbus_type g) then u else y),
            ))
  pop-push f g a n kind m w w1 w2 s s1 s2 s3 u v x y nf ng lu lv lx ly own small alive none_ e0 e1
        e2 =
      let (on, own1, same) = new_writer-IsOn a n kind m s s1 w own (omega (arith, small)) e0 in
      let alive1 : 0 < api.references s1.world m =
        subst (λ (k : api.World). 0 < api.references k m) same alive in
      let (on2, objects, alive2, args2) = push_adds f m w w1 s1 s2 u nf lu on alive1 e1 in
      let (on3, objects', alive3, args3) = push_adds g m w1 w2 s2 s3 v ng lv on2 alive2 e2 in
      let own3 : IsOwned api a (n + 1) kind m s3 =
        subst
          (λ (o : Store Message).
            o a ≡ some (record { refcnt = n + 1; self = record { kind = kind; raw = m } }))
          (objects ∙ objects') own1 in
      let (r, s4, made, msg, first, same') =
        new_reader-first a (n + 1) kind m s3 own3 (omega (arith, small)) in
      let alive4 : 0 < api.references s4.world m =
        subst (λ (k : api.World). 0 < api.references k m) same' alive3 in
      let args : api.arguments s4.world m ≡ (dbus_type f, u) ∷ (dbus_type g, v) ∷ [] =
        ap (λ (k : api.World). api.arguments k m) (sym same')
        ∙ (args3
            ∙ ap (λ l. l ++ (dbus_type g, v) ∷ [])
                (args2
                  ∙ ap (λ l. l ++ (dbus_type f, u) ∷ [])
                      (ap (λ (k : api.World). api.arguments k m) (sym same) ∙ none_))) in
      let self : same_type (dbus_type f) (dbus_type f) ≡ true = ground arith in
      (
        r,
        s4,
        made,
        pop_first f m r s4 x s4.world _ _ _ nf lx msg first alive4 args ∙ rw self,
        pop_first f m r s4 u s4.world _ _ _ nf lu msg first alive4 args ∙ rw self,
        pop_first g m r s4 y s4.world _ _ _ ng ly msg first alive4 args,
      )
