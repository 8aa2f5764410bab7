-- ===== src/Adapter/Own/Add.antt =====
-- src/connection.cc, src/tscb-adapter.cc: a watch that libdbus adds has libdbus and its context
-- as owners.
use dbuscc.Base.{
  ℕ, suc, ◌+◌, ◌≡◌, inl, inr, false, Option, some, ◌==◌, [], ◌∷◌, ◌++◌, update, update-same, done,
  >>=-eq-done, sym, ap, ◌∙◌, arith, Bool-cases, subst,
}
use dbuscc.Watch.{WatchApi, State, add_ref}
use dbuscc.Watch.Removal.{counted, linked_to}
use dbuscc.Watch.Values.{create-created, created, created-live}
use dbuscc.Connection.Sources.{add_watch}
use dbuscc.Adapter.{IoCtx, Adapter, on_watch_add}
use dbuscc.Adapter.Removal.{idle_ctx}
use dbuscc.Adapter.Own.{held_in, held_below, plus, Held, pointers, IsCounted}
use dbuscc.Adapter.Own.Sum.{held_below-outside}
use dbuscc.Adapter.Own.Heap.{Held-same, Held-heap}
use dbuscc.Adapter.Own.Calls.{add_ref-IsCounted, release-IsCounted}
use dbuscc.Adapter.Own.Slots.{AtMost, plus-AtMost, IsSmall, pointers-small}

module _ (api : WatchApi) where
  -- The object of the watch, held by libdbus and by the watch_ptr of add_watch.
  abbrev with_two : (ℕ → ℕ) → ℕ → ℕ → ℕ
  with_two others a = plus (plus others (some a)) (some a)

  created-IsCounted :
      (others : ℕ → ℕ) (r : api.Raw) (s : State api Adapter)
      → IsCounted api others s
      → IsCounted api (with_two others s.next) (created api r s)
  created-IsCounted others r s v =
      let t = created api r s in
      let n = pointers api (with_two others s.next) t in
      let new : n s.next ≡ 2 = ground (arith, v.fresh s.next (omega arith)) in
      let old : (b : ℕ) → (s.next == b) ≡ false → n b ≡ pointers api others s b =
        λ b p. ground (arith, p) in
      record {
        counts = λ b. elim (Bool-cases (s.next == b)) [
          | inl p ↦
              let same : s.next ≡ b = ground (arith, p) in
              subst (λ (x : ℕ). Held (n x) t.heap x) same
                (
                  omega (arith, new),
                  inr (
                    omega (arith, new),
                    linked_to r,
                    created-live api r s ∙ ap (λ (k : ℕ). counted k (linked_to r)) (sym new),
                  ),
                )
          | inr p ↦
              Held-same (pointers api others s b) (n b) t.heap b (sym (old b p)) (
                Held-heap (pointers api others s b) s.heap t.heap b (ground (arith, p))
                  (v.counts b))
        ];
        fresh = λ b l.
            let miss : (s.next == b) ≡ false = ground (arith, l) in
            old b miss ∙ v.fresh b (omega (arith, l));
        outside = v.outside;
      }

  abbrev with_context : State api Adapter → ℕ → State api Adapter
  with_context s a = record s {
    env = record {
      contexts = update s.env.contexts s.env.next (some (idle_ctx a));
      slots_of = update s.env.slots_of a (s.env.slots_of a ++ s.env.next ∷ []);
      posted = s.env.posted ++ s.env.next ∷ [];
      next = s.env.next + 1;
    };
  }

  -- A new context takes a pointer over from others.
  grown-IsCounted :
      (others : ℕ → ℕ) (a : ℕ) (s : State api Adapter)
      → IsCounted api (plus others (some a)) s
      → IsCounted api others (with_context s a)
  grown-IsCounted others a s v =
      let m' = update s.env.contexts s.env.next (some (idle_ctx a)) in
      let same : (b : ℕ)
          → pointers api (plus others (some a)) s b ≡ pointers api others (with_context s a) b =
        λ b.
          let now : held_in (m' s.env.next) b ≡ held_in (some (idle_ctx a)) b =
            ap (λ (o : Option IoCtx). held_in o b) (update-same s.env.next s.env.contexts) in
          let sum =
            held_below-outside s.env.contexts s.env.next (some (idle_ctx a)) s.env.next b
              (omega arith) in
          let step : held_below m' (s.env.next + 1) b
              ≡ held_below m' s.env.next b + held_in (m' s.env.next) b =
            let plus_one : s.env.next + 1 ≡ suc s.env.next = omega arith in
            ap (λ (n : ℕ). held_below m' n b) plus_one in
          omega (arith, now, sum, step) in
      record {
        counts = λ b.
            Held-same (pointers api (plus others (some a)) s b) _ s.heap b (same b) (v.counts b);
        fresh = λ b l. sym (same b) ∙ v.fresh b l;
        outside = λ c l. let gone = v.outside c (omega (arith, l)) in ground (arith, l, gone);
      }

  on_watch_add-IsCounted :
      (others : ℕ → ℕ) (a : ℕ) (s s' : State api Adapter)
      → on_watch_add api a s ≡ done s'
      → AtMost 3 others
      → IsSmall api s
      → IsCounted api others s
      → IsCounted api others s'
  unfolding on_watch_add
  on_watch_add-IsCounted others a s s' e few small v =
      let (s1, p, q) = >>=-eq-done (add_ref api a s) _ e in
      let (pos, h, same, v1) =
        add_ref-IsCounted api others a s s1 p (pointers-small api others s a few small) v in
      let end : with_context (record s { heap = h }) a ≡ s' =
        ap (λ (x : State api Adapter). with_context x a) same ∙ cc (q) in
      subst (IsCounted api others) end (grown-IsCounted others a (record s { heap = h }) v1)

  pub add_watch-IsCounted :
      (others : ℕ → ℕ) (r : api.Raw) (s s' : State api Adapter)
      → add_watch api (on_watch_add api) (some r) s ≡ done s'
      → AtMost 1 others
      → IsSmall api s
      → IsCounted api others s
      → IsCounted api (plus others (some s.next)) s'
  unfolding add_watch
  add_watch-IsCounted others r s s' e few small v =
      let t = created api r s in
      let (s2, p, q) =
        >>=-eq-done (on_watch_add api s.next t) _ (rw (create-created api r s) at e) in
      let two =
        plus-AtMost 2 (plus others (some s.next)) s.next (plus-AtMost 1 others s.next few) in
      let v2 =
        on_watch_add-IsCounted (with_two others s.next) s.next t s2 p two small
          (created-IsCounted others r s v) in
      let (h, same, drops) = release-IsCounted api s.next s2 s' q in
      subst (IsCounted api (plus others (some s.next))) same
        (drops (plus others (some s.next)) s2.env v2)
