-- ===== src/Adapter/Own/Calls.antt =====
-- src/tscb-adapter.cc: on_watch_change and on_watch_remove keep the counts of the watches.
use dbuscc.Base.{
  leb, ℕ, ◌+◌, ◌<◌, ◌≡◌, inl, inr, Option, some, ◌==◌, update, done, sym, ap, ◌∙◌, arith,
  Bool-cases,
}
use dbuscc.Pointer.{Store, int_mod}
use dbuscc.Watch.{WatchApi, Watch, State, add_ref, release}
use dbuscc.Watch.Frame.{add_ref-parts, release-parts}
use dbuscc.Adapter.{IoCtx, Adapter}
use dbuscc.Adapter.Own.{points, held_in, held_below, plus, pointers, IsCounted}
use dbuscc.Adapter.Own.Sum.{held_below-update}
use dbuscc.Adapter.Own.Heap.{Held-same, add_ref-Held, release-Held}

module _ (api : WatchApi) where
  pub same-IsCounted :
      (others others' : ℕ → ℕ) (s : State api Adapter)
      → ((b : ℕ) → others b ≡ others' b)
      → IsCounted api others s
      → IsCounted api others' s
  same-IsCounted others others' s same v = record {
    counts = λ b.
        Held-same (pointers api others s b) (pointers api others' s b) s.heap b
          (omega (arith, same b)) (v.counts b);
    fresh = λ b l. omega (arith, same b, v.fresh b l);
    outside = v.outside;
  }

  pub add_ref-IsCounted :
      (others : ℕ → ℕ) (a : ℕ) (s s' : State api Adapter)
      → add_ref api a s ≡ done s'
      → pointers api others s a + 1 < int_mod
      → IsCounted api others s
      → (0 < pointers api others s a)
        × (h : Store (Watch api.Raw)) × (record s { heap = h } ≡ s')
        × IsCounted api (plus others (some a)) (record s { heap = h })
  add_ref-IsCounted others a s s' e small v =
      let (h, p, same) = add_ref-parts api a s s' e in
      let (pos, held) = add_ref-Held (pointers api others s) a s.heap h p small v.counts in
      (
        pos,
        h,
        same,
        record {
          counts = λ b.
              Held-same (pointers api others s b + points (some a) b)
                (pointers api (plus others (some a)) s b) h b (omega arith) (held b);
          fresh = λ b l. elim (Bool-cases (a == b)) [
            | inl q ↦
                let hit : a ≡ b = ground (arith, q) in
                let z : pointers api others s a ≡ 0 =
                  ap (λ (x : ℕ). pointers api others s x) hit ∙ v.fresh b l in
                absurd (omega (arith, pos, z))
            | inr q ↦
                let none_here : points (some a) b ≡ 0 = ground (arith, q) in
                omega (arith, none_here, v.fresh b l)
          ];
          outside = v.outside;
        },
      )

  pub release-IsCounted :
      (a : ℕ) (s s' : State api Adapter)
      → release api a s ≡ done s'
      → (h : Store (Watch api.Raw)) × (record s { heap = h } ≡ s')
        × ((others : ℕ → ℕ) (env : Adapter)
            → IsCounted api (plus others (some a)) (record s { env = env })
            → IsCounted api others (record s { heap = h; env = env }))
  release-IsCounted a s s' e =
      let (h, p, same) = release-parts api a s s' e in
      (
        h,
        same,
        λ others env v.
            let t : State api Adapter = record s { env = env } in
            record {
              counts = release-Held (pointers api others t) a s.heap h p (λ b.
                  Held-same (pointers api (plus others (some a)) t b)
                    (pointers api others t b + points (some a) b) s.heap b (omega arith)
                    (v.counts b));
              fresh = λ b l. omega (arith, v.fresh b l);
              outside = v.outside;
            },
      )

  -- A context takes pointers over from others, or gives them up.
  pub move-IsCounted :
      (others others' : ℕ → ℕ) (c : ℕ) (ctx ctx' : IoCtx) (s : State api Adapter)
      → s.env.contexts c ≡ some ctx
      → ((b : ℕ) → others' b + held_in (some ctx') b ≡ others b + held_in (some ctx) b)
      → IsCounted api others s
      → IsCounted api others'
          (record s { env = record (s.env) { contexts = update s.env.contexts c (some ctx') } })
  move-IsCounted others others' c ctx ctx' s here even v =
      let m' = update s.env.contexts c (some ctx') in
      let inside : c < s.env.next = elim (Bool-cases (leb s.env.next c)) [
        | inl p ↦ let gone = v.outside c (ground (arith, p)) in absurd (cc (gone, here))
        | inr p ↦ ground (arith, p)
      ] in
      let same : (b : ℕ)
          → others b + held_below s.env.contexts s.env.next b
            ≡ others' b + held_below m' s.env.next b =
        λ b.
          let old : held_in (s.env.contexts c) b ≡ held_in (some ctx) b =
            ap (λ (o : Option IoCtx). held_in o b) here in
          let sum = held_below-update s.env.contexts c (some ctx') s.env.next b inside in
          omega (arith, even b, old, sum) in
      record {
        counts = λ b. Held-same (pointers api others s b) _ s.heap b (same b) (v.counts b);
        fresh = λ b l. sym (same b) ∙ v.fresh b l;
        outside = λ k l. ground (arith, inside, l, v.outside k l);
      }
