-- ===== src/Adapter/Own/Heap.antt =====
-- src/watch.cc: taking and dropping a reference keeps the counts.
use dbuscc.Base.{
  ℕ, ◌+◌, ◌-◌, ◌<◌, ◌≡◌, ◌⊎◌, refl, inl, inr, false, Option, none, some, ◌==◌, update, update-same,
  done, sym, ap, ◌∙◌, arith, Bool-cases, subst,
}
use dbuscc.Pointer.{Store, Counted, int_mod, intrusive_ptr_add_ref, intrusive_ptr_release}
use dbuscc.Pointer.Count.{add_ref-done, release_last, release-done}
use dbuscc.Watch.{Watch}
use dbuscc.Watch.Removal.{counted}
use dbuscc.Adapter.Own.{points, Held}

done-injective : {A : Type 0} {x y : A} → done x ≡ done y → x ≡ y
done-injective e = cc (e)

module _ {Raw : Type 0} where
  abbrev HeldAs : ℕ → Option (Counted (Watch Raw)) → Type 0
  HeldAs n o =
      (n < int_mod) × (((n ≡ 0) × (o ≡ none)) ⊎ ((0 < n) × (w : Watch Raw) × (o ≡ counted n w)))

  Held-at :
      (n : ℕ → ℕ) (a : ℕ) (o : Option (Counted (Watch Raw))) (h : Store (Watch Raw))
      → HeldAs (n a) o
      → ((b : ℕ) → (a == b) ≡ false → Held (n b) h b)
      → (b : ℕ) → Held (n b) (update h a o) b
  Held-at n a o h now others b = elim (Bool-cases (a == b)) [
    | inl p ↦
        let same : a ≡ b = ground (arith, p) in
        subst (λ (x : ℕ). Held (n x) (update h a o) x) same
          (subst (λ (y : Option (Counted (Watch Raw))). HeldAs (n a) y) (sym (update-same a h)) now)
    | inr p ↦
        let same : h b ≡ update h a o b = ground (arith, p) in
        subst (λ (y : Option (Counted (Watch Raw))). HeldAs (n b) y) same (others b p)
  ]

  pub Held-counted :
      (n : ℕ → ℕ) (a k : ℕ) (w : Watch Raw) (h : Store (Watch Raw))
      → n a ≡ k
      → 0 < k
      → k < int_mod
      → ((b : ℕ) → (a == b) ≡ false → Held (n b) h b)
      → (b : ℕ) → Held (n b) (update h a (counted k w)) b
  Held-counted n a k w h same pos small others =
      Held-at n a (counted k w) h
        (
          omega (arith, same, small),
          inr (omega (arith, same, pos), w, ap (λ (x : ℕ). counted x w) (sym same)),
        )
        others

  Held-erased :
      (n : ℕ → ℕ) (a : ℕ) (h : Store (Watch Raw))
      → n a ≡ 0
      → ((b : ℕ) → (a == b) ≡ false → Held (n b) h b)
      → (b : ℕ) → Held (n b) (update h a none) b
  Held-erased n a h z others = Held-at n a none h (omega (arith, z), inl (z, refl)) others

  -- The number of pointers may be written in another way.
  pub Held-same : (n n' : ℕ) (h : Store (Watch Raw)) (a : ℕ) → n ≡ n' → Held n h a → Held n' h a
  Held-same n n' h a same v = subst (λ (k : ℕ). Held k h a) same v

  pub Held-heap : (n : ℕ) (h h' : Store (Watch Raw)) (b : ℕ) → h b ≡ h' b → Held n h b → Held n h' b
  Held-heap n h h' b same v = subst (λ (o : Option (Counted (Watch Raw))). HeldAs n o) same v

  pub add_ref-Held :
      (n : ℕ → ℕ) (a : ℕ) (h h' : Store (Watch Raw))
      → intrusive_ptr_add_ref a h ≡ done h'
      → n a + 1 < int_mod
      → ((b : ℕ) → Held (n b) h b)
      → (0 < n a) × ((b : ℕ) → Held (n b + points (some a) b) h' b)
  unfolding intrusive_ptr_add_ref
  add_ref-Held n a h h' e small v = elim (v a).1 [
    | inl (z, gone) ↦ absurd (ground (arith, gone, e))
    | inr (pos, w, here) ↦
        let same : update h a (counted (n a + 1) w) ≡ h' =
          done-injective (sym (add_ref-done a (n a) w h here small) ∙ e) in
        (
          pos,
          subst (λ (x : Store (Watch Raw)). (b : ℕ) → Held (n b + points (some a) b) x b) same
              (Held-counted (λ b. n b + points (some a) b) a (n a + 1) w h (ground arith)
                (omega arith) small
                (λ b p. Held-same (n b) (n b + points (some a) b) h b (ground (arith, p)) (v b))),
        )
  ]

  pub release-Held :
      (n : ℕ → ℕ) (a : ℕ) (h h' : Store (Watch Raw))
      → intrusive_ptr_release a h ≡ done h'
      → ((b : ℕ) → Held (n b + points (some a) b) h b)
      → (b : ℕ) → Held (n b) h' b
  unfolding intrusive_ptr_release
  release-Held n a h h' e v =
      let one : n a + points (some a) a ≡ n a + 1 = ground arith in
      let others : (b : ℕ) → (a == b) ≡ false → Held (n b) h b =
        λ b p. Held-same (n b + points (some a) b) (n b) h b (ground (arith, p)) (v b) in
      elim (Held-same (n a + points (some a) a) (n a + 1) h a one (v a)).1 [
        | inl (z, gone) ↦ absurd (omega (arith, z))
        | inr (pos, w, here) ↦ elim (Bool-cases (n a == 0)) [
          | inl last ↦
              let z : n a ≡ 0 = ground (arith, last) in
              let same : update h a none ≡ h' =
                done-injective (sym (release_last a (n a + 1) w h here (omega (arith, z))) ∙ e) in
              subst (λ (x : Store (Watch Raw)). (b : ℕ) → Held (n b) x b) same
                (Held-erased n a h z others)
          | inr more ↦
              let pos' : 0 < n a = ground (arith, more) in
              let small : n a + 1 < int_mod =
                (Held-same (n a + points (some a) a) (n a + 1) h a one (v a)).0 in
              let same : update h a (counted (n a + 1 - 1) w) ≡ h' =
                done-injective
                  (sym (release-done a (n a + 1) w h here (omega (arith, pos')) small) ∙ e) in
              subst (λ (x : Store (Watch Raw)). (b : ℕ) → Held (n b) x b) same
                (Held-counted n a (n a + 1 - 1) w h (omega arith) (omega (arith, pos'))
                  (omega (arith, small)) others)
        ]
      ]
