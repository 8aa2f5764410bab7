-- ===== src/Signal/View.antt =====
-- include/yash.hpp: the numbers and functions of the callbacks that a signal lists.
use dbuscc.Base.{
  >>=-ext, ℕ, ◌≡◌, refl, ◌==◌, true, false, none, some, List, [], ◌∷◌, ◌++◌, contains, Distinct,
  update, length, Outcome, ◌>>=◌, arith, Bool-cases, Option-cases, inl, inr, ap, ◌∙◌, sym, is_some,
}
use dbuscc.Signal.{Signal, Callback, erase_first}
use dbuscc.Signal.Listing.{strike, lists, fold_slots}
use dbuscc.Signal.Emission.{deliver}

module _ {Slot : Type 0} where
  unfoldable pub view : (ℕ → Callback Slot) → List ℕ → List (ℕ × Slot)
  view m [] = []
  view m (a ∷ xs) = elim (m a).fn [ none ↦ view m xs | some f ↦ (a, f) ∷ view m xs ]

  pub view-frame :
      (m : ℕ → Callback Slot) (a : ℕ) (c : Callback Slot) (xs : List ℕ)
      → contains a xs ≡ false
      → view (update m a c) xs ≡ view m xs
  unfolding view
  view-frame m a c [] h = refl
  view-frame m a c (x ∷ xs) h = elim (Option-cases (m x).fn) [
    | inl p ↦ ground (arith, h, p, view-frame m a c xs)
    | inr (f, p) ↦ ground (arith, h, p, view-frame m a c xs)
  ]

  pub view-append :
      (m : ℕ → Callback Slot) (xs : List ℕ) (a : ℕ) (f : Slot)
      → (m a).fn ≡ some f
      → view m (xs ++ a ∷ []) ≡ view m xs ++ (a, f) ∷ []
  unfolding view
  view-append m [] a f p = rw p refl
  view-append m (x ∷ xs) a f p = elim (Option-cases (m x).fn) [
    | inl q ↦ ground (arith, q, view-append m xs a f p)
    | inr (g, q) ↦ ground (arith, q, view-append m xs a f p)
  ]

  pub strike-unlisted :
      (m : ℕ → Callback Slot) (a : ℕ) (xs : List ℕ)
      → contains a xs ≡ false
      → strike a (view m xs) ≡ view m xs
  unfolding view
  strike-unlisted m a [] h = refl
  strike-unlisted m a (x ∷ xs) h = elim (Option-cases (m x).fn) [
    | inl p ↦ ground (arith, h, p, strike-unlisted m a xs)
    | inr (f, p) ↦ ground (arith, h, p, strike-unlisted m a xs)
  ]

  pub view-erase_first :
      (m : ℕ → Callback Slot) (a : ℕ) (xs : List ℕ)
      → Distinct xs
      → view m (erase_first a xs) ≡ strike a (view m xs)
  unfolding view erase_first
  view-erase_first m a [] d = refl
  view-erase_first m a (x ∷ xs) d = elim (Bool-cases (x == a)) [
    | inl p ↦ elim (Option-cases (m x).fn) [
      | inl q ↦ ground (arith, p, q, d, strike-unlisted m a xs)
      | inr (f, q) ↦ ground (arith, p, q, d, strike-unlisted m a xs)
    ]
    | inr p ↦ elim (Option-cases (m x).fn) [
      | inl q ↦ ground (arith, p, q, view-erase_first m a xs d.1)
      | inr (f, q) ↦ ground (arith, p, q, view-erase_first m a xs d.1)
    ]
  ]

  pub lists-view :
      (m : ℕ → Callback Slot) (a : ℕ) (xs : List ℕ)
      → ((b : ℕ) → contains b xs ≡ true → is_some (m b).fn ≡ true)
      → lists a (view m xs) ≡ contains a xs
  unfolding view
  lists-view m a [] h = refl
  lists-view m a (x ∷ xs) h = elim (Option-cases (m x).fn) [
    | inl p ↦ absurd (ground (arith, p, h x))
    | inr (f, p) ↦ ground (arith, p, lists-view m a xs λ b q. h b (ground (arith, q)))
  ]

  pub length-view :
      (m : ℕ → Callback Slot) (xs : List ℕ)
      → ((b : ℕ) → contains b xs ≡ true → is_some (m b).fn ≡ true)
      → length xs ≡ length (view m xs)
  unfolding view
  length-view m [] h = refl
  length-view m (x ∷ xs) h = elim (Option-cases (m x).fn) [
    | inl p ↦ absurd (ground (arith, p, h x))
    | inr (f, p) ↦ ground (arith, p, length-view m xs λ b q. h b (ground (arith, q)))
  ]

module _ {Slot W : Type 0} where
  pub deliver-view :
      (act : Slot → W → Outcome W) (s : Signal Slot) (tmp : List ℕ) (w : W)
      → deliver act s tmp w ≡ fold_slots act (view s.callback tmp) w
  unfolding deliver view
  deliver-view act s [] w = refl
  deliver-view act s (a ∷ tmp) w = elim (Option-cases (s.callback a).fn) [
    | inl p ↦ ground (arith, p, deliver-view act s tmp w)
    | inr (f, p) ↦
        let step : deliver act s (a ∷ tmp) w ≡ (act f w >>= deliver act s tmp) =
          ground (arith, p) in
        let seen : view s.callback (a ∷ tmp) ≡ (a, f) ∷ view s.callback tmp = ground (arith, p) in
        step
        ∙ (>>=-ext (act f w) (λ w'. deliver-view act s tmp w')
            ∙ ap (λ (l : List (ℕ × Slot)). fold_slots act l w) (sym seen))
  ]
