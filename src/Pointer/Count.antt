-- ===== src/Pointer/Count.antt =====
-- include/dbuscc/pointer.h: the two operations on an object whose count does not wrap.
use dbuscc.Base.{
  ℕ, ◌+◌, ◌-◌, ◌≡◌, ◌<◌, some, none, done, arith, update, ◌==◌, Bool-cases, Option-cases, inl, inr,
  subst, ◌%◌,
}
use dbuscc.Pointer.{
  fetch_sub, Counted, Store, int_mod, intrusive_ptr_add_ref, intrusive_ptr_release,
}

module _ {T : Type 0} (p n : ℕ) (t : T) (m : Store T)
    (here : m p ≡ some (record { refcnt = n; self = t })) where
  pub add_ref-done :
      n + 1 < int_mod
      → intrusive_ptr_add_ref p m ≡ done (update m p (some (record { refcnt = n + 1; self = t })))
  unfolding intrusive_ptr_add_ref
  add_ref-done small = rw here (ground arith)

  pub fetch_sub-done :
      0 < n
      → n < int_mod
      → fetch_sub p m ≡ done (n, update m p (some (record { refcnt = n - 1; self = t })))
  fetch_sub-done pos small = rw here (ground arith)

  pub release_last : n ≡ 1 → intrusive_ptr_release p m ≡ done (update m p none)
  unfolding intrusive_ptr_release
  release_last one = rw here (ground arith)

  pub release-done :
      1 < n
      → n < int_mod
      → intrusive_ptr_release p m ≡ done (update m p (some (record { refcnt = n - 1; self = t })))
  unfolding intrusive_ptr_release
  release-done more small = rw here (ground arith)

-- A property of every object of a store.
abbrev pub AllSelf : {T : Type 0} → (T → Type 0) → Store T → Type 0
AllSelf {T} P m = (a : ℕ) (c : Counted T) → m a ≡ some c → P c.self

module _ {T : Type 0} (P : T → Type 0) where
  pub AllSelf-update :
      (p : ℕ) (c : Counted T) (m : Store T)
      → P c.self
      → AllSelf P m
      → AllSelf P (update m p (some c))
  AllSelf-update p c m h v b d e = elim (Bool-cases (b == p)) [
    | inl hit ↦ let same : c ≡ d = ground arith in subst (λ (x : Counted T). P x.self) same h
    | inr miss ↦ v b d (ground arith)
  ]

  AllSelf-delete : (p : ℕ) (m : Store T) → AllSelf P m → AllSelf P (update m p none)
  AllSelf-delete p m v b d e = v b d (ground arith)

  -- Counting does not touch the object itself.
  pub add_ref-AllSelf :
      (p : ℕ) (m m' : Store T) → intrusive_ptr_add_ref p m ≡ done m' → AllSelf P m → AllSelf P m'
  unfolding intrusive_ptr_add_ref
  add_ref-AllSelf p m m' e v = elim (Option-cases (m p)) [
    | inl gone ↦ absurd (ground arith)
    | inr (c, here) ↦
        let c' : Counted T = record c { refcnt = (c.refcnt + 1) % int_mod } in
        let same : update m p (some c') ≡ m' = ground arith in
        subst (AllSelf P) same (AllSelf-update p c' m (v p c here) v)
  ]

  pub release-AllSelf :
      (p : ℕ) (m m' : Store T) → intrusive_ptr_release p m ≡ done m' → AllSelf P m → AllSelf P m'
  unfolding intrusive_ptr_release
  release-AllSelf p m m' e v = elim (Option-cases (m p)) [
    | inl gone ↦ absurd (ground arith)
    | inr (c, here) ↦
        let c' : Counted T = record c { refcnt = (c.refcnt + int_mod - 1) % int_mod } in
        elim (Bool-cases (c.refcnt == 1)) [
          | inl last ↦
              let same : update m p none ≡ m' = ground arith in
              subst (AllSelf P) same (AllSelf-delete p m v)
          | inr more ↦
              let same : update m p (some c') ≡ m' = ground arith in
              subst (AllSelf P) same (AllSelf-update p c' m (v p c here) v)
        ]
  ]
