-- ===== src/Adapter/Own/Sum.antt =====
-- src/tscb-adapter.cc: the number of pointers that the contexts hold.
use dbuscc.Base.{
  ℕ, zero, suc, ◌+◌, ◌*◌, ◌≤◌, ◌<◌, ◌≡◌, refl, inl, inr, Option, none, some, ◌==◌, update, ap,
  arith, Bool-cases,
}
use dbuscc.Adapter.{IoCtx}
use dbuscc.Adapter.Own.{points, target_of, held_in, held_below}

points_le : (o : Option ℕ) (b : ℕ) → points o b ≤ 1
points_le none b = omega arith
points_le (some a) b = ground arith

held_in_le : (x : Option IoCtx) (b : ℕ) → held_in x b ≤ 2
held_in_le none b = omega arith
held_in_le (some ctx) b = omega (arith, points_le ctx.watch b, points_le (target_of ctx.conn) b)

pub held_below_le : (m : ℕ → Option IoCtx) (n b : ℕ) → held_below m n b ≤ 2 * n
held_below_le m zero b = omega arith
held_below_le m (suc n) b = omega (arith, held_below_le m n b, held_in_le (m n) b)

pub held_below-outside :
    (m : ℕ → Option IoCtx) (c : ℕ) (x : Option IoCtx) (n b : ℕ)
    → n ≤ c
    → held_below (update m c x) n b ≡ held_below m n b
held_below-outside m c x zero b h = refl
held_below-outside m c x (suc n) b h =
    ground (arith, held_below-outside m c x n b (omega (arith, h)), h)

pub held_below-update :
    (m : ℕ → Option IoCtx) (c : ℕ) (x : Option IoCtx) (n b : ℕ)
    → c < n
    → held_below (update m c x) n b + held_in (m c) b ≡ held_below m n b + held_in x b
held_below-update m c x zero b h = absurd (omega (arith, h))
held_below-update m c x (suc n) b h = elim (Bool-cases (c == n)) [
  | inl p ↦
      let same : c ≡ n = ground (arith, p) in
      let now : held_in (update m c x n) b ≡ held_in x b =
        ap (λ (o : Option IoCtx). held_in o b) (ground (arith, p)) in
      let old : held_in (m c) b ≡ held_in (m n) b = ap (λ (k : ℕ). held_in (m k) b) same in
      omega (arith, held_below-outside m c x n b (omega (arith, same)), now, old)
  | inr p ↦
      let other : held_in (update m c x n) b ≡ held_in (m n) b =
        ap (λ (o : Option IoCtx). held_in o b) (ground (arith, p)) in
      let less : c < n = ground (arith, p, h) in
      omega (arith, held_below-update m c x n b less, other)
]
