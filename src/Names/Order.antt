-- ===== src/Names/Order.antt =====
-- src/bus-name.cc, src/object-path.cc, src/interface.cc and src/member.cc: the comparisons of
-- names.
use dbuscc.Base.{
  ◌<◌, subst, ℕ, ◌+◌, ◌≡◌, Bool, true, false, [], ◌∷◌, refl, arith, ◌==◌, Bool-cases, inl, inr, ap,
}
use dbuscc.Message.Api.{Text}
use dbuscc.Names.{NameKind, Name, text_equal, text_less, equal, not_equal, less}

-- How many of the tests hold.
abbrev one_if : Bool → ℕ
one_if true = 1
one_if false = 0

text_trichotomy :
    (l r : Text) → one_if (text_less l r) + one_if (text_equal l r) + one_if (text_less r l) ≡ 1
unfolding text_less text_equal
text_trichotomy [] [] = refl
text_trichotomy [] (y ∷ ys) = refl
text_trichotomy (x ∷ xs) [] = refl
text_trichotomy (x ∷ xs) (y ∷ ys) = ground (arith, text_trichotomy xs ys)

text_less_trans :
    (l m r : Text) → text_less l m ≡ true → text_less m r ≡ true → text_less l r ≡ true
unfolding text_less
text_less_trans [] [] r h k = cc
text_less_trans [] (y ∷ ys) [] h k = cc
text_less_trans [] (y ∷ ys) (z ∷ zs) h k = refl
text_less_trans (x ∷ xs) [] r h k = cc
text_less_trans (x ∷ xs) (y ∷ ys) [] h k = cc
text_less_trans (x ∷ xs) (y ∷ ys) (z ∷ zs) h k = ground (arith, h, k, text_less_trans xs ys zs)

text_equal_sound : (l r : Text) → text_equal l r ≡ true → l ≡ r
unfolding text_equal
text_equal_sound [] [] h = refl
text_equal_sound [] (y ∷ ys) h = cc
text_equal_sound (x ∷ xs) [] h = cc
text_equal_sound (x ∷ xs) (y ∷ ys) h = elim (Bool-cases (x == y)) [
  | inl e ↦
      let head : x ≡ y = ground (arith, e) in
      let tail = text_equal_sound xs ys (ground (arith, e, h)) in cc
  | inr e ↦ ground (arith, e, h)
]

text_equal_refl : (l : Text) → text_equal l l ≡ true
unfolding text_equal
text_equal_refl [] = refl
text_equal_refl (x ∷ xs) = ground (arith, text_equal_refl xs)

-- The order of texts by their first byte that differs, where a text comes before any longer one
-- that it begins.
pub data Precedes : Text → Text → Type 0 where
  shorter : (y : ℕ) (ys : Text) → Precedes [] (y ∷ ys)
  differs : (x y : ℕ) (xs ys : Text) → x < y → Precedes (x ∷ xs) (y ∷ ys)
  agrees : (x : ℕ) (xs ys : Text) → Precedes xs ys → Precedes (x ∷ xs) (x ∷ ys)

text_less-Precedes : (l r : Text) → text_less l r ≡ true → Precedes l r
unfolding text_less
text_less-Precedes [] [] h = cc
text_less-Precedes [] (y ∷ ys) h = shorter y ys
text_less-Precedes (x ∷ xs) [] h = cc
text_less-Precedes (x ∷ xs) (y ∷ ys) h = elim (Bool-cases (x == y)) [
  | inl e ↦
      let head : x ≡ y = ground (arith, e) in
      subst (λ (k : ℕ). Precedes (x ∷ xs) (k ∷ ys)) head
        (agrees x xs ys (text_less-Precedes xs ys (ground (arith, e, h))))
  | inr e ↦ differs x y xs ys (ground (arith, e, h))
]

module _ {kind : NameKind} where
  -- How two names compare: < holds for the one whose text precedes the other only, and == for equal
  -- names only.
  pub data IsOrdered (l r : Name kind) : Type 0 where
    before :
        Precedes l.name r.name
        → less l r ≡ true
        → equal l r ≡ false
        → not_equal l r ≡ true
        → less r l ≡ false
        → IsOrdered l r
    same :
        l ≡ r
        → less l r ≡ false
        → equal l r ≡ true
        → not_equal l r ≡ false
        → less r l ≡ false
        → IsOrdered l r
    after :
        Precedes r.name l.name
        → less l r ≡ false
        → equal l r ≡ false
        → not_equal l r ≡ true
        → less r l ≡ true
        → IsOrdered l r

  -- Of two names of a class the text of one precedes the other, byte by byte, or they are the same
  -- name. operator< holds exactly from the one that precedes to the other, operator== exactly for
  -- the same name, and operator!= exactly for names that differ.
  pub names_IsOrdered : (l r : Name kind) → IsOrdered l r
  unfolding less equal not_equal
  names_IsOrdered l r =
      let one = text_trichotomy l.name r.name in
      elim (Bool-cases (text_equal l.name r.name)) [
        | inl e ↦
            same (ap (λ (n : Text). record { name = n }) (text_equal_sound l.name r.name e))
              (ground (arith, one, e)) e (ground (arith, e)) (ground (arith, one, e))
        | inr e ↦ elim (Bool-cases (text_less l.name r.name)) [
          | inl f ↦
              before (text_less-Precedes l.name r.name f) f e (ground (arith, e))
                (ground (arith, one, e, f))
          | inr f ↦
              let back : text_less r.name l.name ≡ true = ground (arith, one, e, f) in
              after (text_less-Precedes r.name l.name back) f e (ground (arith, e)) back
        ]
      ]

  -- Names that are less than one another in a row: the first is less than the last, differs from
  -- it, and the last is not less than the first.
  pub less_chain :
      (l m r : Name kind)
      → less l m ≡ true
      → less m r ≡ true
      → (less l r ≡ true) × (equal l r ≡ false) × (not_equal l r ≡ true) × (less r l ≡ false)
  unfolding less equal not_equal
  less_chain l m r h k =
      let lr = text_less_trans l.name m.name r.name h k in
      let one = text_trichotomy l.name r.name in
      (lr, ground (arith, lr, one), ground (arith, lr, one), ground (arith, lr, one))
