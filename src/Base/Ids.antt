-- ===== src/Base/Ids.antt =====
-- Lists of addresses, and stores: functions from addresses that are updated at one place.
use Prim.Native.Nat.{ℕ, zero, suc, ◌+◌, ◌<◌, ◌≤◌}
use mathlib.Core.Path.{◌≡◌, refl, ap}
use mathlib.Core.Bool.{Bool, true, false, ◌||◌}
use mathlib.Core.List.{List, [], ◌∷◌, ◌++◌}
use native.Mathlib.Omega.{arith}
use dbuscc.Base.Tests.{◌==◌, if◌then◌else◌}

abbrev pub length {ℓ} : {A : Type ℓ} → List A → ℕ
length [] = 0
length (x ∷ xs) = suc (length xs)

abbrev pub contains : ℕ → List ℕ → Bool
contains a [] = false
contains a (x ∷ xs) = (x == a) || contains a xs

abbrev pub update {ℓ} : {A : Type ℓ} → (ℕ → A) → ℕ → A → ℕ → A
update f a v b = if b == a then v else f b

abbrev pub Distinct : List ℕ → Type 0
Distinct [] = Unit {0}
Distinct (x ∷ xs) = (contains x xs ≡ false) × Distinct xs

abbrev pub AllBelow : ℕ → List ℕ → Type 0
AllBelow n [] = Unit {0}
AllBelow n (x ∷ xs) = (x < n) × AllBelow n xs

pub contains-append :
    (a : ℕ) (xs ys : List ℕ) → contains a (xs ++ ys) ≡ (contains a xs || contains a ys)
contains-append a [] ys = refl
contains-append a (x ∷ xs) ys = ground (arith, contains-append a xs ys)

pub contains_below : (n a : ℕ) (xs : List ℕ) → AllBelow n xs → contains a xs ≡ true → a < n
contains_below n a [] b h = cc
contains_below n a (x ∷ xs) b h = ground (arith, contains_below n a xs b.1)

pub not-contains_below : (n : ℕ) (xs : List ℕ) → AllBelow n xs → contains n xs ≡ false
not-contains_below n [] b = refl
not-contains_below n (x ∷ xs) b = ground (arith, not-contains_below n xs b.1)

pub AllBelow-snoc : (n : ℕ) (xs : List ℕ) → AllBelow n xs → AllBelow (n + 1) (xs ++ n ∷ [])
AllBelow-snoc n [] b = (omega arith, tt)
AllBelow-snoc n (x ∷ xs) b = (omega arith, AllBelow-snoc n xs b.1)

pub Distinct-snoc :
    (a : ℕ) (xs : List ℕ) → Distinct xs → contains a xs ≡ false → Distinct (xs ++ a ∷ [])
Distinct-snoc a [] d h = (refl, tt)
Distinct-snoc a (x ∷ xs) d h =
    (ground (arith, contains-append x xs (a ∷ [])), Distinct-snoc a xs d.1 (ground arith))

pub length-append {ℓ} : {A : Type ℓ} (xs ys : List A) → length (xs ++ ys) ≡ length xs + length ys
length-append [] ys = omega arith
length-append (x ∷ xs) ys = omega (arith, length-append xs ys)

abbrev pub take {ℓ} : {A : Type ℓ} → ℕ → List A → List A
take zero xs = []
take (suc n) [] = []
take (suc n) (x ∷ xs) = x ∷ take n xs

abbrev pub drop {ℓ} : {A : Type ℓ} → ℕ → List A → List A
drop zero xs = xs
drop (suc n) [] = []
drop (suc n) (x ∷ xs) = drop n xs

pub length-take_le {ℓ} : {A : Type ℓ} (n : ℕ) (xs : List A) → n ≤ length xs → length (take n xs) ≡ n
length-take_le zero xs h = refl
length-take_le (suc n) [] h = absurd (omega arith)
length-take_le (suc n) (x ∷ xs) h = omega (arith, length-take_le n xs (omega arith))

pub take-length {ℓ} : {A : Type ℓ} (xs : List A) → take (length xs) xs ≡ xs
take-length [] = refl
take-length (x ∷ xs) = ap (◌∷◌ x) (take-length xs)

pub drop-length {ℓ} : {A : Type ℓ} (n : ℕ) (xs : List A) → length xs ≡ n → drop n xs ≡ []
drop-length zero [] h = refl
drop-length (suc n) [] h = refl
drop-length zero (x ∷ xs) h = absurd (omega arith)
drop-length (suc n) (x ∷ xs) h = drop-length n xs (omega arith)

-- The bytes of a text before its first zero byte, as c_str passes them on.
unfoldable pub c_str : List ℕ → List ℕ
c_str [] = []
c_str (b ∷ bs) = if b == 0 then [] else b ∷ c_str bs

pub update-same : {A : Type 0} (a : ℕ) (m : ℕ → A) {x : A} → update m a x a ≡ x
update-same a m = ground arith
