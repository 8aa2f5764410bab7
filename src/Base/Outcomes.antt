-- ===== src/Base/Outcomes.antt =====
-- How a C++ function ends: with a value, at a failed assertion (xassert.h; the Makefile does not
-- define NDEBUG), with an exception, or in undefined behaviour such as a null dereference.
use mathlib.Core.Path.{◌≡◌, refl}
use mathlib.Core.Logic.{◌⊎◌, inl, inr}
use mathlib.Core.Bool.{Bool, true, false}
use mathlib.Core.Option.{Option, none, some}

pub data Outcome {ℓ} (A : Type ℓ) : Type ℓ where
  done : A → Outcome A
  abort : Outcome A
  raise : Outcome A
  fault : Outcome A

infixl 5 ◌>>=◌ ◌>>◌
abbrev pub ◌>>=◌ {ℓ κ} : {A : Type ℓ} {B : Type κ} → Outcome A → (A → Outcome B) → Outcome B
done a >>= f = f a
abort >>= f = abort
raise >>= f = raise
fault >>= f = fault

abbrev pub ◌>>◌ {ℓ} : {B : Type ℓ} → Outcome (Unit {0}) → Outcome B → Outcome B
m >> k = m >>= λ _. k

-- DBUSCC_ASSERT and assert.
abbrev pub assert : Bool → Outcome (Unit {0})
assert true = done tt
assert false = abort

-- A pointer that is used must not be null.
abbrev pub deref {ℓ} : {A : Type ℓ} → Option A → Outcome A
deref none = fault
deref (some a) = done a

-- DBUSCC_ASSERT on a pointer that the code then uses.
abbrev pub assert_ptr {ℓ} : {A : Type ℓ} → Option A → Outcome A
assert_ptr none = abort
assert_ptr (some a) = done a

pub >>=-eq-done {ℓ κ} :
    {A : Type ℓ} {B : Type κ} (m : Outcome A) (f : A → Outcome B) {b : B}
    → (m >>= f) ≡ done b
    → (a : A) × (m ≡ done a) × (f a ≡ done b)
>>=-eq-done (done a) f h = (a, refl, h)
>>=-eq-done abort f h = cc
>>=-eq-done raise f h = cc
>>=-eq-done fault f h = cc

pub >>=-assoc {ℓ κ μ} :
    {A : Type ℓ} {B : Type κ} {C : Type μ} (m : Outcome A) (f : A → Outcome B) (g : B → Outcome C)
    → (m >>= f >>= g) ≡ (m >>= λ a. f a >>= g)
>>=-assoc (done a) f g = refl
>>=-assoc abort f g = refl
>>=-assoc raise f g = refl
>>=-assoc fault f g = refl

pub >>=-ext {ℓ κ} :
    {A : Type ℓ} {B : Type κ} (m : Outcome A) {f g : A → Outcome B}
    → ((a : A) → f a ≡ g a)
    → (m >>= f) ≡ (m >>= g)
>>=-ext (done a) e = e a
>>=-ext abort e = refl
>>=-ext raise e = refl
>>=-ext fault e = refl

pub Outcome-cases {ℓ} :
    {A : Type ℓ} (m : Outcome A)
    → ((a : A) × (m ≡ done a)) ⊎ ((m ≡ abort) ⊎ ((m ≡ raise) ⊎ (m ≡ fault)))
Outcome-cases (done a) = inl (a, refl)
Outcome-cases abort = inr (inl refl)
Outcome-cases raise = inr (inr (inl refl))
Outcome-cases fault = inr (inr (inr refl))
