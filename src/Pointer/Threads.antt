-- ===== src/Pointer/Threads.antt =====
-- include/dbuscc/pointer.h: an object that several threads share through intrusive_ptr.
use dbuscc.Base.{
  Bool, true, false, ◌||◌, ◌⊎◌, inl, inr, ◌∙◌, refl, ℕ, zero, suc, ◌+◌, ◌-◌, ◌≡◌, ◌<◌, ◌≤◌, List,
  [], ◌∷◌, none, some, done, arith, ap, ℕ_discrete, length, update,
}
use dbuscc.Pointer.{
  is_last, Store, int_mod, construct, fetch_sub, intrusive_ptr_add_ref, intrusive_ptr_release,
}
use dbuscc.Pointer.Count.{fetch_sub-done, add_ref-done, release_last, release-done}

-- How many pointers to the object each thread holds.
abbrev pub sum : List ℕ → ℕ
sum [] = 0
sum (x ∷ xs) = x + sum xs

abbrev pub held : List ℕ → ℕ → ℕ
held [] i = 0
held (x ∷ xs) zero = x
held (x ∷ xs) (suc i) = held xs i

abbrev pub set_held : List ℕ → ℕ → ℕ → List ℕ
set_held [] i v = []
set_held (x ∷ xs) zero v = v ∷ xs
set_held (x ∷ xs) (suc i) v = x ∷ set_held xs i v

-- The threads that hold nothing.
abbrev pub none_held : ℕ → List ℕ
none_held zero = []
none_held (suc n) = 0 ∷ none_held n

sum-none_held : (n : ℕ) → sum (none_held n) ≡ 0
sum-none_held zero = refl
sum-none_held (suc n) = omega (arith, sum-none_held n)

sum-set_held :
    (xs : List ℕ) (i v : ℕ) → i < length xs → sum (set_held xs i v) + held xs i ≡ sum xs + v
sum-set_held [] i v h = elim h [ ]
sum-set_held (x ∷ xs) zero v h = omega arith
sum-set_held (x ∷ xs) (suc i) v h = omega (arith, sum-set_held xs i v (omega arith))

held-le-sum : (xs : List ℕ) (i : ℕ) → held xs i ≤ sum xs
held-le-sum [] i = omega arith
held-le-sum (x ∷ xs) zero = omega arith
held-le-sum (x ∷ xs) (suc i) = omega (arith, held-le-sum xs i)

held_in_range : (xs : List ℕ) (i : ℕ) → 0 < held xs i → i < length xs
held_in_range [] i h = elim h [ ]
held_in_range (x ∷ xs) zero h = omega arith
held_in_range (x ∷ xs) (suc i) h = omega (arith, held_in_range xs i h)

-- `deleting` tells whether a thread took the count to 0 and has not deleted the object yet.
pub record Sharing (T : Type 0) : Type 0 where
  pub owners : List ℕ
  pub deleting : Bool
  pub store : Store T

module _ {T : Type 0} (p : ℕ) where
  -- A thread `i` that holds a pointer copies it for a thread `j`, or drops it: it gives the pointer
  -- up with fetch_sub, and if that gives 1, it deletes the object in a later step.
  pub data Step (s s' : Sharing T) : Type 0 where
    copies :
        (i j : ℕ)
        → 0 < held s.owners i
        → j < length s.owners
        → sum s.owners + 1 < int_mod
        → s'.owners ≡ set_held s.owners j (held s.owners j + 1)
        → s'.deleting ≡ s.deleting
        → intrusive_ptr_add_ref p s.store ≡ done s'.store
        → Step s s'
    drops :
        (i old : ℕ)
        → 0 < held s.owners i
        → s'.owners ≡ set_held s.owners i (held s.owners i - 1)
        → s'.deleting ≡ (is_last old || s.deleting)
        → fetch_sub p s.store ≡ done (old, s'.store)
        → Step s s'
    deletes :
        s.deleting ≡ true
        → s'.owners ≡ s.owners
        → s'.deleting ≡ false
        → s'.store ≡ update s.store p none
        → Step s s'

  -- The object is constructed, the first of `n` threads makes a pointer of its address, and the
  -- threads take any steps.
  pub data Reach (t : T) (n : ℕ) : Sharing T → Type 0 where
    created :
        {s : Sharing T} (m : Store T)
        → s.owners ≡ 1 ∷ none_held n
        → s.deleting ≡ false
        → intrusive_ptr_add_ref p (update m p (some (construct t))) ≡ done s.store
        → Reach t n s
    next : {u v : Sharing T} → Reach t n u → Step u v → Reach t n v

  module _ (t : T) where
    -- The count is the number of pointers that the threads hold, also while they hold none and the
    -- object is about to be deleted; after that it is gone.
    pub record IsCounted (s : Sharing T) : Type 0 where
      pub small : sum s.owners < int_mod
      pub alive :
          (0 < sum s.owners) ⊎ (s.deleting ≡ true)
          → s.store p ≡ some (record { refcnt = sum s.owners; self = t })
      pub owned : 0 < sum s.owners → s.deleting ≡ false
      pub dead : sum s.owners ≡ 0 → s.deleting ≡ false → s.store p ≡ none

    there :
        (s : Sharing T) (m : Store T) (n : ℕ)
        → s.store ≡ update m p (some (record { refcnt = n; self = t }))
        → sum s.owners ≡ n
        → s.store p ≡ some (record { refcnt = sum s.owners; self = t })
    there s m n e c = rw (e, c) (ground arith)

    Step-IsCounted : (s s' : Sharing T) → Step s s' → IsCounted s → IsCounted s'
    Step-IsCounted s s' (copies i j h l b e d r) v =
        let n = sum s.owners in
        let pos : 0 < n = omega (arith, held-le-sum s.owners i) in
        let idle = v.owned pos in
        let up = add_ref-done p n t s.store (v.alive (inl pos)) b in
        let c : sum s'.owners ≡ n + 1 =
          omega (arith, ap sum e, sum-set_held s.owners j (held s.owners j + 1) l) in
        record {
          small = omega (arith, c);
          alive = λ _. there s' s.store (n + 1) (cc (r, up)) c;
          owned = λ _. d ∙ idle;
          dead = λ z. absurd (omega (arith, c, z));
        }
    Step-IsCounted s s' (drops i old h e d r) v =
        let n = sum s.owners in
        let pos : 0 < n = omega (arith, held-le-sum s.owners i) in
        let idle = v.owned pos in
        let here = v.alive (inl pos) in
        let l = held_in_range s.owners i h in
        let down = fetch_sub-done p n t s.store here pos v.small in
        let first : n ≡ old = cc (r, down) in
        let c : sum s'.owners ≡ n - 1 = omega (
          arith,
          ap sum e,
          sum-set_held s.owners i (held s.owners i - 1) l,
          held-le-sum s.owners i,
        ) in
        let at = there s' s.store (n - 1) (cc (r, down)) c in
        record {
          small = omega (arith, c, v.small);
          alive = λ _. at;
          owned = λ k. ground (arith, d, idle, first, c, k);
          dead = λ z k. absurd (ground (arith, d, first, c, z, k, pos));
        }
    Step-IsCounted s s' (deletes g e d r) v =
        let none_left : sum s.owners ≡ 0 = elim (ℕ_discrete (sum s.owners) 0) [
          | yes z ↦ z
          | no k ↦ absurd (cc (v.owned (omega (arith, k)), g))
        ] in
        let c : sum s'.owners ≡ 0 = ap sum e ∙ none_left in
        record {
          small = omega (arith, c);
          alive = λ k. elim k [ inl x ↦ absurd (omega (arith, c, x)) | inr x ↦ absurd (cc (x, d)) ];
          owned = λ _. d;
          dead = λ _ _. rw r (ground arith);
        }

    created-IsCounted :
        (n : ℕ) (s : Sharing T) (m : Store T)
        → s.owners ≡ 1 ∷ none_held n
        → s.deleting ≡ false
        → intrusive_ptr_add_ref p (update m p (some (construct t))) ≡ done s.store
        → IsCounted s
    unfolding construct
    created-IsCounted n s m e d r =
        let m' = update m p (some (construct t)) in
        let up = add_ref-done p 0 t m' (ground arith) (omega arith) in
        let c : sum s.owners ≡ 1 = omega (arith, ap sum e, sum-none_held n) in
        record {
          small = omega (arith, c);
          alive = λ _. there s m' 1 (cc (r, up)) c;
          owned = λ _. d;
          dead = λ z. absurd (omega (arith, c, z));
        }

    -- An object is constructed, a thread makes the first pointer to it, and the threads copy and
    -- drop pointers in any interleaving, with fewer than 2 ^ 32 pointers at any time; the deletion
    -- is a step of its own. While they hold pointers, and until the deletion, the object is there,
    -- and its count is the number of pointers that they hold; it is deleted only when they hold
    -- none; and when they hold none and no deletion is due, it is gone.
    pub Reach-IsCounted : {n : ℕ} {s : Sharing T} → Reach t n s → IsCounted s
    Reach-IsCounted {n} {s} (created m e d r) = created-IsCounted n s m e d r
    Reach-IsCounted (next r st) = Step-IsCounted _ _ st (Reach-IsCounted r)

    -- In every state that the threads reach from the construction of the object on, with fewer
    -- than 2 ^ 32 pointers at any time and fewer than 2 ^ 32 - 1 in this state, a thread that
    -- holds one finds the object with the count of the pointers held, no deletion is due, and both
    -- operations on the object return: neither touches freed memory.
    pub Reach-owner_acts :
        {n : ℕ} {s : Sharing T} (i : ℕ)
        → Reach t n s
        → 0 < held s.owners i
        → sum s.owners + 1 < int_mod
        → (s.store p ≡ some (record { refcnt = sum s.owners; self = t }))
          × (s.deleting ≡ false)
          × ((m : Store T) × (intrusive_ptr_add_ref p s.store ≡ done m))
          × ((m : Store T) × (intrusive_ptr_release p s.store ≡ done m))
    Reach-owner_acts {s = s} i r h b =
        let v = Reach-IsCounted r in
        let n = sum s.owners in
        let pos : 0 < n = omega (arith, held-le-sum s.owners i) in
        let at = v.alive (inl pos) in
        (
          at,
          v.owned pos,
          (_, add_ref-done p n t s.store at b),
          elim (ℕ_discrete n 1) [
            | yes one ↦ (_, release_last p n t s.store at one)
            | no more ↦ (_, release-done p n t s.store at (omega arith) v.small)
          ],
        )
