-- ===== src/Pointer/Tests.antt =====
-- include/dbuscc/pointer.h: the theorems about shared objects for two threads.
use dbuscc.Base.{ℕ, ◌≡◌, refl, [], ◌∷◌, none, some, done, arith, update, false, true}
use dbuscc.Pointer.{
  Store, construct, copy_construct, assign, intrusive_ptr_add_ref, intrusive_ptr_release,
}
use dbuscc.Pointer.Threads.{
  Sharing, Reach, created, next, copies, drops, deletes, IsCounted, Reach-IsCounted,
  Reach-owner_acts, sum,
}

-- The object 7 at address 3, as its constructor leaves it.
abbrev constructed : Store ℕ
constructed = update (λ _. none) 3 (some (record { refcnt = 0; self = 7 }))

abbrev counted : ℕ → Store ℕ → Store ℕ
counted n m = update m 3 (some (record { refcnt = n; self = 7 }))

-- Thread 0 makes the first pointer, thread 1 gets a copy, and both drop theirs.
abbrev one_owner : Sharing ℕ
one_owner = record { owners = 1 ∷ 0 ∷ []; deleting = false; store = counted 1 constructed }

abbrev two_owners : Sharing ℕ
two_owners = record { owners = 1 ∷ 1 ∷ []; deleting = false; store = counted 2 one_owner.store }

abbrev second_owner : Sharing ℕ
second_owner = record { owners = 0 ∷ 1 ∷ []; deleting = false; store = counted 1 two_owners.store }

abbrev no_owner : Sharing ℕ
no_owner = record { owners = 0 ∷ 0 ∷ []; deleting = true; store = counted 0 second_owner.store }

abbrev deleted : Sharing ℕ
deleted = record { owners = 0 ∷ 0 ∷ []; deleting = false; store = update (no_owner.store) 3 none }

shared : Reach 3 7 1 two_owners
unfolding intrusive_ptr_add_ref construct
shared =
    next (created (λ _. none) refl refl refl)
      (copies 0 1 (omega arith) (omega arith) (omega arith) refl refl refl)

dropped : Reach 3 7 1 deleted
dropped =
    next
      (next (next shared (drops 0 2 (omega arith) refl refl refl))
        (drops 1 1 (omega arith) refl refl refl))
      (deletes refl refl refl refl)

first_pointer :
    intrusive_ptr_add_ref {T = ℕ} 3 (update (λ _. none) 3 (some (construct 7)))
    ≡ done (
        update
          (update (λ _. none) 3 (some (construct 7)))
          3
          (some (record { refcnt = 1; self = 7 })))
unfolding intrusive_ptr_add_ref construct
first_pointer = refl

copies_have_no_owners : copy_construct {T = ℕ} (record { refcnt = 5; self = 7 }) ≡ construct 7
unfolding copy_construct construct
copies_have_no_owners = refl

assign_keeps_count :
    assign {T = ℕ} (record { refcnt = 5; self = 7 }) (record { refcnt = 2; self = 9 })
    ≡ record { refcnt = 5; self = 9 }
unfolding assign
assign_keeps_count = refl

Reach-IsCounted_example : IsCounted 3 7 deleted
Reach-IsCounted_example = Reach-IsCounted 3 7 dropped

Reach-owner_acts_example :
    (two_owners.store 3 ≡ some (record { refcnt = sum two_owners.owners; self = 7 }))
    × (two_owners.deleting ≡ false)
    × ((m : Store ℕ) × (intrusive_ptr_add_ref 3 two_owners.store ≡ done m))
    × ((m : Store ℕ) × (intrusive_ptr_release 3 two_owners.store ≡ done m))
Reach-owner_acts_example = Reach-owner_acts 3 7 1 shared (omega arith) (omega arith)
