-- ===== src/PendingCall/Members.antt =====
-- src/pending-call.cc: what a pending call holds of a reply, and what its destruction gives back.
use dbuscc.Base.{
  ℕ, ◌+◌, ◌<◌, ◌≡◌, inl, inr, refl, ◌∙◌, Bool, true, false, Option, none, some, done, if◌then◌else◌,
  ◌==◌, arith, ap, assert, assert_ptr, Bool-cases, Option-cases,
}
use dbuscc.PendingCall.{
  PendingApi, State, CallState, state_pending, state_error, state_timeout, state_completed,
  state_canceled, is_pending, destroy_members,
}

pub is_pending-only : (x : CallState) → is_pending x ≡ true → x ≡ state_pending
is_pending-only state_pending e = refl
is_pending-only state_error e = cc
is_pending-only state_timeout e = cc
is_pending-only state_completed e = cc
is_pending-only state_canceled e = cc

pub assert_ptr-done : {A : Type 0} (o : Option A) {a : A} → assert_ptr o ≡ done a → o ≡ some a
assert_ptr-done none e = cc
assert_ptr-done (some b) e = cc

pub assert-done : (b : Bool) {u : Unit {0}} → assert b ≡ done u → b ≡ true
assert-done true e = refl
assert-done false e = cc

-- The reference that comes with the reply that a call holds.
abbrev pub held : Option ℕ → ℕ → ℕ
held none n = 0
held (some m) n = if n == m then 1 else 0

module _ (api : PendingApi) {Env : Type 0} where
  pub members-alone :
      (t : State api Env) (w : api.World) (n : ℕ)
      → ((k : ℕ) → api.references t.world k ≡ api.references w k + held t.call.reply_message k)
      → api.references (destroy_members api false t) n ≡ api.references w n
  unfolding destroy_members
  members-alone t w n refs = elim (Option-cases t.call.reply_message) [
    | inl gone ↦
        let empty : held t.call.reply_message n ≡ 0 = ap (λ (o : Option ℕ). held o n) gone in
        rw gone (omega (arith, refs n, empty))
    | inr (m, has) ↦
        let own : held t.call.reply_message m ≡ 1 =
          ap (λ (o : Option ℕ). held o m) has ∙ ground arith in
        let one : held t.call.reply_message n ≡ held (some m) n =
          ap (λ (o : Option ℕ). held o n) has in
        let alive : 0 < api.references t.world m = omega (arith, refs m, own) in
        let dropped = api.references-message_unref t.world m n alive in
        rw has (elim (Bool-cases (n == m)) [
          | inl hit ↦ ground (arith, refs n, one, dropped, hit)
          | inr miss ↦ ground (arith, refs n, one, dropped, miss)
        ])
  ]

  pub members-shared :
      (t : State api Env) (n : ℕ)
      → api.references (destroy_members api true t) n ≡ api.references t.world n
  unfolding destroy_members
  members-shared t n = elim (Option-cases t.call.reply_message) [
    | inl gone ↦ rw gone refl
    | inr (m, has) ↦ rw has refl
  ]

module _ (api : PendingApi) where
  -- A message that is stolen and given back leaves the references as they were.
  pub given_back :
      (r m : ℕ) (w w' : api.World)
      → api.steal_reply w r ≡ (some m, w')
      → (n : ℕ) → api.references (api.message_unref w' m) n ≡ api.references w n
  given_back r m w w' stolen n =
      let owns : 0 < api.references w' m =
        ground (arith, api.references-steal_reply w w' r m m stolen) in
      ground (
        arith,
        api.references-steal_reply w w' r m n stolen,
        api.references-message_unref w' m n owns,
      )
