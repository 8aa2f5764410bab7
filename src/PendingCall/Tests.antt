-- ===== src/PendingCall/Tests.antt =====
-- src/pending-call.cc: the theorems at a libdbus that has one reply.
use dbuscc.Base.{
  ℕ, ◌+◌, ◌-◌, ◌≡◌, ◌≢◌, ◌⊎◌, refl, Bool, true, false, Option, none, some, Outcome, done, abort,
  ◌<◌, ◌==◌, if◌then◌else◌, arith, update,
}
use dbuscc.Error.Types.{ErrorName, no_reply}
use dbuscc.Error.Tests.{model_errors}
use dbuscc.PendingCall.{
  PendingApi, State, CallState, state_pending, state_error, state_timeout, state_completed,
  state_canceled, MessageType, error, method_return, signal, notify, cancel, destroy,
  destroy_members, new_call,
}
use dbuscc.PendingCall.Completion.{IsTaken, notify_pending, notify_late}
use dbuscc.PendingCall.Balance.{IsQuiet, replies_given_back}
use dbuscc.PendingCall.Members.{held}
use dbuscc.PendingCall.Lifetime.{here, next, notifies, cancels, Reach-settled, IsPublic}

-- Message 1 is an error without reply in time, message 2 a method return, others are signals.
kind : ℕ → MessageType
kind m = if m == 1 then error else if m == 2 then method_return else signal

-- The message that waits, and the references that the program holds.
record World : Type 0 where
  waiting : Option ℕ
  count : ℕ → ℕ

take : World → Option ℕ × World
take w = (
  w.waiting,
  elim w.waiting [
    | none ↦ w
    | some m ↦ record { waiting = none; count = update w.count m (w.count m + 1) }
  ],
)

give : World → ℕ → World
give w m = record w { count = update w.count m (w.count m - 1) }

set_error : World → Option ErrorName → ℕ → Bool × Option ErrorName
unfolding kind
set_error w e m = if m == 1 then (true, some no_reply) else (false, e)

set_error-error :
    (w : World) (e : Option ErrorName) (m : ℕ) → kind m ≡ error → (set_error w e m).0 ≡ true
unfolding set_error
set_error-error w e m h = ground arith

set_error-other :
    (w : World) (e : Option ErrorName) (m : ℕ) → kind m ≢ error → set_error w e m ≡ (false, e)
unfolding set_error
set_error-other w e m h = ground arith

count-take :
    (w w' : World) (r m n : ℕ)
    → take w ≡ (some m, w')
    → w'.count n ≡ (if n == m then w.count n + 1 else w.count n)
unfolding take
count-take w w' r m n e = ground arith

count-give :
    (w : World) (m n : ℕ)
    → 0 < w.count m
    → w.count n ≡ (if n == m then (give w m).count n + 1 else (give w m).count n)
unfolding give
count-give w m n h = ground arith

abbrev model_pending : PendingApi
model_pending = record {
  errors = model_errors;
  World = World;
  set_notify = λ w r. w;
  cancel = λ w r. w;
  pending_unref = λ w r. w;
  get_completed = λ w r. true;
  steal_reply = λ w r. take w;
  message_get_type = λ w m. kind m;
  message_unref = give;
  set_error_from_message = set_error;
  references = λ w m. w.count m;
  set_error_message = set_error-error;
  set_error_other = set_error-other;
  references-steal_reply = count-take;
  references-message_unref = count-give;
}

abbrev S : Type 0
S = State model_pending ℕ

-- The environment counts the invocations.
counting : S → Outcome S
counting s = done (record s { env = s.env + 1 })

abbrev waiting_for : ℕ → CallState → S
waiting_for m x = record {
  call = record { raw = some 7; state = x; reply_message = none; error = none };
  world = record { waiting = some m; count = λ _. 0 };
  env = 0;
}

abbrev taken : ℕ → World
taken m = record { waiting = none; count = update (λ _. 0) m 1 }

-- The reply is the error for a call that timed out, and the state says that it completed.
timed_out :
    (t : S) × (notify model_pending counting (waiting_for 1 state_pending) ≡ done t)
    × (t.call.state ≡ state_completed)
    × (t.env ≡ 1)
unfolding notify counting take set_error kind
timed_out = (_, refl, refl, refl)

counting-IsPublic : IsPublic model_pending counting
unfolding counting
counting-IsPublic s s' e = ground arith

notify_pending_example :
    (t : S) × (notify model_pending counting (waiting_for 2 state_pending) ≡ counting t)
    × (t.call.state ≡ state_completed)
    × IsTaken model_pending (waiting_for 2 state_pending) 2 (kind 2) t
unfolding take
notify_pending_example =
    notify_pending model_pending (waiting_for 2 state_pending) 2 (taken 2) 7 refl counting refl refl
      refl

notify_late_example :
    ((state_canceled ≡ state_canceled)
      × (notify model_pending counting (waiting_for 1 state_canceled)
          ≡ done (record (waiting_for 1 state_canceled) { world = give (taken 1) 1 }))
      × ((give (taken 1) 1).count 1 ≡ 0))
    ⊎ ((state_canceled ≢ state_canceled)
        × (notify model_pending counting (waiting_for 1 state_canceled) ≡ abort))
unfolding take
notify_late_example =
    notify_late model_pending (waiting_for 1 state_canceled) 1 (taken 1) 7 refl counting refl refl 1
      (λ e. cc)

Reach-settled_example :
    (state_canceled ≢ state_error)
    × (state_canceled ≢ state_timeout)
    × ((t : S) × (cancel model_pending (waiting_for 1 state_canceled) ≡ done t)
        × (t.call.state ≡ state_canceled))
    × ((t : S) × (destroy model_pending (waiting_for 1 state_canceled) ≡ done t)
        × (t.call.raw ≡ none))
unfolding new_call cancel
Reach-settled_example =
    Reach-settled model_pending counting counting-IsPublic 7 (waiting_for 1 state_pending).world 0
      (waiting_for 1 state_pending) (waiting_for 1 state_canceled) refl (next here (cancels refl))

counting-IsQuiet : IsQuiet model_pending counting
unfolding counting
counting-IsQuiet s s' e = (ground arith, λ n. ground arith)

-- The reply, message 2, came, and notify ran.
replied : (s : S) × (notify model_pending counting (waiting_for 2 state_pending) ≡ done s)
unfolding notify counting take set_error kind
replied = (_, refl)

replies_given_back_example :
    (replied.0.world.count 2 ≡ 0 + held replied.0.call.reply_message 2)
    × ((t : S) × (destroy model_pending replied.0 ≡ done t)
        × ((destroy_members model_pending false t).count 2 ≡ 0)
        × ((destroy_members model_pending true t).count 2
            ≡ 0 + held replied.0.call.reply_message 2))
unfolding new_call
replies_given_back_example =
    replies_given_back model_pending counting counting-IsPublic counting-IsQuiet (λ w r n. refl)
      (λ w r n. refl) (λ w r n. refl) 7 (waiting_for 2 state_pending).world 0
      (waiting_for 2 state_pending) replied.0 2 refl (next here (notifies replied.1))
