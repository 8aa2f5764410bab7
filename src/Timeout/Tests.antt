-- ===== src/Timeout/Tests.antt =====
-- src/timeout.cc: the theorems at a libdbus with timeouts of 25 seconds.
use dbuscc.Base.{
  ℕ, zero, suc, ◌≡◌, ℤ, pos, Bool, true, false, Option, none, some, update, Outcome, done, refl,
  arith, inr, subst,
}
use dbuscc.Pointer.{intrusive_ptr_add_ref}
use dbuscc.Timeout.{
  TimeoutApi, State, TimeoutEvent, ms_interval, enabled, handle, create, release, unref, removed,
}
use dbuscc.Timeout.Invariant.{AllLinked, Reach, here, next, handles, Reach-timeout_return}
use dbuscc.Timeout.Removal.{IsInert, IsQuiet, detached, timeout_lifecycle, removed-timeout_IsInert}

pub stored : (w : ℕ → Option ℕ) (r a : ℕ) → update w r (some a) r ≡ some a
stored w r a = ground arith

-- The state of libdbus is the data of each timeout.
abbrev pub model_api : TimeoutApi
model_api = record {
  World = ℕ → Option ℕ;
  Raw = ℕ;
  get_enabled = λ w r. true;
  get_interval = λ w r. pos 25000;
  handle = λ w r. (true, w);
  get_data = λ w r. w r;
  set_data = λ w r a. update w r (some a);
  get_data-set_data = stored;
}

abbrev S : Type 0
S = State model_api (Unit {0})

abbrev initial : S
initial = record { world = λ _. none; heap = λ _. none; next = 0; env = tt }

no_slots : ℕ → TimeoutEvent → S → Outcome S
no_slots a e s = done s

-- The timeout of raw timeout 5 at address 0, held by libdbus and by a client.
abbrev armed : S
armed = record initial {
  world = update (λ _. none) 5 (some 0);
  heap =
      update (λ _. none) 0
        (some (record { refcnt = 2; self = record { raw = some 5; is_removed = false } }));
  next = 1;
}

create-armed :
    (s' : S) × (create model_api (some 5) initial ≡ done (0, s'))
    × (ms_interval model_api 0 s' ≡ done (pos 25000))
unfolding create ms_interval intrusive_ptr_add_ref
create-armed = (_, refl, refl)

armed-AllLinked : AllLinked model_api armed
armed-AllLinked zero c e = inr (ground arith, (5, ground arith))
armed-AllLinked (suc a) c e = absurd (ground arith)

no_slots-keeps :
    (a : ℕ) (e : TimeoutEvent) (s s' : S)
    → no_slots a e s ≡ done s'
    → AllLinked model_api s
    → AllLinked model_api s'
unfolding no_slots
no_slots-keeps a e s s' p v = let same : s ≡ s' = cc (p) in subst (AllLinked model_api) same v

handled : Reach model_api no_slots no_slots-keeps armed armed
unfolding handle
handled = next here (handles 0 true refl)

Reach-timeout_return_example :
    ((x : ℤ) × (ms_interval model_api 0 armed ≡ done x))
    × ((b : Bool) × (enabled model_api 0 armed ≡ done b))
    × ((r : Bool × S) × (handle model_api 0 armed ≡ done r))
Reach-timeout_return_example =
    Reach-timeout_return model_api no_slots no_slots-keeps 0 _ handled armed-AllLinked refl

no_slots-IsQuiet : IsQuiet model_api no_slots
unfolding no_slots
no_slots-IsQuiet a e s = (tt, refl)

timeout_lifecycle-one :
    (s1 s2 s3 s4 : S) × (create model_api (some 5) initial ≡ done (0, s1))
    × (model_api.get_data s1.world 5 ≡ some 0)
    × (release model_api 0 s1 ≡ done s2)
    × (removed model_api no_slots (some 5) s2 ≡ done s3)
    × IsInert model_api 0 s3
    × (unref model_api (some 0) s3 ≡ done s4)
    × (s4.heap 0 ≡ none)
timeout_lifecycle-one = timeout_lifecycle model_api no_slots no_slots-IsQuiet 5 initial

removed-timeout_IsInert-held :
    (s' : S) × (removed model_api no_slots (some 5) armed ≡ done s')
    × (s'.heap 0 ≡ some (record { refcnt = 2; self = detached }))
    × (s'.world ≡ armed.world)
    × IsInert model_api 0 s'
removed-timeout_IsInert-held =
    removed-timeout_IsInert model_api no_slots no_slots-IsQuiet 5 0 2 _ armed refl refl
      (omega arith) (omega arith)
