-- ===== src/Watch/Tests.antt =====
-- src/watch.cc: the theorems at a libdbus with one readable watch.
use dbuscc.Base.{
  ℕ, zero, suc, subst, ◌+◌, ◌≡◌, ℤ, pos, Bool, true, false, ◌&&◌, ◌||◌, Option, none, some, update,
  Outcome, done, refl, arith, inr,
}
use dbuscc.Pointer.{intrusive_ptr_add_ref}
use dbuscc.Watch.{
  WatchApi, Bit, readable, same_bit, WatchFlags, has_flag, flag_read, flag_write, flag_hangup,
  flag_error, State, WatchEvent, fd, enabled, flags, handle, create, release, unref, removed,
}
use dbuscc.Watch.Flags.{flag_of, handle_translates, flags_report}
use dbuscc.Watch.Invariant.{AllLinked, Reach, here, next, handles, Reach-accessors_return}
use dbuscc.Watch.Removal.{IsInert, IsQuiet, detached, lifecycle, removed-IsInert}

pub stored : (w : ℕ → Option ℕ) (r a : ℕ) → update w r (some a) r ≡ some a
stored w r a = ground arith

-- The state of libdbus is the data of each watch. A flag word is the set of its bits.
abbrev pub model_api : WatchApi
model_api = record {
  World = ℕ → Option ℕ;
  Raw = ℕ;
  Word = Bit → Bool;
  zero_word = λ b. false;
  or_bit = λ w b c. same_bit b c || w c;
  test_bit = λ w b. w b;
  get_enabled = λ w r. true;
  get_flags = λ w r. same_bit readable;
  get_unix_fd = λ w r. pos (r + 3);
  handle = λ w r f. (f readable, w);
  get_data = λ w r. w r;
  set_data = λ w r a. update w r (some a);
  test_bit-zero_word = λ b. refl;
  test_bit-or_bit = λ w b c. refl;
  get_data-set_data = stored;
}

abbrev S : Type 0
S = State model_api (Unit {0})

abbrev initial : S
initial = record { world = λ _. none; heap = λ _. none; next = 0; env = tt }

no_slots : ℕ → WatchEvent → S → Outcome S
no_slots a e s = done s

-- The watch of raw watch 5 at address 0, held by libdbus and by a client.
abbrev watched : S
watched = record initial {
  world = update (λ _. none) 5 (some 0);
  heap =
      update (λ _. none) 0
        (some (record { refcnt = 2; self = record { raw = some 5; is_removed = false } }));
  next = 1;
}

create-watched :
    (S' : S) × (create model_api (some 5) initial ≡ done (0, S'))
    × (fd model_api 0 S' ≡ done (pos 8))
unfolding create fd intrusive_ptr_add_ref
create-watched = (_, refl, refl)

watched-AllLinked : AllLinked model_api watched
watched-AllLinked zero c e = inr (ground arith, (5, ground arith))
watched-AllLinked (suc a) c e = absurd (ground arith)

handle_translates_example :
    (w : Bit → Bool) × (handle model_api 0 5 watched
      ≡ done (
        (model_api.handle watched.world 5 w).0,
        record watched { world = (model_api.handle watched.world 5 w).1 },
      ))
    × ((b : Bit) → model_api.test_bit w b ≡ has_flag 5 (flag_of b))
handle_translates_example = handle_translates model_api 0 watched 2 5 refl 5

flags_report-watched :
    (fl : WatchFlags) × (flags model_api 0 watched ≡ done fl)
    × (has_flag fl flag_read ≡ (true && true))
    × (has_flag fl flag_write ≡ (true && false))
    × (has_flag fl flag_hangup ≡ false)
    × (has_flag fl flag_error ≡ false)
flags_report-watched = flags_report model_api 0 watched 2 5 refl

no_slots-keeps :
    (a : ℕ) (e : WatchEvent) (s s' : S)
    → no_slots a e s ≡ done s'
    → AllLinked model_api s
    → AllLinked model_api s'
unfolding no_slots
no_slots-keeps a e s s' p v = let same : s ≡ s' = cc (p) in subst (AllLinked model_api) same v

handled : Reach model_api no_slots no_slots-keeps watched watched
unfolding handle
handled = next here (handles 0 1 true refl)

Reach-accessors_return_example :
    ((x : ℤ) × (fd model_api 0 watched ≡ done x))
    × ((b : Bool) × (enabled model_api 0 watched ≡ done b))
    × ((fl : WatchFlags) × (flags model_api 0 watched ≡ done fl))
    × ((fl : WatchFlags) → (r : Bool × S) × (handle model_api 0 fl watched ≡ done r))
Reach-accessors_return_example =
    Reach-accessors_return model_api no_slots no_slots-keeps 0 _ handled watched-AllLinked refl

no_slots-IsQuiet : IsQuiet model_api no_slots
unfolding no_slots
no_slots-IsQuiet a e s = (tt, refl)

lifecycle_example :
    (s1 s2 s3 s4 : S) × (create model_api (some 5) initial ≡ done (0, s1))
    × (model_api.get_data s1.world 5 ≡ some 0)
    × (release model_api 0 s1 ≡ done s2)
    × (removed model_api no_slots (some 5) s2 ≡ done s3)
    × IsInert model_api 0 s3
    × (unref model_api (some 0) s3 ≡ done s4)
    × (s4.heap 0 ≡ none)
lifecycle_example = lifecycle model_api no_slots no_slots-IsQuiet 5 initial

removed-IsInert_example :
    (s' : S) × (removed model_api no_slots (some 5) watched ≡ done s')
    × (s'.heap 0 ≡ some (record { refcnt = 2; self = detached }))
    × (s'.world ≡ watched.world)
    × IsInert model_api 0 s'
removed-IsInert_example =
    removed-IsInert model_api no_slots no_slots-IsQuiet 5 0 2 _ watched refl refl (omega arith)
      (omega arith)
