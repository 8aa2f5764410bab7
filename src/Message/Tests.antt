-- ===== src/Message/Tests.antt =====
-- src/message-reader.cc, src/message-writer.cc and the message classes: the theorems at a small
-- libdbus.
use dbuscc.Base.{
  ℕ, zero, suc, ◌+◌, ◌-◌, ◌<◌, ◌≡◌, refl, ap, Bool, true, false, ◌||◌, none, some, List, [], ◌∷◌,
  ◌++◌, map, done, fault, if◌then◌else◌, ◌==◌, update, length, arith, Bool-cases, inl, inr,
}
use dbuscc.Pointer.{intrusive_ptr_add_ref}
use dbuscc.Message.Api.{
  MessageApi, Bytes, Argument, BasicType, byte, uint32, boolean, width, type_at,
}
use dbuscc.Message.{Messages, raw, call_message, release, create}
use dbuscc.Message.Reader.{
  new_reader, MessageReader, create_reader, copy_reader, destroy_reader, pop_uint32, pop_bool,
  pop_uint8,
}
use dbuscc.Message.Writer.{new_writer, MessageWriter, push_uint32, push_uint8, push_bool}
use dbuscc.Message.Memory.{uint32_t, uint8_t, fixed_in_bounds, bool_out_of_bounds}
use dbuscc.Message.Exchange.{pop-push}
use dbuscc.Message.Ownership.{reader_keeps_message, copy_dangles}

-- The arguments of each message, and the references that the program holds. An iterator is the
-- message it is on. Values of fixed types are stored with their width.
record World : Type 0 where
  args : ℕ → List Argument
  refs : ℕ → ℕ

pad : ℕ → Bytes → Bytes
pad zero b = []
pad (suc n) [] = 0 ∷ pad n []
pad (suc n) (x ∷ b) = x ∷ pad n b

length-pad : (n : ℕ) (b : Bytes) → length (pad n b) ≡ n
unfolding pad
length-pad zero b = refl
length-pad (suc n) [] = omega (arith, length-pad n [])
length-pad (suc n) (x ∷ b) = omega (arith, length-pad n b)

pad_exact : (n : ℕ) (b : Bytes) → length b ≡ n → pad n b ≡ b
unfolding pad
pad_exact zero [] h = refl
pad_exact zero (x ∷ b) h = absurd (omega arith)
pad_exact (suc n) [] h = absurd (omega arith)
pad_exact (suc n) (x ∷ b) h = ap (◌∷◌ x) (pad_exact n b (omega arith))

fit : Argument → Argument
unfolding pad
fit (t, b) = (t, (if width t == 0 then b else pad (width t) b))

args_of : World → ℕ → List Argument
unfolding fit
args_of w m = map fit (w.args m)

value_at : List Argument → Bytes
value_at [] = []
value_at ((t, b) ∷ l) = b

append : World → ℕ → BasicType → Bytes → Bool × World × ℕ
append w i t b =
    if (width t == 0) || (length b == width t)
    then (true, record w { args = update w.args i (w.args i ++ (t, b) ∷ []) }, i)
    else (false, w, i)

unref : World → ℕ → World
unref w m = record w { refs = update w.refs m (w.refs m - 1) }

value_at-args :
    (w : World) (m : ℕ) (t : BasicType) (b : Bytes) (l : List Argument)
    → args_of w m ≡ (t, b) ∷ l
    → value_at (args_of w m) ≡ b
unfolding value_at
value_at-args w m t b l e = ap value_at e

length-value_at :
    (l : List Argument)
    → 0 < width (type_at (map fit l))
    → length (value_at (map fit l)) ≡ width (type_at (map fit l))
unfolding value_at fit
length-value_at [] h = elim h [ ]
length-value_at ((t, b) ∷ l) h = ground (arith, length-pad (width t) b)

fit_exact :
    (t : BasicType) (b : Bytes)
    → ((width t == 0) || (length b == width t)) ≡ true
    → fit (t, b) ≡ (t, b)
unfolding fit
fit_exact t b h = ground (arith, pad_exact (width t) b)

map-fit-append :
    (xs : List Argument) (t : BasicType) (b : Bytes)
    → fit (t, b) ≡ (t, b)
    → map fit (xs ++ (t, b) ∷ []) ≡ map fit xs ++ (t, b) ∷ []
map-fit-append [] t b e = rw e
map-fit-append (x ∷ xs) t b e = ap (◌∷◌ (fit x)) (map-fit-append xs t b e)

append_adds :
    (w w' : World) (i i' : ℕ) (t : BasicType) (b : Bytes)
    → append w i t b ≡ (true, w', i')
    → (i' ≡ i) × (args_of w' i ≡ args_of w i ++ (t, b) ∷ []) × ((m : ℕ) → w'.refs m ≡ w.refs m)
unfolding append args_of
append_adds w w' i i' t b e = elim (Bool-cases ((width t == 0) || (length b == width t))) [
  | inl ok ↦
      let args : w'.args i ≡ w.args i ++ (t, b) ∷ [] = ground (arith, ok, e) in
      (
        ground (arith, ok, e),
        rw args (map-fit-append (w.args i) t b (fit_exact t b ok)),
        λ m. ground (arith, ok, e),
      )
  | inr bad ↦ absurd (ground (arith, bad, e))
]

refs-unref :
    (w : World) (m n : ℕ)
    → 0 < w.refs m
    → w.refs n ≡ (if n == m then (unref w m).refs n + 1 else (unref w m).refs n)
unfolding unref
refs-unref w m n h = ground arith

length-get_args :
    (w : World) (i : ℕ)
    → 0 < width (type_at (args_of w i))
    → length (value_at (args_of w i)) ≡ width (type_at (args_of w i))
unfolding args_of
length-get_args w i h = length-value_at (w.args i) h

abbrev model_messages : MessageApi
model_messages = record {
  World = World;
  Iter = ℕ;
  message_unref = unref;
  new_method_call = λ w d p i n. (some 9, record w { refs = update w.refs 9 1 });
  new_signal = λ w p i n. (none, w);
  get_error_name = λ w m. none;
  iter_init = λ w m. m;
  iter_init_append = λ w m. m;
  get_arg_type = λ w i. type_at (args_of w i);
  get_basic = λ w i. value_at (args_of w i);
  append_basic = append;
  references = λ w m. w.refs m;
  arguments = args_of;
  message_of = λ i. i;
  message_of-iter_init = λ w m. refl;
  message_of-iter_init_append = λ w m. refl;
  get_arg_type-iter_init = λ v w m. refl;
  get_basic-iter_init = λ v w m t b l e. value_at-args w m t b l e;
  length-get_basic = λ w i h. length-get_args w i h;
  append_basic_adds = append_adds;
  references-message_unref = refs-unref;
}

abbrev S : Type 0
S = Messages model_messages

abbrev world_with : List Argument → ℕ → World
world_with l n = record { args = update (λ _. []) 9 l; refs = update (λ _. 0) 9 n }

abbrev with_arguments : List Argument → S
with_arguments l = record { world = world_with l 1; objects = λ _. none; next = 0 }

abbrev reader : MessageReader model_messages
reader = record { msg = some 0; impl = record { msg = 9; raw = 9 } }

abbrev writer : MessageWriter model_messages
writer = record { msg = some 0; impl = record { msg = 9; raw = 9 } }

abbrev number : Bytes
number = 1 ∷ 2 ∷ 3 ∷ 4 ∷ []

-- The states in which one and two arguments were pushed.
abbrev pushed : S → BasicType → Bytes → S
pushed s t b = record s {
  world = record (s.world) { args = update (s.world.args) 9 (s.world.args 9 ++ (t, b) ∷ []) };
}

-- The message object at 0 with its first owner, on message 9 without arguments, and with the writer
-- as another owner.
abbrev owned_by : ℕ → S
owned_by n = record (with_arguments []) {
  objects =
      update (λ _. none) 0
        (some (record { refcnt = n; self = record { kind = call_message; raw = 9 } }));
}

abbrev with_writer : S
with_writer = record (owned_by 1) {
  objects =
      update ((owned_by 1).objects) 0
        (some (record { refcnt = 2; self = record { kind = call_message; raw = 9 } }));
}

fixed_in_bounds_example :
    (pop_uint32 model_messages reader (with_arguments ((uint32, 5 ∷ 0 ∷ 0 ∷ 0 ∷ []) ∷ [])) number
      ≡ done (true, 5 ∷ 0 ∷ 0 ∷ 0 ∷ []))
    × (push_uint32 model_messages number writer (with_arguments ((uint32, 5 ∷ 0 ∷ 0 ∷ 0 ∷ []) ∷ []))
        ≡ done (
          true,
          writer,
          pushed (with_arguments ((uint32, 5 ∷ 0 ∷ 0 ∷ 0 ∷ []) ∷ [])) uint32 number,
        ))
unfolding append args_of fit pad value_at
fixed_in_bounds_example =
    fixed_in_bounds model_messages uint32_t reader writer
      (with_arguments ((uint32, 5 ∷ 0 ∷ 0 ∷ 0 ∷ []) ∷ [])) number (λ e. cc) refl (omega arith)
      (omega arith)

bool_out_of_bounds_example :
    (pop_bool model_messages reader (with_arguments ((boolean, number) ∷ [])) (0 ∷ []) ≡ fault)
    × (push_bool model_messages (0 ∷ []) writer (with_arguments ((boolean, number) ∷ [])) ≡ fault)
unfolding args_of fit
bool_out_of_bounds_example =
    bool_out_of_bounds model_messages reader writer (with_arguments ((boolean, number) ∷ []))
      (0 ∷ []) refl refl (omega arith)

pop-push_example :
    let s3 = pushed (pushed with_writer uint32 number) byte (7 ∷ []) in
    (r : MessageReader model_messages) × (s4 : S) × (new_reader model_messages (some 0) s3
      ≡ done (r, s4))
    × (pop_uint32 model_messages r s4 (0 ∷ 0 ∷ 0 ∷ 0 ∷ []) ≡ done (true, number))
    × (pop_uint32 model_messages r s4 number ≡ done (true, number))
    × (pop_uint8 model_messages r s4 (0 ∷ []) ≡ done (false, 0 ∷ []))
unfolding append args_of push_uint32 push_uint8 new_writer intrusive_ptr_add_ref raw
pop-push_example =
    pop-push model_messages uint32_t uint8_t 0 1 call_message 9 writer writer writer (owned_by 1)
      with_writer (pushed with_writer uint32 number)
      (pushed (pushed with_writer uint32 number) byte (7 ∷ [])) number (7 ∷ []) (0 ∷ 0 ∷ 0 ∷ 0 ∷ [])
      (0 ∷ []) (λ e. cc) (λ e. cc) refl refl refl refl refl (omega arith) (omega arith) refl refl
      refl refl

reader_keeps_message_example :
    (s1 s2 s3 s4 : S) × (r : MessageReader model_messages) × (create model_messages call_message
        (some 9)
        (with_arguments [])
      ≡ done (0, s1))
    × (create_reader model_messages 0 s1 ≡ done (r, s2))
    × (release model_messages 0 s2 ≡ done s3)
    × (s3.world.refs 9 ≡ 1)
    × (destroy_reader model_messages r s3 ≡ done s4)
    × (s4.objects 0 ≡ none)
    × (s4.world.refs 9 + 1 ≡ 1)
reader_keeps_message_example =
    reader_keeps_message model_messages call_message 9 (with_arguments []) (omega arith)

abbrev last_owner : S
last_owner = record (with_arguments ((uint32, number) ∷ [])) {
  objects =
      update (λ _. none) 0
        (some (record { refcnt = 1; self = record { kind = call_message; raw = 9 } }));
}

copy_dangles_example :
    (destroy_reader model_messages (copy_reader model_messages reader) last_owner ≡ done last_owner)
    × ((s' : S) × (destroy_reader model_messages reader last_owner ≡ done s')
        × (pop_uint32 model_messages (copy_reader model_messages reader) s' number ≡ fault))
copy_dangles_example =
    copy_dangles model_messages uint32_t 0 call_message 9 reader last_owner number refl refl refl
      refl
