-- ===== src/Message/Api.antt =====
-- What the message classes, the reader and the writer use of libdbus. Messages are addresses, a
-- text is the bytes before its terminator, and the value of a fixed type is its bytes.
use dbuscc.Base.{
  ℕ, ◌+◌, ◌≡◌, ◌<◌, Bool, true, Option, List, [], ◌∷◌, ◌++◌, length, ◌==◌, if◌then◌else◌, refl, sym,
  ap, ◌∙◌, ==_iff,
}

abbrev pub Text : Type 0
Text = List ℕ

abbrev pub Bytes : Type 0
Bytes = List ℕ

-- The DBUS_TYPE constants that the code names, and the one at the end of a message.
pub data BasicType : Type 0 where
  byte boolean int16 uint16 int32 uint32 int64 uint64 double string object_path invalid : BasicType

-- How many bytes libdbus reads or writes for a value of a fixed type: a boolean is a dbus_bool_t
-- of 32 bits.
abbrev pub width : BasicType → ℕ
width byte = 1
width boolean = 4
width int16 = 2
width uint16 = 2
width int32 = 4
width uint32 = 4
width int64 = 8
width uint64 = 8
width double = 8
width _ = 0

-- The type codes of the D-Bus specification; types are compared by their codes.
abbrev pub code : BasicType → ℕ
code byte = b'y'
code boolean = b'b'
code int16 = b'n'
code uint16 = b'q'
code int32 = b'i'
code uint32 = b'u'
code int64 = b'x'
code uint64 = b't'
code double = b'd'
code string = b's'
code object_path = b'o'
code invalid = 0

abbrev pub same_type : BasicType → BasicType → Bool
same_type s t = code s == code t

abbrev decode : ℕ → BasicType
decode c =
    if c == b'y'
    then byte
    else if c == b'b'
    then boolean
    else if c == b'n'
    then int16
    else if c == b'q'
    then uint16
    else if c == b'i'
    then int32
    else if c == b'u'
    then uint32
    else if c == b'x'
    then int64
    else if c == b't'
    then uint64
    else if c == b'd'
    then double
    else if c == b's'
    then string
    else if c == b'o'
    then object_path
    else invalid

decode-code : (t : BasicType) → decode (code t) ≡ t
decode-code byte = refl
decode-code _ = refl

pub same_type-eq : (s t : BasicType) → same_type s t ≡ true → s ≡ t
same_type-eq s t h =
    sym (decode-code s) ∙ (ap decode ((==_iff (code s) (code t)).0 h) ∙ decode-code t)

-- An argument of a message: its type, and the bytes of its value or its text.
abbrev pub Argument : Type 0
Argument = BasicType × Bytes

abbrev pub type_at : List Argument → BasicType
type_at [] = invalid
type_at ((t, v) ∷ l) = t

-- An iterator is initialised at the first argument; reading does not move it. Appending adds an
-- argument at the end of the message of the iterator and leaves all other messages alone.
pub record MessageApi : Type 1 where
  pub World : Type 0
  pub Iter : Type 0
  pub message_unref : World → ℕ → World
  pub new_method_call : World → (destination path iface name : Text) → Option ℕ × World
  pub new_signal : World → (path iface name : Text) → Option ℕ × World
  pub get_error_name : World → ℕ → Option Text
  pub iter_init : World → ℕ → Iter
  pub iter_init_append : World → ℕ → Iter
  pub get_arg_type : World → Iter → BasicType
  pub get_basic : World → Iter → Bytes
  pub append_basic : World → Iter → BasicType → Bytes → Bool × World × Iter
  pub references : World → ℕ → ℕ
  pub arguments : World → ℕ → List Argument
  pub message_of : Iter → ℕ
  pub message_of-iter_init : (w : World) (m : ℕ) → message_of (iter_init w m) ≡ m
  pub message_of-iter_init_append : (w : World) (m : ℕ) → message_of (iter_init_append w m) ≡ m
  pub get_arg_type-iter_init :
      (v w : World) (m : ℕ) → get_arg_type w (iter_init v m) ≡ type_at (arguments w m)
  pub get_basic-iter_init :
      (v w : World) (m : ℕ) (t : BasicType) (b : Bytes) (l : List Argument)
      → arguments w m ≡ (t, b) ∷ l
      → get_basic w (iter_init v m) ≡ b
  pub length-get_basic :
      (w : World) (i : Iter)
      → 0 < width (get_arg_type w i)
      → length (get_basic w i) ≡ width (get_arg_type w i)
  pub append_basic_adds :
      (w w' : World) (i i' : Iter) (t : BasicType) (b : Bytes)
      → append_basic w i t b ≡ (true, w', i')
      → (message_of i' ≡ message_of i)
        × (arguments w' (message_of i) ≡ arguments w (message_of i) ++ (t, b) ∷ [])
        × ((m : ℕ) → references w' m ≡ references w m)
  pub references-message_unref :
      (w : World) (m n : ℕ)
      → 0 < references w m
      → references w n ≡ (
          if n == m then references (message_unref w m) n + 1 else references (message_unref w m) n)
