-- ===== src/Error/Tests.antt =====
-- src/error.cc: the theorems at a libdbus whose errors are unset or carry one constant.
use Prim.Native.String.{String}
use dbuscc.Base.{◌≡◌, ◌↔◌, refl, Bool, true, false, Option, none, some, arith, fault, ◌==◌, is_some}
use dbuscc.Error.Types.{ErrorName, type_unknown, type_no_reply, no_reply}
use dbuscc.Error.{ErrorApi, type, is_set, name, message, destroy, new_error}
use dbuscc.Error.Classify.{type_of, position, position-injective, type_exact, unset_error}

pub has : Option ErrorName → ErrorName → Bool
has none n = false
has (some m) n = position m == position n

-- The text of an error does not matter here.
pub text : Option ErrorName → Option String
text none = none
text (some n) = some "message"

pub text_unset : (e : Option ErrorName) → is_some e ≡ false → text e ≡ none
unfolding text
text_unset none h = refl
text_unset (some n) h = cc

pub has_unset : (e : Option ErrorName) (n : ErrorName) → is_some e ≡ false → has e n ≡ false
unfolding has
has_unset none n h = refl
has_unset (some m) n h = cc

pub has_unique : (e : Option ErrorName) (m n : ErrorName) → has e m ≡ true → has e n ≡ true → m ≡ n
unfolding has
has_unique none m n h k = cc
has_unique (some l) m n h k = position-injective m n (ground arith)

abbrev pub model_errors : ErrorApi
model_errors = record {
  DBusError = Option ErrorName;
  error_init = none;
  is_set = is_some;
  has_name = has;
  name = text;
  message = text;
  error_free = λ e. none;
  is_set-error_init = refl;
  is_set-error_free = λ e. refl;
  name_unset = text_unset;
  message_unset = text_unset;
  has_name_unset = has_unset;
  has_name_unique = has_unique;
}

type_exact_example :
    ((n : ErrorName)
      → (type model_errors (some no_reply) ≡ type_of n) ↔ (has (some no_reply) n ≡ true))
    × ((type model_errors (some no_reply) ≡ type_unknown)
        ↔ ((n : ErrorName) → has (some no_reply) n ≡ false))
type_exact_example = type_exact model_errors (some no_reply)

type-no_reply : type model_errors (some no_reply) ≡ type_no_reply
unfolding type has position
type-no_reply = refl

unset_error_example :
    (type model_errors none ≡ type_unknown)
    × (name model_errors none ≡ fault)
    × (message model_errors none ≡ fault)
    × (is_set model_errors (new_error model_errors) ≡ false)
    × (is_set model_errors (destroy model_errors (some no_reply)) ≡ false)
unfolding is_set
unset_error_example = unset_error model_errors none (some no_reply) refl
