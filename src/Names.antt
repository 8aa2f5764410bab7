-- ===== src/Names.antt =====
-- src/bus-name.cc, src/object-path.cc, src/interface.cc, src/member.cc and src/signature.cc: the
-- value types for the names of D-Bus. The first four classes differ only in the function of
-- libdbus that validates them, so a constructor of NameKind stands for the class. A text is its
-- bytes.
pub mod Order
pub mod Validity
pub mod Tests
use dbuscc.Base.{ℕ, ◌<◌, Bool, true, false, not, List, [], ◌∷◌, c_str, ◌==◌, leb, if◌then◌else◌}
use dbuscc.Message.Api.{Text}

pub data NameKind : Type 0 where
  bus_name object_path interface member : NameKind

pub record Name (kind : NameKind) : Type 0 where
  pub name : Text

-- The functions of libdbus, which get a C string. signature_validate is the same with and without
-- an error to set.
pub record ValidateApi : Type 0 where
  pub validate_bus_name : Text → Bool
  pub validate_path : Text → Bool
  pub validate_interface : Text → Bool
  pub validate_member : Text → Bool
  pub signature_validate : Text → Bool

-- The comparisons of std::string.
pub text_equal : Text → Text → Bool
text_equal [] [] = true
text_equal [] (y ∷ ys) = false
text_equal (x ∷ xs) [] = false
text_equal (x ∷ xs) (y ∷ ys) = let rest = text_equal xs ys in if x == y then rest else false

pub text_less : Text → Text → Bool
text_less [] [] = false
text_less [] (y ∷ ys) = true
text_less (x ∷ xs) [] = false
text_less (x ∷ xs) (y ∷ ys) = let rest = text_less xs ys in if x == y then rest else leb x y

module _ {kind : NameKind} where
  -- The constructors and the accessors.
  pub empty_name : Name kind
  empty_name = record { name = [] }

  pub new_name : Text → Name kind
  new_name path = record { name = path }

  pub str : Name kind → Text
  str n = n.name

  pub c_string : Name kind → Text
  c_string n = c_str n.name

  -- operator==, operator!= and operator<.
  pub equal : Name kind → Name kind → Bool
  unfolding text_equal
  equal l r = text_equal l.name r.name

  pub not_equal : Name kind → Name kind → Bool
  unfolding text_equal
  not_equal l r = not (text_equal l.name r.name)

  pub less : Name kind → Name kind → Bool
  unfolding text_less
  less l r = text_less l.name r.name

-- signature: the text and whether libdbus found it valid.
pub record Signature : Type 0 where
  pub str_ : Text
  pub valid_ : Bool

pub empty_signature : Signature
empty_signature = record { str_ = []; valid_ = false }

pub signature_valid : Signature → Bool
signature_valid s = s.valid_

pub signature_str : Signature → Text
signature_str s = s.str_

module _ (api : ValidateApi) where
  pub is_valid : (kind : NameKind) → Name kind → Bool
  unfolding c_string
  is_valid bus_name n = api.validate_bus_name (c_string n)
  is_valid object_path n = api.validate_path (c_string n)
  is_valid interface n = api.validate_interface (c_string n)
  is_valid member n = api.validate_member (c_string n)

  pub new_signature : Text → Signature
  new_signature sig = record { str_ = sig; valid_ = api.signature_validate (c_str sig) }
