-- ===== src/Names/Validity.antt =====
-- src/bus-name.cc, src/object-path.cc, src/interface.cc, src/member.cc and src/signature.cc: what
-- libdbus gets to validate.
use dbuscc.Base.{ℕ, ◌≡◌, refl, false, [], ◌∷◌, ◌++◌, c_str, arith, ap}
use dbuscc.Message.Api.{Text}
use dbuscc.Names.{
  ValidateApi, NameKind, bus_name, object_path, interface, member, text_equal, new_name, str,
  c_string, equal, is_valid, new_signature, signature_valid, signature_str,
}

c_str-append : (t u : Text) → c_str (t ++ 0 ∷ u) ≡ c_str t
unfolding c_str
c_str-append [] u = refl
c_str-append (x ∷ t) u = ground (arith, c_str-append t u)

text_equal-longer : (t u : Text) (x : ℕ) → text_equal (t ++ x ∷ u) t ≡ false
unfolding text_equal
text_equal-longer [] u x = refl
text_equal-longer (y ∷ t) u x = ground (arith, text_equal-longer t u x)

module _ (api : ValidateApi) where
  is_valid-append :
      (kind : NameKind) (t u : Text)
      → is_valid api kind (new_name (t ++ 0 ∷ u)) ≡ is_valid api kind (new_name t)
  unfolding is_valid new_name
  is_valid-append bus_name t u = ap api.validate_bus_name (c_str-append t u)
  is_valid-append object_path t u = ap api.validate_path (c_str-append t u)
  is_valid-append interface t u = ap api.validate_interface (c_str-append t u)
  is_valid-append member t u = ap api.validate_member (c_str-append t u)

  -- A name of any class, or a signature, is judged by its bytes before the first zero byte: with a
  -- zero byte and anything after it, it is as valid as without, and c_str gives the same, although
  -- == tells the two names apart and str gives the whole text.
  pub validity_stops :
      (kind : NameKind) (t u : Text)
      → (is_valid api kind (new_name (t ++ 0 ∷ u)) ≡ is_valid api kind (new_name t))
        × (c_string {kind = kind} (new_name (t ++ 0 ∷ u)) ≡ c_string {kind = kind} (new_name t))
        × (equal {kind = kind} (new_name (t ++ 0 ∷ u)) (new_name t) ≡ false)
        × (signature_valid (new_signature api (t ++ 0 ∷ u)) ≡ signature_valid (new_signature api t))
        × (str {kind = kind} (new_name (t ++ 0 ∷ u)) ≡ t ++ 0 ∷ u)
        × (signature_str (new_signature api (t ++ 0 ∷ u)) ≡ t ++ 0 ∷ u)
  unfolding c_string new_name equal signature_valid new_signature str signature_str
  validity_stops kind t u = (
    is_valid-append kind t u,
    c_str-append t u,
    text_equal-longer t u 0,
    ap api.signature_validate (c_str-append t u),
    refl,
    refl,
  )
