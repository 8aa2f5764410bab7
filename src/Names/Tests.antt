-- ===== src/Names/Tests.antt =====
-- src/bus-name.cc: the theorems at concrete names.
use dbuscc.Base.{ℕ, ◌≡◌, true, false, List, [], ◌∷◌, ◌==◌, c_str, refl, length}
use dbuscc.Message.Api.{Text}
use dbuscc.Names.{
  ValidateApi, bus_name, object_path, member, Name, equal, not_equal, less, is_valid, new_name, str,
  c_string, new_signature, signature_valid, signature_str,
}
use dbuscc.Names.Order.{IsOrdered, names_IsOrdered, less_chain}
use dbuscc.Names.Validity.{validity_stops}

abbrev name_of : List ℕ → Name bus_name
name_of n = record { name = n }

names_IsOrdered_example : IsOrdered (name_of (97 ∷ 46 ∷ [])) (name_of (97 ∷ 46 ∷ 98 ∷ []))
names_IsOrdered_example = names_IsOrdered (name_of (97 ∷ 46 ∷ [])) (name_of (97 ∷ 46 ∷ 98 ∷ []))

chained :
    let l = name_of (97 ∷ []) in
    let r = name_of (98 ∷ []) in
    (less l r ≡ true) × (equal l r ≡ false) × (not_equal l r ≡ true) × (less r l ≡ false)
unfolding less
chained = less_chain (name_of (97 ∷ [])) (name_of (97 ∷ 0 ∷ [])) (name_of (98 ∷ [])) refl refl

-- A libdbus that takes the texts of two bytes for valid.
abbrev model_validate : ValidateApi
model_validate = record {
  validate_bus_name = λ t. length t == 2;
  validate_path = λ t. length t == 2;
  validate_interface = λ t. length t == 2;
  validate_member = λ t. length t == 2;
  signature_validate = λ t. length t == 2;
}

abbrev long_text : Text
long_text = 97 ∷ 98 ∷ 0 ∷ 99 ∷ []

valid_prefix : is_valid model_validate member (new_name long_text) ≡ true
unfolding is_valid new_name c_str
valid_prefix = refl

validity_stops_example :
    (is_valid model_validate member (new_name long_text)
      ≡ is_valid model_validate member (new_name (97 ∷ 98 ∷ [])))
    × (c_string {kind = member} (new_name long_text)
        ≡ c_string {kind = member} (new_name (97 ∷ 98 ∷ [])))
    × (equal {kind = member} (new_name long_text) (new_name (97 ∷ 98 ∷ [])) ≡ false)
    × (signature_valid (new_signature model_validate long_text)
        ≡ signature_valid (new_signature model_validate (97 ∷ 98 ∷ [])))
    × (str {kind = member} (new_name long_text) ≡ long_text)
    × (signature_str (new_signature model_validate long_text) ≡ long_text)
validity_stops_example = validity_stops model_validate member (97 ∷ 98 ∷ []) (99 ∷ [])

-- /bar comes before /foo, and the empty path before both.
bar_before_foo :
    (less {kind = object_path} (new_name (47 ∷ 98 ∷ [])) (new_name (47 ∷ 102 ∷ [])) ≡ true)
    × (less {kind = object_path} (new_name []) (new_name (47 ∷ 98 ∷ [])) ≡ true)
unfolding less new_name
bar_before_foo = (refl, refl)
