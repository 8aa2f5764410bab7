-- ===== src/Error/Classify.antt =====
-- src/error.cc: the chain of tests in error::type, and errors that are not set.
use dbuscc.Base.{
  ℕ, zero, suc, ◌≡◌, ◌↔◌, ◌⊎◌, refl, inl, inr, true, false, Option, none, some, List, [], ◌∷◌,
  arith, if◌then◌else◌, Bool-cases, ap, sym, ◌∙◌, subst, fault,
}
use dbuscc.Error.Types.{
  ErrorName, ErrorType, failed, no_memory, service_unknown, name_has_no_owner, no_reply, io_error,
  bad_address, not_supported, limits_exceeded, access_denied, auth_failed, no_server, timeout,
  no_network, address_in_use, disconnected, invalid_args, file_not_found, file_exists,
  unknown_method, unknown_object, unknown_interface, unknown_property, property_read_only,
  timed_out, match_rule_not_found, match_rule_invalid, spawn_exec_failed, spawn_fork_failed,
  spawn_child_exited, spawn_child_signaled, spawn_failed, spawn_setup_failed, spawn_config_invalid,
  spawn_service_invalid, spawn_service_not_found, spawn_permissions_invalid, spawn_file_invalid,
  spawn_no_memory, unix_process_id_unknown, invalid_signature, invalid_file_content,
  selinux_security_context_unknown, adt_audit_data_unknown, object_path_in_use,
  inconsistent_message, type_failed, type_no_memory, type_service_unknown, type_name_has_no_owner,
  type_no_reply, type_io_error, type_bad_address, type_not_supported, type_limits_exceeded,
  type_access_denied, type_auth_failed, type_no_server, type_timeout, type_no_network,
  type_address_in_use, type_disconnected, type_invalid_args, type_file_not_found, type_file_exists,
  type_unknown_method, type_unknown_object, type_unknown_interface, type_unknown_property,
  type_property_read_only, type_timed_out, type_match_rule_not_found, type_match_rule_invalid,
  type_spawn_exec_failed, type_spawn_fork_failed, type_spawn_child_exited,
  type_spawn_child_signaled, type_spawn_failed, type_spawn_setup_failed, type_spawn_config_invalid,
  type_spawn_service_invalid, type_spawn_service_not_found, type_spawn_permissions_invalid,
  type_spawn_file_invalid, type_spawn_no_memory, type_unix_process_id_unknown,
  type_invalid_signature, type_invalid_file_content, type_selinux_security_context_unknown,
  type_adt_audit_data_unknown, type_object_path_in_use, type_inconsistent_message, type_unknown,
}
use dbuscc.Error.{ErrorApi, type, is_set, name, message, destroy, new_error}

-- The error type that stands for a constant, and the constant of a type.
pub type_of : ErrorName → ErrorType
type_of failed = type_failed
type_of no_memory = type_no_memory
type_of service_unknown = type_service_unknown
type_of name_has_no_owner = type_name_has_no_owner
type_of no_reply = type_no_reply
type_of io_error = type_io_error
type_of bad_address = type_bad_address
type_of not_supported = type_not_supported
type_of limits_exceeded = type_limits_exceeded
type_of access_denied = type_access_denied
type_of auth_failed = type_auth_failed
type_of no_server = type_no_server
type_of timeout = type_timeout
type_of no_network = type_no_network
type_of address_in_use = type_address_in_use
type_of disconnected = type_disconnected
type_of invalid_args = type_invalid_args
type_of file_not_found = type_file_not_found
type_of file_exists = type_file_exists
type_of unknown_method = type_unknown_method
type_of unknown_object = type_unknown_object
type_of unknown_interface = type_unknown_interface
type_of unknown_property = type_unknown_property
type_of property_read_only = type_property_read_only
type_of timed_out = type_timed_out
type_of match_rule_not_found = type_match_rule_not_found
type_of match_rule_invalid = type_match_rule_invalid
type_of spawn_exec_failed = type_spawn_exec_failed
type_of spawn_fork_failed = type_spawn_fork_failed
type_of spawn_child_exited = type_spawn_child_exited
type_of spawn_child_signaled = type_spawn_child_signaled
type_of spawn_failed = type_spawn_failed
type_of spawn_setup_failed = type_spawn_setup_failed
type_of spawn_config_invalid = type_spawn_config_invalid
type_of spawn_service_invalid = type_spawn_service_invalid
type_of spawn_service_not_found = type_spawn_service_not_found
type_of spawn_permissions_invalid = type_spawn_permissions_invalid
type_of spawn_file_invalid = type_spawn_file_invalid
type_of spawn_no_memory = type_spawn_no_memory
type_of unix_process_id_unknown = type_unix_process_id_unknown
type_of invalid_signature = type_invalid_signature
type_of invalid_file_content = type_invalid_file_content
type_of selinux_security_context_unknown = type_selinux_security_context_unknown
type_of adt_audit_data_unknown = type_adt_audit_data_unknown
type_of object_path_in_use = type_object_path_in_use
type_of inconsistent_message = type_inconsistent_message

name_of : ErrorType → Option ErrorName
name_of type_failed = some failed
name_of type_no_memory = some no_memory
name_of type_service_unknown = some service_unknown
name_of type_name_has_no_owner = some name_has_no_owner
name_of type_no_reply = some no_reply
name_of type_io_error = some io_error
name_of type_bad_address = some bad_address
name_of type_not_supported = some not_supported
name_of type_limits_exceeded = some limits_exceeded
name_of type_access_denied = some access_denied
name_of type_auth_failed = some auth_failed
name_of type_no_server = some no_server
name_of type_timeout = some timeout
name_of type_no_network = some no_network
name_of type_address_in_use = some address_in_use
name_of type_disconnected = some disconnected
name_of type_invalid_args = some invalid_args
name_of type_file_not_found = some file_not_found
name_of type_file_exists = some file_exists
name_of type_unknown_method = some unknown_method
name_of type_unknown_object = some unknown_object
name_of type_unknown_interface = some unknown_interface
name_of type_unknown_property = some unknown_property
name_of type_property_read_only = some property_read_only
name_of type_timed_out = some timed_out
name_of type_match_rule_not_found = some match_rule_not_found
name_of type_match_rule_invalid = some match_rule_invalid
name_of type_spawn_exec_failed = some spawn_exec_failed
name_of type_spawn_fork_failed = some spawn_fork_failed
name_of type_spawn_child_exited = some spawn_child_exited
name_of type_spawn_child_signaled = some spawn_child_signaled
name_of type_spawn_failed = some spawn_failed
name_of type_spawn_setup_failed = some spawn_setup_failed
name_of type_spawn_config_invalid = some spawn_config_invalid
name_of type_spawn_service_invalid = some spawn_service_invalid
name_of type_spawn_service_not_found = some spawn_service_not_found
name_of type_spawn_permissions_invalid = some spawn_permissions_invalid
name_of type_spawn_file_invalid = some spawn_file_invalid
name_of type_spawn_no_memory = some spawn_no_memory
name_of type_unix_process_id_unknown = some unix_process_id_unknown
name_of type_invalid_signature = some invalid_signature
name_of type_invalid_file_content = some invalid_file_content
name_of type_selinux_security_context_unknown = some selinux_security_context_unknown
name_of type_adt_audit_data_unknown = some adt_audit_data_unknown
name_of type_object_path_in_use = some object_path_in_use
name_of type_inconsistent_message = some inconsistent_message
name_of type_unknown = none

name_of-type_of : (n : ErrorName) → name_of (type_of n) ≡ some n
unfolding name_of type_of
name_of-type_of failed = refl
name_of-type_of _ = refl

-- The constants in the order of the tests.
abbrev all_names : List ErrorName
all_names =
    failed ∷ no_memory ∷ service_unknown ∷ name_has_no_owner ∷ no_reply ∷ io_error ∷ bad_address
    ∷ not_supported ∷ limits_exceeded ∷ access_denied ∷ auth_failed ∷ no_server ∷ timeout
    ∷ no_network ∷ address_in_use ∷ disconnected ∷ invalid_args ∷ file_not_found ∷ file_exists
    ∷ unknown_method ∷ unknown_object ∷ unknown_interface ∷ unknown_property ∷ property_read_only
    ∷ timed_out ∷ match_rule_not_found ∷ match_rule_invalid ∷ spawn_exec_failed ∷ spawn_fork_failed
    ∷ spawn_child_exited ∷ spawn_child_signaled ∷ spawn_failed ∷ spawn_setup_failed
    ∷ spawn_config_invalid ∷ spawn_service_invalid ∷ spawn_service_not_found
    ∷ spawn_permissions_invalid ∷ spawn_file_invalid ∷ spawn_no_memory ∷ unix_process_id_unknown
    ∷ invalid_signature ∷ invalid_file_content ∷ selinux_security_context_unknown
    ∷ adt_audit_data_unknown ∷ object_path_in_use ∷ inconsistent_message ∷ []

abbrev elem : List ErrorName → ℕ → Option ErrorName
elem [] i = none
elem (n ∷ ns) zero = some n
elem (n ∷ ns) (suc i) = elem ns i

unfoldable pub position : ErrorName → ℕ
position failed = 0
position no_memory = 1
position service_unknown = 2
position name_has_no_owner = 3
position no_reply = 4
position io_error = 5
position bad_address = 6
position not_supported = 7
position limits_exceeded = 8
position access_denied = 9
position auth_failed = 10
position no_server = 11
position timeout = 12
position no_network = 13
position address_in_use = 14
position disconnected = 15
position invalid_args = 16
position file_not_found = 17
position file_exists = 18
position unknown_method = 19
position unknown_object = 20
position unknown_interface = 21
position unknown_property = 22
position property_read_only = 23
position timed_out = 24
position match_rule_not_found = 25
position match_rule_invalid = 26
position spawn_exec_failed = 27
position spawn_fork_failed = 28
position spawn_child_exited = 29
position spawn_child_signaled = 30
position spawn_failed = 31
position spawn_setup_failed = 32
position spawn_config_invalid = 33
position spawn_service_invalid = 34
position spawn_service_not_found = 35
position spawn_permissions_invalid = 36
position spawn_file_invalid = 37
position spawn_no_memory = 38
position unix_process_id_unknown = 39
position invalid_signature = 40
position invalid_file_content = 41
position selinux_security_context_unknown = 42
position adt_audit_data_unknown = 43
position object_path_in_use = 44
position inconsistent_message = 45

elem-position : (n : ErrorName) → elem all_names (position n) ≡ some n
unfolding position
elem-position failed = refl
elem-position _ = refl

pub position-injective : (m n : ErrorName) → position m ≡ position n → m ≡ n
position-injective m n p = cc (ap (elem all_names) p, elem-position m, elem-position n)

module _ (api : ErrorApi) (e : api.DBusError) where
  open api use {has_name, has_name_unique}

  -- The chain as a loop over the constants.
  scan : List ErrorName → ErrorType
  scan [] = type_unknown
  scan (n ∷ ns) = if has_name e n then type_of n else scan ns

  type-scan : type api e ≡ scan all_names
  unfolding type scan type_of
  type-scan = refl

  scan_hit :
      (n : ErrorName) (ns : List ErrorName) (i : ℕ)
      → has_name e n ≡ true
      → elem ns i ≡ some n
      → scan ns ≡ type_of n
  unfolding scan
  scan_hit n [] i h p = cc
  scan_hit n (m ∷ ns) zero h p = ground (arith, h, p)
  scan_hit n (m ∷ ns) (suc i) h p = elim (Bool-cases (has_name e m)) [
    | inl hit ↦ rw hit (ap type_of (has_name_unique e m n hit h))
    | inr miss ↦ rw miss (scan_hit n ns i h p)
  ]

  scan-cases :
      (ns : List ErrorName)
      → (scan ns ≡ type_unknown) ⊎ ((m : ErrorName) × (has_name e m ≡ true) × (scan ns ≡ type_of m))
  unfolding scan
  scan-cases [] = inl refl
  scan-cases (m ∷ ns) = elim (Bool-cases (has_name e m)) [
    | inl hit ↦ inr (m, hit, rw hit)
    | inr miss ↦ rw miss (scan-cases ns)
  ]

  type_hit : (n : ErrorName) → has_name e n ≡ true → type api e ≡ type_of n
  type_hit n h = type-scan ∙ scan_hit n all_names (position n) h (elem-position n)

  type-cases :
      (type api e ≡ type_unknown)
      ⊎ ((m : ErrorName) × (has_name e m ≡ true) × (type api e ≡ type_of m))
  type-cases = elim (scan-cases all_names) [
    | inl u ↦ inl (type-scan ∙ u)
    | inr (m, h, p) ↦ inr (m, h, type-scan ∙ p)
  ]

  not-unknown : (n : ErrorName) → type_of n ≡ type_unknown → ⊥
  unfolding name_of
  not-unknown n p = cc (name_of-type_of n, ap name_of p)

  type_named : (n : ErrorName) → type api e ≡ type_of n → has_name e n ≡ true
  type_named n p = elim type-cases [
    | inl u ↦ absurd (not-unknown n (sym p ∙ u))
    | inr (m, h, q) ↦
        let same : m ≡ n = cc (name_of-type_of m, name_of-type_of n, ap name_of (sym q ∙ p)) in
        subst (λ (k : ErrorName). has_name e k ≡ true) same h
  ]

  type_unnamed : type api e ≡ type_unknown → (n : ErrorName) → has_name e n ≡ false
  type_unnamed p n = elim (Bool-cases (has_name e n)) [
    | inl h ↦ absurd (not-unknown n (sym (type_hit n h) ∙ p))
    | inr h ↦ h
  ]

  type_unknown_of : ((n : ErrorName) → has_name e n ≡ false) → type api e ≡ type_unknown
  type_unknown_of h = elim type-cases [ inl u ↦ u | inr (m, k, q) ↦ let l = h m in cc (k, l) ]

  -- error::type gives the type of a constant exactly when libdbus says that the error has that
  -- name, for each of the 46 constants, and TYPE_UNKNOWN exactly when it has none of these names.
  pub type_exact :
      ((n : ErrorName) → (type api e ≡ type_of n) ↔ (has_name e n ≡ true))
      × ((type api e ≡ type_unknown) ↔ ((n : ErrorName) → has_name e n ≡ false))
  type_exact = (λ n. (type_named n, type_hit n), (type_unnamed, type_unknown_of))

  -- An error that is not set has the type TYPE_UNKNOWN, and reading its name or its message
  -- builds a std::string from a null pointer. A new error is not set, and the destructor leaves
  -- no error set, whichever error it is given.
  pub unset_error :
      (d : api.DBusError)
      → is_set api e ≡ false
      → (type api e ≡ type_unknown)
        × (name api e ≡ fault)
        × (message api e ≡ fault)
        × (is_set api (new_error api) ≡ false)
        × (is_set api (destroy api d) ≡ false)
  unfolding is_set name message destroy new_error
  unset_error d u = (
    type_unknown_of (λ n. api.has_name_unset e n u),
    rw (api.name_unset e u),
    rw (api.message_unset e u),
    api.is_set-error_init,
    ground (arith, api.is_set-error_free d),
  )
