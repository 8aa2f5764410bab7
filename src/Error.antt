-- ===== src/Error.antt =====
-- src/error.cc, include/dbuscc/error.h and include/dbuscc/glue/error.h: the wrapper of a
-- DBusError. libdbus is a parameter: the value of a DBusError and the functions on it.
pub mod Types
pub mod Classify
pub mod Tests
use Prim.Native.String.{String}
use dbuscc.Base.{
  Bool, true, false, Option, none, some, Outcome, done, ◌>>=◌, deref, if◌then◌else◌, ◌≡◌,
}
use Types.{
  ErrorName, ErrorType, failed, no_memory, service_unknown, name_has_no_owner, no_reply, io_error,
  bad_address, not_supported, limits_exceeded, access_denied, auth_failed, no_server, timeout,
  no_network, address_in_use, disconnected, invalid_args, file_not_found, file_exists,
  unknown_method, unknown_object, unknown_interface, unknown_property, property_read_only,
  timed_out, match_rule_not_found, match_rule_invalid, spawn_exec_failed, spawn_fork_failed,
  spawn_child_exited, spawn_child_signaled, spawn_failed, spawn_setup_failed, spawn_config_invalid,
  spawn_service_invalid, spawn_service_not_found, spawn_permissions_invalid, spawn_file_invalid,
  spawn_no_memory, unix_process_id_unknown, invalid_signature, invalid_file_content,
  selinux_security_context_unknown, adt_audit_data_unknown, object_path_in_use,
  inconsistent_message, type_failed, type_no_memory, type_service_unknown, type_name_has_no_owner,
  type_no_reply, type_io_error, type_bad_address, type_not_supported, type_limits_exceeded,
  type_access_denied, type_auth_failed, type_no_server, type_timeout, type_no_network,
  type_address_in_use, type_disconnected, type_invalid_args, type_file_not_found, type_file_exists,
  type_unknown_method, type_unknown_object, type_unknown_interface, type_unknown_property,
  type_property_read_only, type_timed_out, type_match_rule_not_found, type_match_rule_invalid,
  type_spawn_exec_failed, type_spawn_fork_failed, type_spawn_child_exited,
  type_spawn_child_signaled, type_spawn_failed, type_spawn_setup_failed, type_spawn_config_invalid,
  type_spawn_service_invalid, type_spawn_service_not_found, type_spawn_permissions_invalid,
  type_spawn_file_invalid, type_spawn_no_memory, type_unix_process_id_unknown,
  type_invalid_signature, type_invalid_file_content, type_selinux_security_context_unknown,
  type_adt_audit_data_unknown, type_object_path_in_use, type_inconsistent_message, type_unknown,
}

-- What the code uses of libdbus: an error that is not set has no name and no message, has_name
-- compares the name of an error that is set, and a freed error is not set.
pub record ErrorApi : Type 1 where
  pub DBusError : Type 0
  pub error_init : DBusError
  pub is_set : DBusError → Bool
  pub has_name : DBusError → ErrorName → Bool
  pub name : DBusError → Option String
  pub message : DBusError → Option String
  pub error_free : DBusError → DBusError
  pub is_set-error_init : is_set error_init ≡ false
  pub is_set-error_free : (e : DBusError) → is_set (error_free e) ≡ false
  pub name_unset : (e : DBusError) → is_set e ≡ false → name e ≡ none
  pub message_unset : (e : DBusError) → is_set e ≡ false → message e ≡ none
  pub has_name_unset : (e : DBusError) (n : ErrorName) → is_set e ≡ false → has_name e n ≡ false
  pub has_name_unique :
      (e : DBusError) (m n : ErrorName) → has_name e m ≡ true → has_name e n ≡ true → m ≡ n

module _ (api : ErrorApi) where
  open api use {DBusError, has_name}

  -- error::error and glue::error::error.
  pub new_error : DBusError
  new_error = api.error_init

  pub is_set : DBusError → Bool
  is_set e = api.is_set e

  -- A std::string that is built from a null pointer is undefined behaviour.
  pub name : DBusError → Outcome String
  name e = deref (api.name e)

  pub message : DBusError → Outcome String
  message e = deref (api.message e)

  -- glue::error::~error.
  pub destroy : DBusError → DBusError
  destroy e = if api.is_set e then api.error_free e else e

  unfoldable pub type : DBusError → ErrorType
  type e =
      if has_name e failed
      then type_failed
      else if has_name e no_memory
      then type_no_memory
      else if has_name e service_unknown
      then type_service_unknown
      else if has_name e name_has_no_owner
      then type_name_has_no_owner
      else if has_name e no_reply
      then type_no_reply
      else if has_name e io_error
      then type_io_error
      else if has_name e bad_address
      then type_bad_address
      else if has_name e not_supported
      then type_not_supported
      else if has_name e limits_exceeded
      then type_limits_exceeded
      else if has_name e access_denied
      then type_access_denied
      else if has_name e auth_failed
      then type_auth_failed
      else if has_name e no_server
      then type_no_server
      else if has_name e timeout
      then type_timeout
      else if has_name e no_network
      then type_no_network
      else if has_name e address_in_use
      then type_address_in_use
      else if has_name e disconnected
      then type_disconnected
      else if has_name e invalid_args
      then type_invalid_args
      else if has_name e file_not_found
      then type_file_not_found
      else if has_name e file_exists
      then type_file_exists
      else if has_name e unknown_method
      then type_unknown_method
      else if has_name e unknown_object
      then type_unknown_object
      else if has_name e unknown_interface
      then type_unknown_interface
      else if has_name e unknown_property
      then type_unknown_property
      else if has_name e property_read_only
      then type_property_read_only
      else if has_name e timed_out
      then type_timed_out
      else if has_name e match_rule_not_found
      then type_match_rule_not_found
      else if has_name e match_rule_invalid
      then type_match_rule_invalid
      else if has_name e spawn_exec_failed
      then type_spawn_exec_failed
      else if has_name e spawn_fork_failed
      then type_spawn_fork_failed
      else if has_name e spawn_child_exited
      then type_spawn_child_exited
      else if has_name e spawn_child_signaled
      then type_spawn_child_signaled
      else if has_name e spawn_failed
      then type_spawn_failed
      else if has_name e spawn_setup_failed
      then type_spawn_setup_failed
      else if has_name e spawn_config_invalid
      then type_spawn_config_invalid
      else if has_name e spawn_service_invalid
      then type_spawn_service_invalid
      else if has_name e spawn_service_not_found
      then type_spawn_service_not_found
      else if has_name e spawn_permissions_invalid
      then type_spawn_permissions_invalid
      else if has_name e spawn_file_invalid
      then type_spawn_file_invalid
      else if has_name e spawn_no_memory
      then type_spawn_no_memory
      else if has_name e unix_process_id_unknown
      then type_unix_process_id_unknown
      else if has_name e invalid_signature
      then type_invalid_signature
      else if has_name e invalid_file_content
      then type_invalid_file_content
      else if has_name e selinux_security_context_unknown
      then type_selinux_security_context_unknown
      else if has_name e adt_audit_data_unknown
      then type_adt_audit_data_unknown
      else if has_name e object_path_in_use
      then type_object_path_in_use
      else if has_name e inconsistent_message
      then type_inconsistent_message
      else type_unknown
