-- ===== src/Error/Types.antt =====
-- include/dbuscc/error.h: the DBUS_ERROR constants that error.cc names, and error::Type.
pub data ErrorName : Type 0 where
  failed no_memory service_unknown name_has_no_owner no_reply io_error bad_address : ErrorName
  not_supported limits_exceeded access_denied auth_failed no_server timeout no_network : ErrorName
  address_in_use disconnected invalid_args file_not_found file_exists unknown_method : ErrorName
  unknown_object unknown_interface unknown_property property_read_only timed_out : ErrorName
  match_rule_not_found match_rule_invalid spawn_exec_failed spawn_fork_failed : ErrorName
  spawn_child_exited spawn_child_signaled spawn_failed spawn_setup_failed spawn_config_invalid :
      ErrorName
  spawn_service_invalid spawn_service_not_found spawn_permissions_invalid spawn_file_invalid :
      ErrorName
  spawn_no_memory unix_process_id_unknown invalid_signature invalid_file_content : ErrorName
  selinux_security_context_unknown adt_audit_data_unknown object_path_in_use : ErrorName
  inconsistent_message : ErrorName

pub data ErrorType : Type 0 where
  type_failed type_no_memory type_service_unknown type_name_has_no_owner type_no_reply : ErrorType
  type_io_error type_bad_address type_not_supported type_limits_exceeded type_access_denied :
      ErrorType
  type_auth_failed type_no_server type_timeout type_no_network type_address_in_use : ErrorType
  type_disconnected type_invalid_args type_file_not_found type_file_exists type_unknown_method :
      ErrorType
  type_unknown_object type_unknown_interface type_unknown_property type_property_read_only :
      ErrorType
  type_timed_out type_match_rule_not_found type_match_rule_invalid type_spawn_exec_failed :
      ErrorType
  type_spawn_fork_failed type_spawn_child_exited type_spawn_child_signaled type_spawn_failed :
      ErrorType
  type_spawn_setup_failed type_spawn_config_invalid type_spawn_service_invalid : ErrorType
  type_spawn_service_not_found type_spawn_permissions_invalid type_spawn_file_invalid : ErrorType
  type_spawn_no_memory type_unix_process_id_unknown type_invalid_signature : ErrorType
  type_invalid_file_content type_selinux_security_context_unknown type_adt_audit_data_unknown :
      ErrorType
  type_object_path_in_use type_inconsistent_message type_unknown : ErrorType
