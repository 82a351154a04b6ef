-- ===== src/Base/Messages.antt =====
-- The messages of the errors that the source makes itself.
pub data Message : Type 0 where
  no_available_ports : Message
  instance_not_found : Message
  not_supported : Message
  image_id_is_empty : Message
  image_sha_mismatch : Message
  inspect_image_failed : Message
  pull_image_failed : Message
  read_pull_failed : Message
  ensure_image_failed : Message
  node_check_failed : Message
  daemon_unreachable : Message
  create_workspace_failed : Message
  chmod_workspace_failed : Message
  build_type_unsupported : Message
  image_name_is_empty : Message
  image_source_unsupported : Message
  image_archive_unsupported : Message
  module_format_unsupported : Message
  runtime_backend_unsupported : Message
  no_launch_command : Message
  number_syntax : Message
  number_out_of_range : Message
  parse_status_failed : Message
  status_marker_missing : Message
  backend_not_on_linux : Message
  checkpoint_backend_mismatch : Message
  checkpoint_backend_is_empty : Message
  instance_info_is_nil : Message
  workspace_is_root : Message
  backup_failed : Message
  inspect_workspace_failed : Message
  activate_failed : Message
  restore_backup_failed : Message
  remove_activated_failed : Message
  remove_backup_failed : Message
  stage_failed : Message
  restore_staged_failed : Message
  restore_not_ready : Message
  decode_checkpoint_failed : Message
  workspace_format_unsupported : Message
  prepare_image_failed : Message
  checkpoint_before_restore_failed : Message
  remove_provisional_failed : Message
  workspace_is_empty : Message
  marshal_failed : Message
  checkpoint_format_unsupported : Message
  checkpoint_name_mismatch : Message
  checkpoint_archive_is_empty : Message
  snapshot_is_empty : Message
  sandbox_workspace_is_empty : Message
  create_payload_dir_failed : Message
  write_payload_failed : Message
  sandbox_exec_failed : Message
  get_runtime_manager_failed : Message
  send_request_failed : Message
  readiness_timeout : Message
  runtime_was_closed : Message
  runtime_not_ready : Message
  request_failed : Message
  create_runtime_failed : Message
  start_runtime_failed : Message
  restore_runtime_state_failed : Message
  remove_runtime_failed : Message
  restore_after_checkpoint_failed : Message
  restore_current_runtime_failed : Message
  cli_unavailable : Message
  sandbox_cli_unavailable : Message
  inspect_template_failed : Message
  pull_template_failed : Message
  template_sha_mismatch : Message
  parse_inspect_failed : Message
  no_inspect_result : Message
  launch_spec_not_found : Message
  lockdown_failed : Message
  inspect_launch_image_failed : Message
  build_launch_command_failed : Message
  zip_too_large : Message
  zip_corrupt : Message
  entry_is_symlink : Message
  entry_escapes : Message
  resolves_outside_workspace : Message
  member_corrupt : Message
  expanded_too_large : Message
  decode_archive_failed : Message
  invalid_archive_path : Message
  archive_path_escapes : Message
  path_escape : Message
  tag_image_failed : Message
  image_id_mismatch : Message
  tag_loaded_failed : Message
  unsupported_image_source : Message
  unsupported_archive_format : Message
