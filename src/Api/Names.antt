-- ===== src/Api/Names.antt =====
-- The names of environment variables and the placeholders in paths: a part of api/api.go.
use credential_helper.Text.{Text, lit}

abbrev pub standalone : Text
standalone = lit "CREDENTIAL_HELPER_STANDALONE"

abbrev pub credential_helper_bin : Text
credential_helper_bin = lit "CREDENTIAL_HELPER_BIN"

abbrev pub agent_socket_path : Text
agent_socket_path = lit "CREDENTIAL_HELPER_AGENT_SOCKET"

abbrev pub agent_pid_path : Text
agent_pid_path = lit "CREDENTIAL_HELPER_AGENT_PID"

abbrev pub log_level_env : Text
log_level_env = lit "CREDENTIAL_HELPER_LOGGING"

abbrev pub idle_timeout_env : Text
idle_timeout_env = lit "CREDENTIAL_HELPER_IDLE_TIMEOUT"

abbrev pub prune_interval_env : Text
prune_interval_env = lit "CREDENTIAL_HELPER_PRUNE_INTERVAL"

abbrev pub guess_oci_registry_env : Text
guess_oci_registry_env = lit "CREDENTIAL_HELPER_GUESS_OCI_REGISTRY"

abbrev pub config_file_env : Text
config_file_env = lit "CREDENTIAL_HELPER_CONFIG_FILE"

abbrev pub workdir_env : Text
workdir_env = lit "CREDENTIAL_HELPER_WORKDIR"

abbrev pub workspace_env : Text
workspace_env = lit "CREDENTIAL_HELPER_WORKSPACE_DIRECTORY"

abbrev pub original_working_directory_env : Text
original_working_directory_env = lit "CREDENTIAL_HELPER_ORIGINAL_WORKING_DIRECTORY"

abbrev pub placeholder_workdir : Text
placeholder_workdir = lit "%workdir%"

abbrev pub placeholder_workspace_dir : Text
placeholder_workspace_dir = lit "%workspace%"

abbrev pub placeholder_tmpdir : Text
placeholder_tmpdir = lit "%tmp%"

abbrev pub placeholder_cachedir : Text
placeholder_cachedir = lit "%cache%"

abbrev pub placeholder_homedir : Text
placeholder_homedir = lit "~"
