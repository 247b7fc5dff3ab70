-- ===== src/Vm/Status.antt =====
-- `VMStatus` and the capabilities of internal/spind/vm/start. The probe of a process
-- (`kill(pid, 0)`), the published ports of a Docker socket and `runtime.GOARCH` are the `Host`.
use spind.Prelude.{
  Bool, Bytes, List, Result, [], codes, err, false, if◌then◌else◌, is_empty, not, ok, str_eq, true,
  ℕ, ◌%◌, ◌&&◌, ◌*◌, ◌==◌, ◌^◌, ◌||◌, ◌∷◌, ◌>>=◌, ◌>>◌,
}
use spind.Text.Words.{contains}
use spind.Snapshot.{join, cloud_hypervisor}
use spind.Vm.{
  VmMetadata, JsonFile, missing, unreadable, readable, VmError, read_metadata_failed,
  read_state_failed, not_found, validate_store_name, hydrate_vm_metadata,
}
use spind.Vm.State.{VmState}
use spind.Vm.Info.{VmInfo}
use spind.Vm.Logs.{first_non_empty, vm_log_paths, serial_log_path, backend_log_path, event_log_path}

-- what `kill` returns: nil, ESRCH, EPERM or another error
pub data KillResult : Type 0 where
  delivered no_process not_permitted kill_failed : KillResult

abbrev pub is_alive : KillResult → Bool
is_alive delivered = true
is_alive no_process = false
is_alive not_permitted = true
is_alive kill_failed = false

pub record Host : Type 0 where
  pub probe : ℕ → KillResult
  pub published_ports : Bytes → List Bytes
  pub goarch : Bytes

unfoldable pub process_alive : (ℕ → KillResult) → ℕ → Bool
process_alive probe pid = if pid == 0 then false else is_alive (probe pid)

abbrev pub is_docker_host_image : VmMetadata → Bool
is_docker_host_image metadata = contains (codes "docker") metadata.image

abbrev pub support_of : Bool → Bytes
support_of supported = if supported then codes "supported" else codes "unsupported"

abbrev pub is_unsupported : Bytes → Bool
is_unsupported support = str_eq support (codes "unsupported")

unfoldable pub capability_status : Bool → Bytes
capability_status ready = if ready then codes "ready" else codes "unavailable"

unfoldable pub docker_capability_support : VmMetadata → Bytes
docker_capability_support metadata = support_of (is_docker_host_image metadata)

unfoldable pub docker_capability_status : VmMetadata → Bool → Bytes
docker_capability_status metadata ready =
    if is_unsupported (docker_capability_support metadata)
    then codes "not-applicable"
    else capability_status ready

unfoldable pub host_share_support : VmMetadata → Bytes
host_share_support metadata =
    if not (is_docker_host_image metadata)
    then codes "unsupported"
    else if str_eq metadata.backend cloud_hypervisor && metadata.from_snapshot
    then codes "unsupported"
    else codes "supported"

unfoldable pub host_share_status : VmMetadata → VmState → Bytes
host_share_status metadata state =
    if is_unsupported (host_share_support metadata)
    then codes "not-applicable"
    else capability_status state.host_share_ready

unfoldable pub host_share_status_reason : VmMetadata → VmState → Bytes
host_share_status_reason metadata state =
    if (str_eq metadata.backend cloud_hypervisor && metadata.from_snapshot)
      && is_docker_host_image metadata
    then codes "cloud-hypervisor snapshot restore prioritizes saved-state restore speed"
    else state.host_share_last_error

unfoldable pub kubernetes_support : VmMetadata → Bytes
kubernetes_support metadata = support_of metadata.kind_ready

unfoldable pub kubernetes_status : VmMetadata → VmState → Bytes
kubernetes_status metadata state =
    if is_unsupported (kubernetes_support metadata)
    then codes "not-applicable"
    else capability_status state.kubernetes_ready

-- whether the process of a VM that its state calls running is there
unfoldable pub is_running : (ℕ → KillResult) → VmState → Bool
is_running probe state =
    (str_eq state.status (codes "running") && not (state.pid == 0)) && process_alive probe state.pid

abbrev pub is_stale : Host → VmState → Bool
is_stale host state =
    str_eq state.status (codes "running")
    && (state.pid == 0 || not (process_alive host.probe state.pid))

unfoldable pub live_status : Host → VmState → Bytes
live_status host state = if is_stale host state then codes "stopped" else state.status

unfoldable pub live_exec_ready : Host → VmState → Bool
live_exec_ready host state = if is_stale host state then false else state.exec_ready

abbrev pub restore_mode : VmMetadata → Bytes
restore_mode metadata = if metadata.from_snapshot then codes "saved-state" else codes "boot"

abbrev pub live_published_ports : Host → VmState → List Bytes
live_published_ports host state =
    if state.docker_available && not (is_empty state.docker_socket_path)
    then host.published_ports state.docker_socket_path
    else state.docker_published_ports

unfoldable pub port_relay_ready : Host → VmState → Bool
port_relay_ready host state =
    (state.docker_port_relay_ready && not (state.docker_port_relay_pid == 0))
    && process_alive host.probe state.docker_port_relay_pid

-- The `int64` of the duration is written as its 64 bits.
unfoldable pub info_of : Host → Bytes → Bytes → VmMetadata → VmState → VmInfo
info_of host vm_dir name metadata state = record {
  name = name;
  status = live_status host state;
  backend = metadata.backend;
  pid = state.pid;
  exec_ready = live_exec_ready host state;
  image = metadata.image;
  from_snapshot = metadata.from_snapshot;
  source_snapshot = metadata.source_snapshot;
  restore_mode = restore_mode metadata;
  vm_dir = vm_dir;
  state_path = join vm_dir (codes "state.json");
  exec_socket_path = state.exec_socket_path;
  cloud_hypervisor_api_socket_path = state.cloud_hypervisor_api_socket_path;
  cloud_hypervisor_vsock_path = state.cloud_hypervisor_vsock_socket_path;
  docker_socket_path = state.docker_socket_path;
  docker_endpoint_uri = state.docker_endpoint_uri;
  docker_relay_pid = state.docker_relay_pid;
  docker_guest_port = state.docker_guest_port;
  docker_api_support = docker_capability_support metadata;
  docker_api_status =
      docker_capability_status metadata (
        state.docker_available
        && state.docker_api_ready
        && not (is_empty state.docker_socket_path));
  docker_api_ready = state.docker_api_ready;
  docker_available = state.docker_available && not (is_empty state.docker_socket_path);
  docker_last_error = state.docker_last_error;
  docker_log_path = state.docker_log_path;
  docker_network_support = docker_capability_support metadata;
  docker_network_status = docker_capability_status metadata state.docker_network_ready;
  docker_network_ready = state.docker_network_ready;
  docker_network_last_error = state.docker_network_last_error;
  docker_guest_ip_address = state.docker_guest_ip_address;
  docker_default_route_ready = state.docker_default_route_ready;
  docker_dns_ready = state.docker_dns_ready;
  docker_bridge_ready = state.docker_bridge_ready;
  docker_pull_ready = state.docker_pull_ready;
  docker_tcp_forward_socket_path = state.docker_tcp_forward_socket_path;
  docker_tcp_forward_guest_port = state.docker_tcp_forward_guest_port;
  docker_port_relay_pid = state.docker_port_relay_pid;
  docker_port_relay_support = docker_capability_support metadata;
  docker_port_relay_status = docker_capability_status metadata (port_relay_ready host state);
  docker_port_relay_ready = port_relay_ready host state;
  docker_port_relay_log_path = state.docker_port_relay_log_path;
  docker_published_ports = live_published_ports host state;
  docker_network_backend = state.docker_network_backend;
  docker_network_backend_pid = state.docker_network_backend_pid;
  docker_network_socket_path = state.docker_network_socket_path;
  docker_network_backend_log_path = state.docker_network_backend_log_path;
  docker_tap_name = state.docker_tap_name;
  docker_guest_mac = state.docker_guest_mac;
  host_share_support = host_share_support metadata;
  host_share_status = host_share_status metadata state;
  host_share_status_reason = host_share_status_reason metadata state;
  host_share_path = state.host_share_path;
  host_share_ready = state.host_share_ready;
  host_share_last_error = state.host_share_last_error;
  host_share_mount_socket_path = state.host_share_mount_socket_path;
  host_share_guest_port = state.host_share_guest_port;
  host_share_virtio_fs_pid = state.host_share_virtio_fs_pid;
  host_share_virtio_fs_socket_path = state.host_share_virtio_fs_socket_path;
  host_share_virtio_fs_log_path = state.host_share_virtio_fs_log_path;
  kubernetes_support = kubernetes_support metadata;
  kubernetes_status = kubernetes_status metadata state;
  kubernetes_ready = state.kubernetes_ready;
  kubernetes_last_error = state.kubernetes_last_error;
  kubernetes_kubeconfig_path =
      first_non_empty (state.kubernetes_kubeconfig_path ∷ metadata.kubeconfig_path ∷ []);
  kubernetes_context = state.kubernetes_context;
  kubernetes_api_server_url = state.kubernetes_api_server_url;
  kubernetes_api_server_port = state.kubernetes_api_server_port;
  kubernetes_api_server_target_port = state.kubernetes_api_server_target_port;
  kubernetes_relay_pid = state.kubernetes_relay_pid;
  kubernetes_relay_log_path = state.kubernetes_relay_log_path;
  registry_ready = state.registry_ready;
  registry_last_error = state.registry_last_error;
  registry_url = state.registry_url;
  registry_port = state.registry_port;
  registry_target_port = state.registry_target_port;
  registry_relay_pid = state.registry_relay_pid;
  registry_relay_log_path = state.registry_relay_log_path;
  registry_host_from_cluster = state.registry_host_from_cluster;
  registry_local_hosting_updated = state.registry_local_hosting_updated;
  serial_log_path = serial_log_path vm_dir metadata.backend state;
  backend_log_path = backend_log_path vm_dir metadata.backend state;
  event_log_path = event_log_path vm_dir metadata.backend state;
  started_at = state.started_at;
  updated_at = state.updated_at;
  last_start_duration = state.last_start_duration_ms * 1000000 % 2 ^ 64;
  log_paths = vm_log_paths vm_dir metadata.backend state;
}

unfoldable pub read_metadata : JsonFile VmMetadata → Result VmError VmMetadata
read_metadata missing = err not_found
read_metadata unreadable = err read_metadata_failed
read_metadata (readable metadata) = ok metadata

unfoldable pub read_state : JsonFile VmState → Result VmError VmState
read_state missing = err read_state_failed
read_state unreadable = err read_state_failed
read_state (readable state) = ok state

-- `VMStatus` of the VM in the directory `vm_store/name`, of which the two files are arguments
unfoldable pub vm_status :
    Host → Bytes → Bytes → JsonFile VmMetadata → JsonFile VmState → Result VmError VmInfo
vm_status host vm_store name metadata_file state_file = do
  validate_store_name name
  metadata ← read_metadata metadata_file
  state ← read_state state_file
  ok (info_of host (join vm_store name) name (hydrate_vm_metadata host.goarch metadata) state)
