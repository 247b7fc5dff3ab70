-- ===== src/Vm/Json/Output.antt =====
-- The conversion of internal/spind/cli/output/vm_json.go, with the texts of times and durations of
-- internal/spind/cli/output/format.go. The layout of a time and of a duration as text are the
-- standard library's, a parameter.
use spind.Prelude.{
  Bytes, [], codes, if◌then◌else◌, leb, ltb, not, str_eq, ℕ, ◌%◌, ◌+◌, ◌-◌, ◌==◌, ◌^◌, ◌||◌,
}
use spind.Vm.Info.{VmInfo}
use spind.Vm.Json.{RegistryStatus, KubernetesStatus, DockerStatus, VmJson}

-- `time.Time.Format(time.RFC3339)` of the time in UTC, and `time.Duration.String`
pub record Formats : Type 0 where
  pub time_text : ℕ → Bytes
  pub duration_text : ℕ → Bytes

unfoldable pub format_time : Formats → ℕ → Bytes
format_time formats value = if value == 0 then [] else formats.time_text value

-- `Duration.Round(time.Millisecond)` of a duration that is not negative
unfoldable pub round_millisecond : ℕ → ℕ
round_millisecond d =
    let r = d % 1000000 in
    if ltb (r + r) 1000000
    then d - r
    else if ltb (d + 1000000 - r) (2 ^ 63)
    then d + 1000000 - r
    else 2 ^ 63 - 1

-- A duration is the 64 bits of its `int64`.
unfoldable pub format_duration : Formats → ℕ → Bytes
format_duration formats d =
    if ltb d 1000000 || leb (2 ^ 63) d
    then formats.duration_text d
    else formats.duration_text (round_millisecond d)

unfoldable pub format_optional_duration : Formats → ℕ → Bytes
format_optional_duration formats d = if d == 0 then [] else format_duration formats d

abbrev pub unavailable : Bytes
unavailable = codes "unavailable"

unfoldable pub unavailable_reason : Bytes → Bytes → Bytes
unavailable_reason status reason = if not (str_eq status unavailable) then [] else reason

unfoldable pub unavailable_log : Bytes → Bytes → Bytes
unavailable_log status log_path = if not (str_eq status unavailable) then [] else log_path

unfoldable pub capability_reason : Bytes → Bytes → Bytes
capability_reason status reason =
    if str_eq status unavailable || str_eq status (codes "not-applicable") then reason else []

unfoldable pub new_registry_status : VmInfo → RegistryStatus
new_registry_status info = record {
  ready = info.registry_ready;
  url = info.registry_url;
  relay_port = info.registry_port;
  target_port = info.registry_target_port;
  relay_pid = info.registry_relay_pid;
  log = info.registry_relay_log_path;
  reason = info.registry_last_error;
  host_from_cluster = info.registry_host_from_cluster;
  local_registry_hosting_updated = info.registry_local_hosting_updated;
}

unfoldable pub new_kubernetes_status : VmInfo → KubernetesStatus
new_kubernetes_status info = record {
  support = info.kubernetes_support;
  ready = info.kubernetes_status;
  reason = capability_reason info.kubernetes_status info.kubernetes_last_error;
  log = unavailable_log info.kubernetes_status info.kubernetes_relay_log_path;
  kubeconfig = info.kubernetes_kubeconfig_path;
  context = info.kubernetes_context;
  api_server = info.kubernetes_api_server_url;
  relay_pid = info.kubernetes_relay_pid;
}

unfoldable pub new_docker_status : VmInfo → DockerStatus
new_docker_status info = record {
  api = record {
    support = info.docker_api_support;
    ready = info.docker_api_status;
    reason = unavailable_reason info.docker_api_status info.docker_last_error;
    log = unavailable_log info.docker_api_status info.docker_log_path;
    endpoint = info.docker_endpoint_uri;
    path = [];
  };
  network = record {
    support = info.docker_network_support;
    ready = info.docker_network_status;
    reason = unavailable_reason info.docker_network_status info.docker_network_last_error;
    log = unavailable_log info.docker_network_status info.backend_log_path;
    endpoint = [];
    path = [];
  };
  port_publish = record {
    support = info.docker_port_relay_support;
    ready = info.docker_port_relay_status;
    reason = unavailable_reason info.docker_port_relay_status info.docker_last_error;
    log = unavailable_log info.docker_port_relay_status info.docker_port_relay_log_path;
    endpoint = [];
    path = [];
  };
  shared_path = record {
    support = info.host_share_support;
    ready = info.host_share_status;
    reason = capability_reason info.host_share_status info.host_share_status_reason;
    log = unavailable_log info.host_share_status info.host_share_virtio_fs_log_path;
    endpoint = [];
    path = info.host_share_path;
  };
}

unfoldable pub new_vm_info : Formats → VmInfo → VmJson
new_vm_info formats info = record {
  name = info.name;
  status = info.status;
  backend = info.backend;
  pid = info.pid;
  exec_ready = info.exec_ready;
  image = info.image;
  from_snapshot = info.from_snapshot;
  source_snapshot = info.source_snapshot;
  restore_mode = info.restore_mode;
  vm_dir = info.vm_dir;
  state_path = info.state_path;
  exec_socket_path = info.exec_socket_path;
  cloud_hypervisor_api_socket_path = info.cloud_hypervisor_api_socket_path;
  cloud_hypervisor_vsock_path = info.cloud_hypervisor_vsock_path;
  docker = new_docker_status info;
  kubernetes = new_kubernetes_status info;
  registry = new_registry_status info;
  docker_socket_path = info.docker_socket_path;
  docker_endpoint_uri = info.docker_endpoint_uri;
  docker_relay_pid = info.docker_relay_pid;
  docker_guest_port = info.docker_guest_port;
  docker_api_support = info.docker_api_support;
  docker_api_status = info.docker_api_status;
  docker_api_ready = info.docker_api_ready;
  docker_available = info.docker_available;
  docker_last_error = info.docker_last_error;
  docker_log_path = info.docker_log_path;
  docker_network_support = info.docker_network_support;
  docker_network_status = info.docker_network_status;
  docker_network_ready = info.docker_network_ready;
  docker_network_last_error = info.docker_network_last_error;
  docker_guest_ip_address = info.docker_guest_ip_address;
  docker_default_route_ready = info.docker_default_route_ready;
  docker_dns_ready = info.docker_dns_ready;
  docker_bridge_ready = info.docker_bridge_ready;
  docker_pull_ready = info.docker_pull_ready;
  docker_tcp_forward_socket_path = info.docker_tcp_forward_socket_path;
  docker_tcp_forward_guest_port = info.docker_tcp_forward_guest_port;
  docker_port_relay_pid = info.docker_port_relay_pid;
  docker_port_relay_support = info.docker_port_relay_support;
  docker_port_relay_status = info.docker_port_relay_status;
  docker_port_relay_ready = info.docker_port_relay_ready;
  docker_port_relay_log_path = info.docker_port_relay_log_path;
  docker_published_ports = info.docker_published_ports;
  docker_network_backend = info.docker_network_backend;
  docker_network_backend_pid = info.docker_network_backend_pid;
  docker_network_socket_path = info.docker_network_socket_path;
  docker_network_backend_log_path = info.docker_network_backend_log_path;
  docker_tap_name = info.docker_tap_name;
  docker_guest_mac = info.docker_guest_mac;
  host_share_support = info.host_share_support;
  host_share_status = info.host_share_status;
  host_share_status_reason = info.host_share_status_reason;
  host_share_path = info.host_share_path;
  host_share_ready = info.host_share_ready;
  host_share_last_error = info.host_share_last_error;
  host_share_mount_socket_path = info.host_share_mount_socket_path;
  host_share_guest_port = info.host_share_guest_port;
  host_share_virtio_fs_pid = info.host_share_virtio_fs_pid;
  host_share_virtio_fs_socket_path = info.host_share_virtio_fs_socket_path;
  host_share_virtio_fs_log_path = info.host_share_virtio_fs_log_path;
  kubernetes_support = info.kubernetes_support;
  kubernetes_status = info.kubernetes_status;
  kubernetes_ready = info.kubernetes_ready;
  kubernetes_last_error = info.kubernetes_last_error;
  kubernetes_kubeconfig_path = info.kubernetes_kubeconfig_path;
  kubernetes_context = info.kubernetes_context;
  kubernetes_api_server_url = info.kubernetes_api_server_url;
  kubernetes_api_server_port = info.kubernetes_api_server_port;
  kubernetes_api_server_target_port = info.kubernetes_api_server_target_port;
  kubernetes_relay_pid = info.kubernetes_relay_pid;
  kubernetes_relay_log_path = info.kubernetes_relay_log_path;
  registry_ready = info.registry_ready;
  registry_last_error = info.registry_last_error;
  registry_url = info.registry_url;
  registry_port = info.registry_port;
  registry_target_port = info.registry_target_port;
  registry_relay_pid = info.registry_relay_pid;
  registry_relay_log_path = info.registry_relay_log_path;
  registry_host_from_cluster = info.registry_host_from_cluster;
  registry_local_hosting_updated = info.registry_local_hosting_updated;
  serial_log_path = info.serial_log_path;
  backend_log_path = info.backend_log_path;
  event_log_path = info.event_log_path;
  started_at = format_time formats info.started_at;
  updated_at = format_time formats info.updated_at;
  last_start_duration = format_optional_duration formats info.last_start_duration;
  log_paths = info.log_paths;
}
